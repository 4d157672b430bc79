-- ===== src/Gfd/Stretches.antt =====
-- Every stretch of a handler of a connection has one of the effects.
use fall2026_18749_project.Gfd.{
  is_timeout, Gfd, update, Phase, absent, opened, closed, awaiting, resting, Input, arrived, failed,
  deadline, settle, send_heartbeat, enter, register_connection, await_reply, rest_event, handle,
}
use fall2026_18749_project.Prelude.{
  Bool-cases, inl, inr, not, ◌&&◌, ◌++◌, ℕ, suc, ◌+◌, String, ◌≡◌, refl, subst, Bool, true, false,
  Option, none, some, [], ◌∷◌, Table, find, put, arith,
}
use native.Mathlib.Numerals.{add-one}
use fall2026_18749_project.Text.{is_blank}
use fall2026_18749_project.Value.{eq_str, pos, str, int, Fields}
use fall2026_18749_project.Result.{
  Result, ok, err, after_bind, after_guard, Result-cases, timeout_error,
}
use fall2026_18749_project.Logger.{event, registered, heartbeat_sent}
use fall2026_18749_project.Protocol.{heartbeat, text, register}
use fall2026_18749_project.Protocol.Validate.{item}
use fall2026_18749_project.Access.{text_item}
use fall2026_18749_project.Protocol.Build.{heartbeat_fields}
use fall2026_18749_project.Protocol.Built.{build_heartbeat_lem}
use fall2026_18749_project.Gfd.Checks.{
  is_some, check_registration, check_event, check_reply, validate_report, healthy_of,
}
use fall2026_18749_project.Gfd.Members.{has}
use fall2026_18749_project.Gfd.Updates.{update_ok, update-Updated, unchanged_member}
use fall2026_18749_project.Gfd.Effects.{
  detector, Member, Effect, entered, idle, leave-none, leave-some, stayed,
}

-- A stretch that ends at a wait of the same detector, or raises.
record Stays (s : Gfd) (l r : String) (x : Result Phase × Gfd) : Type 0 where
  health : Bool
  same_sessions : x.1.sessions ≡ s.sessions
  same_servers : x.1.lfd_servers ≡ s.lfd_servers
  members : Member s x.1 r health
  waits : (p : Phase) → x.0 ≡ ok p → detector p ≡ some l

waits_at :
    {a p : Phase} {o : Option String}
    → ◌≡◌ {A = Result Phase} (ok a) (ok p)
    → detector a ≡ o
    → detector p ≡ o
waits_at {a} {p} {o} e h = let same : a ≡ p = cc in subst (λ (x : Phase). detector x ≡ o) same h

settle-Effect :
    (w : ℕ) (l r : String) (s : Gfd) (p : Phase) (x : Result Phase × Gfd)
    → find s.lfd_servers l ≡ some r
    → find s.sessions l ≡ some w
    → detector p ≡ some l
    → Stays s l r x
    → Effect w s p (settle w l x).0 (settle w l x).1
unfolding settle
settle-Effect w l r s p (ok p', g) known mine own x =
    stayed l r x.health own (x.waits p' refl) known x.same_sessions x.same_servers x.members
settle-Effect w l r s p (err e, g) known mine own x =
    leave-some w l r s g p x.health e known mine own x.same_sessions x.same_servers x.members

unchanged : (s : Gfd) (r : String) → Member s s r (has s.members r)
unchanged s r j = unchanged_member s.members r j (has s.members r) refl

module _ (w : ℕ) (l r : String) (s : Gfd) (known : find s.lfd_servers l ≡ some r) where
  await_reply-Stays : (n : ℕ) (m : Fields) → Stays s l r (await_reply l n m s)
  unfolding await_reply
  await_reply-Stays n m = elim (Result-cases (check_reply s.lfd_servers l (pos n) m)) [
    | inl (some h, e) ↦
        let u = update-Updated l r h s known in
        rw (e, update_ok l r h s known)
          (record {
            health = h;
            same_sessions = u.same_sessions;
            same_servers = u.same_servers;
            members = u.member;
            waits = λ p q. waits_at q refl;
          })
    | inl (none, e) ↦ rw e (record {
      health = has s.members r;
      same_sessions = refl;
      same_servers = refl;
      members = unchanged s r;
      waits = λ p q. waits_at q refl;
    })
    | inr (x, e) ↦ rw e (record {
      health = has s.members r;
      same_sessions = refl;
      same_servers = refl;
      members = unchanged s r;
      waits = λ p q. cc q;
    })
  ]

  rest_event-Stays : (n : ℕ) (m : Fields) → Stays s l r (rest_event l n m s)
  unfolding rest_event
  rest_event-Stays n m = elim (Result-cases (check_event s.lfd_servers l m)) [
    | inl (h, e) ↦
        let u = update-Updated l r h s known in
        rw (e, update_ok l r h s known)
          (record {
            health = h;
            same_sessions = u.same_sessions;
            same_servers = u.same_servers;
            members = u.member;
            waits = λ p q. waits_at q refl;
          })
    | inr (x, e) ↦ rw e (record {
      health = has s.members r;
      same_sessions = refl;
      same_servers = refl;
      members = unchanged s r;
      waits = λ p q. cc q;
    })
  ]

-- The state after a heartbeat is sent.
abbrev pub beat_sent : ℕ → String → ℕ → Gfd → Gfd
beat_sent w l n s = record s {
  log = s.log ++ heartbeat_sent "GFD" l (pos (suc n)) ∷ [];
  outbox = s.outbox ++ (w, heartbeat_fields heartbeat (str "GFD") (str l) (int (pos (suc n)))) ∷ [];
}

pub send_heartbeat_lem :
    (w : ℕ) (l : String) (n : ℕ) (s : Gfd)
    → is_blank l ≡ false
    → send_heartbeat w l (suc n) s ≡ (ok (awaiting l (suc n)), beat_sent w l n s)
unfolding send_heartbeat is_blank
send_heartbeat_lem w l n s text = rw (build_heartbeat_lem {s = "GFD"} {d = l} refl text n) refl

module _ (w : ℕ) (l r : String) (s : Gfd) (known : find s.lfd_servers l ≡ some r)
    (named : is_blank l ≡ false) where
  send_heartbeat-Stays : (n : ℕ) → Stays s l r (send_heartbeat w l (n + 1) s)
  send_heartbeat-Stays n =
      rw (add-one, send_heartbeat_lem w l n s named)
        (record {
          health = has s.members r;
          same_sessions = refl;
          same_servers = refl;
          members = unchanged s r;
          waits = λ p q. waits_at q refl;
        })

  -- A registration of a detector that has no session.
  enter-Effect :
      (h : Bool) (p : Phase)
      → find s.sessions l ≡ none
      → detector p ≡ none
      → Effect w s p (settle w l (enter w l h s)).0 (settle w l (enter w l h s)).1
  unfolding enter settle
  enter-Effect h p absent_session none_yet =
      let s' = record s {
        sessions = put s.sessions l w;
        log = s.log ++ event (registered l) ∷ [];
      } in
      let u = update-Updated l r h s' known in
      rw (update_ok l r h s' known, send_heartbeat_lem w l 0 (update l h s').1 named)
        (entered l r h none_yet refl absent_session known u.same_sessions u.same_servers u.member)

-- Who has registered is configured and has no session.
registration_checked :
    (servers : Table String) (has_session : String → Bool) (m : Fields) (l : String) (h : Bool)
    → check_registration servers has_session m ≡ ok (l, h)
    → (is_some (find servers l) ≡ true) × (has_session l ≡ false)
unfolding check_registration
registration_checked servers has_session m l h e =
    after_bind (text_item m "source") _ e λ c is_source e.
      after_bind (item m "type") _ e λ kind is_kind e.
        after_guard (eq_str kind (text register) && is_some (find servers c)) _ _ e λ configured e.
          after_bind (validate_report servers m c) _ e λ u report e.
            after_guard (not (has_session c)) _ _ e λ free e.
              after_bind (healthy_of m) _ e
                λ b is_healthy e. let same : c ≡ l = cc in ground (arith, configured, free, same)

none_of_not_some : {V : Type 0} (o : Option V) → is_some o ≡ false → o ≡ none
none_of_not_some none h = refl
none_of_not_some (some v) h = cc

some_of_is_some : {V : Type 0} (o : Option V) → is_some o ≡ true → (v : V) × (o ≡ some v)
some_of_is_some none h = cc
some_of_is_some (some v) h = (v, refl)

module _ (w : ℕ) (s : Gfd)
    (names : (l r : String) → find s.lfd_servers l ≡ some r → is_blank l ≡ false) where
  register-Effect :
      (m : Fields) → Effect w s opened (register_connection w m s).0 (register_connection w m s).1
  unfolding register_connection
  register-Effect m =
      elim (Result-cases
        (check_registration s.lfd_servers (λ lfd. is_some (find s.sessions lfd)) m)) [
          | inl ((l, h), e) ↦
              let (configured, free) = registration_checked _ _ m l h e in
              let (r, known) = some_of_is_some _ configured in
              rw e (
                enter-Effect w l r s known (names l r known) h opened (none_of_not_some _ free)
                  refl)
          | inr (x, e) ↦ rw e (leave-none w opened x s refl)
        ]

  awaiting-Effect :
      (l r : String) (n : ℕ) (i : Input)
      → find s.sessions l ≡ some w
      → find s.lfd_servers l ≡ some r
      → Effect w s (awaiting l n) (handle w (awaiting l n) i s).0 (handle w (awaiting l n) i s).1
  unfolding handle
  awaiting-Effect l r n (arrived m) mine known =
      settle-Effect w l r s (awaiting l n) _ known mine refl (await_reply-Stays w l r s known n m)
  awaiting-Effect l r n (failed e) mine known =
      leave-some w l r s s (awaiting l n) _ e known mine refl refl refl (unchanged s r)
  awaiting-Effect l r n deadline mine known =
      leave-some w l r s s (awaiting l n) _ timeout_error known mine refl refl refl (unchanged s r)

  resting-Effect :
      (l r : String) (n : ℕ) (i : Input)
      → find s.sessions l ≡ some w
      → find s.lfd_servers l ≡ some r
      → Effect w s (resting l n) (handle w (resting l n) i s).0 (handle w (resting l n) i s).1
  unfolding handle
  resting-Effect l r n (arrived m) mine known =
      settle-Effect w l r s (resting l n) _ known mine refl (rest_event-Stays w l r s known n m)
  resting-Effect l r n (failed e) mine known = elim (Bool-cases (is_timeout e)) [
    | inl late ↦ rw late (
        settle-Effect w l r s (resting l n) _ known mine refl
          (send_heartbeat-Stays w l r s known (names l r known) n))
    | inr broken ↦
        rw broken (leave-some w l r s s (resting l n) _ e known mine refl refl refl (unchanged s r))
  ]
  resting-Effect l r n deadline mine known =
      settle-Effect w l r s (resting l n) _ known mine refl
        (send_heartbeat-Stays w l r s known (names l r known) n)

  -- Every stretch of a handler has one of the four effects.
  pub handle-Effect :
      (p : Phase) (i : Input)
      → ((l : String)
          → detector p ≡ some l
          → (find s.sessions l ≡ some w) × (r : String) × (find s.lfd_servers l ≡ some r))
      → Effect w s p (handle w p i s).0 (handle w p i s).1
  unfolding handle
  handle-Effect absent i own = idle refl refl refl refl refl
  handle-Effect closed i own = idle refl refl refl refl refl
  handle-Effect opened (arrived m) own = register-Effect m
  handle-Effect opened (failed e) own = leave-none w opened e s refl
  handle-Effect opened deadline own = leave-none w opened timeout_error s refl
  handle-Effect (awaiting l n) i own =
      let (mine, r, known) = own l refl in awaiting-Effect l r n i mine known
  handle-Effect (resting l n) i own =
      let (mine, r, known) = own l refl in resting-Effect l r n i mine known
