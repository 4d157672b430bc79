-- ===== src/Gfd/Invariant.antt =====
-- What holds of the GFD along any interleaving: every step keeps the invariant.
use fall2026_18749_project.Prelude.{
  ℕ, ◌∙◌, String, ◌≡◌, refl, ap, subst, Bool, true, false, none, some, Table, find, put, remove,
  find-put, find-remove, ◌==◌, arith, eq_iff, eq_refl, Bool-cases, inl, inr,
}
use fall2026_18749_project.Text.{is_blank}
use fall2026_18749_project.Gfd.{Gfd, Phase}
use fall2026_18749_project.Gfd.Members.{has}
use fall2026_18749_project.Gfd.Effects.{detector, Member, Effect, stayed, entered, left, idle}
use fall2026_18749_project.Gfd.Stretches.{handle-Effect}
use fall2026_18749_project.Gfd.System.{
  System, set_phase, Step, connect, input, Reach, start, later, Watched, Inv, unconnected-Inv,
  connect-Inv,
}

-- The invariant after a stretch of the connection `w`, one lemma for each effect.
module _ (s : System) (w : ℕ) (p : Phase) (t : Gfd) (inv : Inv s) where
  abbrev next : System
  next = record { gfd = t; phase = set_phase s.phase w p }

  Watched-by :
      (l r : String) (h : Bool)
      → find t.sessions l ≡ some w
      → find t.lfd_servers l ≡ some r
      → ((j : String) → (r == j) ≡ false → has s.gfd.members j ≡ true → Watched next j)
      → Member s.gfd t r h
      → (j : String) → has t.members j ≡ true
      → Watched next j
  Watched-by l r h session known others members j m = elim (Bool-cases (r == j)) [
    | inl same ↦ (l, w, session, known ∙ ap some ((eq_iff r j).0 same))
    | inr other ↦ others j other (ground (arith, members j))
  ]

  stayed-Inv :
      (l r : String) (h : Bool)
      → detector (s.phase w) ≡ some l
      → detector p ≡ some l
      → find s.gfd.lfd_servers l ≡ some r
      → t.sessions ≡ s.gfd.sessions
      → t.lfd_servers ≡ s.gfd.lfd_servers
      → Member s.gfd t r h
      → Inv next
  stayed-Inv l r h before after known sessions servers members = record {
    names = λ l' r' e. inv.names l' r' (rw servers at e);
    owned = λ l' v e. ground (arith, inv.owned l' v (rw sessions at e));
    listed = λ l' v e. rw sessions (ground (arith, inv.listed l' v, inv.listed l w before));
    configured = λ l' v e. rw servers (inv.configured l' v (rw sessions at e));
    watched =
        Watched-by l r h (rw sessions (inv.listed l w before)) (rw servers known)
          (λ j other m. rw (sessions, servers) (inv.watched j m)) members;
  }

  module _ (l r : String) (free : find s.gfd.sessions l ≡ none)
      (known : find s.gfd.lfd_servers l ≡ some r) where
    entered_configured :
        (l' : String) (v : ℕ)
        → find (put s.gfd.sessions l w) l' ≡ some v
        → (x : String) × (find s.gfd.lfd_servers l' ≡ some x)
    entered_configured l' v e = elim (Bool-cases (l == l')) [
      | inl same ↦ (
        r,
        subst (λ (x : String). find s.gfd.lfd_servers x ≡ some r) ((eq_iff l l').0 same) known,
      )
      | inr other ↦ inv.configured l' v (rw (find-put, other) at e)
    ]

    kept_watch :
        (j : String)
        → Watched s j
        → (k : String) × (v : ℕ) × (find (put s.gfd.sessions l w) k ≡ some v)
          × (find s.gfd.lfd_servers k ≡ some j)
    kept_watch j (k, v, session, watches) =
        (k, v, ground (arith, find-put s.gfd.sessions l w k, eq_iff l k, free, session), watches)

  entered-Inv :
      (l r : String) (h : Bool)
      → detector (s.phase w) ≡ none
      → detector p ≡ some l
      → find s.gfd.sessions l ≡ none
      → find s.gfd.lfd_servers l ≡ some r
      → t.sessions ≡ put s.gfd.sessions l w
      → t.lfd_servers ≡ s.gfd.lfd_servers
      → Member s.gfd t r h
      → Inv next
  entered-Inv l r h before after free known sessions servers members = record {
    names = λ l' r' e. inv.names l' r' (rw servers at e);
    owned = λ l' v e. ground (arith, eq_iff l l', inv.owned l' v, (rw (sessions, find-put) at e));
    listed = λ l' v e. rw (sessions, find-put) (ground (arith, eq_iff l l', inv.listed l' v));
    configured = λ l' v e. rw servers (entered_configured l r free known l' v (rw sessions at e));
    watched =
        Watched-by l r h (rw (sessions, find-put, eq_refl l) refl) (rw servers known)
          (λ j other m. rw (sessions, servers) (kept_watch l r free known j (inv.watched j m)))
          members;
  }

  module _ (l r : String) (known : find s.gfd.lfd_servers l ≡ some r)
      (members : Member s.gfd t r false) where
    other_member : (j : String) → has t.members j ≡ true → (r == j) ≡ false
    other_member j m = ground (arith, members j)

    still_member : (j : String) → has t.members j ≡ true → has s.gfd.members j ≡ true
    still_member j m = ground (arith, members j)

    left_watch :
        (j : String)
        → (r == j) ≡ false
        → Watched s j
        → (k : String) × (v : ℕ) × (find (remove s.gfd.sessions l) k ≡ some v)
          × (find s.gfd.lfd_servers k ≡ some j)
    left_watch j other (k, v, session, watches) = (
      k,
      v,
      ground
          (arith, find-remove s.gfd.sessions l k, eq_iff l k, eq_iff r j, known, session, watches),
      watches,
    )

  left-Inv :
      (l r : String)
      → detector (s.phase w) ≡ some l
      → detector p ≡ none
      → find s.gfd.lfd_servers l ≡ some r
      → t.sessions ≡ remove s.gfd.sessions l
      → t.lfd_servers ≡ s.gfd.lfd_servers
      → Member s.gfd t r false
      → Inv next
  left-Inv l r before after known sessions servers members = record {
    names = λ l' r' e. inv.names l' r' (rw servers at e);
    owned = λ l' v e. ground (
      arith,
      eq_iff l l',
      inv.owned l' v,
      inv.listed l w before,
      (rw (sessions, find-remove) at e),
    );
    listed = λ l' v e.
        rw (sessions, find-remove)
          (ground (arith, eq_iff l l', inv.listed l' v, inv.listed l w before));
    configured = λ l' v e.
        rw servers (inv.configured l' v (ground (arith, (rw (sessions, find-remove) at e))));
    watched = λ j m.
        rw (sessions, servers)
          (left_watch l r known members j (other_member l r known members j m)
            (inv.watched j (still_member l r known members j m)));
  }

  idle-Inv :
      detector (s.phase w) ≡ none
      → detector p ≡ none
      → t.sessions ≡ s.gfd.sessions
      → t.lfd_servers ≡ s.gfd.lfd_servers
      → t.members ≡ s.gfd.members
      → Inv next
  idle-Inv before after sessions servers members = record {
    names = λ l' r' e. inv.names l' r' (rw servers at e);
    owned = λ l' v e. ground (arith, inv.owned l' v (rw sessions at e));
    listed = λ l' v e. rw sessions (ground (arith, inv.listed l' v));
    configured = λ l' v e. rw servers (inv.configured l' v (rw sessions at e));
    watched = λ j m. rw (sessions, servers) (inv.watched j (rw members at m));
  }

  Effect-Inv : Effect w s.gfd (s.phase w) p t → Inv next
  Effect-Inv (stayed l r h a b c d e f) = stayed-Inv l r h a b c d e f
  Effect-Inv (entered l r h a b c d e f g) = entered-Inv l r h a b c d e f g
  Effect-Inv (left l r a b c d e f) = left-Inv l r a b c d e f
  Effect-Inv (idle a b c d e) = idle-Inv a b c d e

pub own_session :
    (s : System) (w : ℕ)
    → Inv s
    → (l : String) → detector (s.phase w) ≡ some l
    → (find s.gfd.sessions l ≡ some w) × (r : String) × (find s.gfd.lfd_servers l ≡ some r)
own_session s w inv l e =
    let session = inv.listed l w e in
    let (r, known) = inv.configured l w session in (session, r, known)

-- Every step keeps the invariant, whatever arrives on whichever connection.
pub Step-Inv : {s t : System} → Step s t → Inv s → Inv t
Step-Inv {s} (connect w fresh) inv = connect-Inv s w fresh inv
Step-Inv {s} (input w i) inv =
    Effect-Inv s w _ _ inv (handle-Effect w s.gfd inv.names (s.phase w) i (own_session s w inv))

pub Reach-Inv :
    {lfd_servers : Table String} {s : System}
    → ((l r : String) → find lfd_servers l ≡ some r → is_blank l ≡ false)
    → Reach lfd_servers s
    → Inv s
Reach-Inv {lfd_servers} names (start log) = unconnected-Inv lfd_servers log names
Reach-Inv names (later r st) = Step-Inv st (Reach-Inv names r)
