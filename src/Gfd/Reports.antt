-- ===== src/Gfd/Reports.antt =====
-- What the GFD does with the messages of a detector, and when its connection is lost.
use fall2026_18749_project.Prelude.{
  ℕ, suc, String, ◌≡◌, ◌≢◌, refl, Bool, false, none, some, [], ◌∷◌, ◌++◌, Table, find, put, remove,
  find-put, find-remove, arith, eq_refl, nat_eq, nat_eq_refl,
}
use fall2026_18749_project.Value.{Fields, eq_str, eq_int, get-lookup}
use fall2026_18749_project.Result.{Exn, ok}
use fall2026_18749_project.Logger.{event, registered}
use fall2026_18749_project.Protocol.{MessageType, register, membership, heartbeat_ack}
use fall2026_18749_project.Protocol.Validate.{item-lookup}
use fall2026_18749_project.Protocol.WellFormed.{IsReport, IsBeat}
use fall2026_18749_project.Access.{as_mapping, as_bool, text_item-lookup, payload_item-lookup}
use fall2026_18749_project.Gfd.{
  Gfd, update, opened, closed, awaiting, resting, arrived, failed, leave, report_failure, settle,
  enter, rest_event, await_reply, register_connection, handle, is_timeout,
}
use fall2026_18749_project.Gfd.Checks.{
  at-find, validate_report, healthy_of, check_registration, check_event, check_reply,
}
use fall2026_18749_project.Gfd.Members.{has}
use fall2026_18749_project.Gfd.Updates.{update_ok, update-Updated}
use fall2026_18749_project.Gfd.Effects.{report_failure-Alike, clean_up_own}
use fall2026_18749_project.Gfd.Stretches.{send_heartbeat_lem, beat_sent}

module _ {kind : MessageType} {m : Fields} {l r : String} {h : Bool} (q : IsReport kind m l r h)
    (servers : Table String) (known : find servers l ≡ some r) where
  pub report_valid : validate_report servers m l ≡ ok tt
  unfolding validate_report as_mapping eq_str
  report_valid = simp (
    item-lookup m "source" q.envelope.source_text.held,
    item-lookup m "destination" q.envelope.destination_text.held,
    item-lookup m "payload" q.envelope.payload_held,
    at-find servers l known,
    get-lookup q.payload "replica_id" q.replica_text.held,
    eq_refl l,
    eq_refl r,
  )

  report_healthy : healthy_of m ≡ ok h
  unfolding healthy_of as_bool
  report_healthy =
      simp (payload_item-lookup m q.payload "healthy" q.envelope.payload_held q.healthy_held)

-- The state in which a registration is entered.
abbrev pub session_opened : ℕ → String → Gfd → Gfd
session_opened w l s = record s {
  sessions = put s.sessions l w;
  log = s.log ++ event (registered l) ∷ [];
}

member_after :
    (l r : String) (h : Bool) (s : Gfd)
    → find s.lfd_servers l ≡ some r
    → has (update l h s).1.members r ≡ h
member_after l r h s known =
    let u = update-Updated l r h s known in ground (arith, u.member r, eq_refl r)

module _ {m : Fields} {l r : String} {h : Bool} (w n : ℕ) (s : Gfd)
    (known : find s.lfd_servers l ≡ some r) where
  -- A valid membership event from a configured detector, on the connection registered for it, sets
  -- the membership of its replica as reported, and changes nothing else than `_update` does, both
  -- between heartbeats and while an answer is awaited.
  pub membership_event :
      IsReport membership m l r h
      → (handle w (resting l n) (arrived m) s ≡ (resting l n, (update l h s).1))
        × (handle w (awaiting l n) (arrived m) s ≡ (awaiting l n, (update l h s).1))
        × (has (update l h s).1.members r ≡ h)
  unfolding handle settle rest_event await_reply check_event check_reply eq_str
  membership_event q = (
    simp (
      item-lookup m "type" q.envelope.type,
      report_valid q s.lfd_servers known,
      report_healthy q s.lfd_servers known,
      update_ok l r h s known,
    ),
    simp (
      item-lookup m "type" q.envelope.type,
      report_valid q s.lfd_servers known,
      report_healthy q s.lfd_servers known,
      update_ok l r h s known,
    ),
    member_after l r h s known,
  )

  entered :
      IsReport register m l r h
      → find s.sessions l ≡ none
      → handle w opened (arrived m) s
        ≡ (awaiting l 1, beat_sent w l 0 (update l h (session_opened w l s)).1)
  unfolding handle register_connection check_registration eq_str enter settle
  entered q free = simp (
    text_item-lookup m "source" q.envelope.source_text.held,
    item-lookup m "type" q.envelope.type,
    known,
    report_valid q s.lfd_servers known,
    free,
    report_healthy q s.lfd_servers known,
    update_ok l r h (session_opened w l s) known,
    send_heartbeat_lem w l 0 (update l h (session_opened w l s)).1 q.envelope.source_text.not_blank,
  )

  -- A valid registration of a configured detector without a session opens its session on the
  -- connection it came on, sets the membership of the detector's replica as reported, and sends
  -- heartbeat 1 after it.
  pub registration :
      IsReport register m l r h
      → find s.sessions l ≡ none
      → (handle w opened (arrived m) s
          ≡ (awaiting l 1, beat_sent w l 0 (update l h (session_opened w l s)).1))
        × (find (handle w opened (arrived m) s).1.sessions l ≡ some w)
        × (has (handle w opened (arrived m) s).1.members r ≡ h)
  registration q free =
      let e = entered q free in
      let u = update-Updated l r h (session_opened w l s) known in
      (
        e,
        rw (e, u.same_sessions, find-put, eq_refl l) refl,
        rw e (member_after l r h (session_opened w l s) known),
      )

-- When a read on the connection that has a configured detector's session fails with any exception
-- but a TimeoutError, the session is closed and the detector's replica is no longer a member, and
-- this is the same between heartbeats and while an answer is awaited.
pub connection_lost :
    (w n : ℕ) (l r : String) (s : Gfd) (e : Exn)
    → find s.lfd_servers l ≡ some r
    → find s.sessions l ≡ some w
    → is_timeout e ≡ false
    → let t = (handle w (resting l n) (failed e) s).1 in
      ((handle w (resting l n) (failed e) s).0 ≡ closed)
      × (find t.sessions l ≡ none)
      × (has t.members r ≡ false)
      × (handle w (awaiting l n) (failed e) s ≡ handle w (resting l n) (failed e) s)
unfolding handle leave
connection_lost w n l r s e known mine broken =
    let a = report_failure-Alike (some l) e s in
    let f = (report_failure (some l) e s).1 in
    let c = clean_up_own w l f (rw a.sessions mine) in
    let known' : find f.lfd_servers l ≡ some r = rw a.servers known in
    let u = update-Updated l r false (record f { sessions = remove f.sessions l }) known' in
    (
      rw broken refl,
      rw (broken, c, u.same_sessions, find-remove, eq_refl l) refl,
      rw (broken, c) (member_after l r false (record f { sessions = remove f.sessions l }) known'),
      rw broken refl,
    )

nat_ne : (a b : ℕ) → b ≢ a → nat_eq a b ≡ false
nat_ne a b h = ground arith

-- The answer to the heartbeat that is due ends the wait; one with another number ends the session.
pub heartbeat_answer :
    {m : Fields} (w n k : ℕ) (l : String) (s : Gfd)
    → IsBeat heartbeat_ack m l "GFD" k
    → ((n ≡ suc k) → (handle w (awaiting l n) (arrived m) s).0 ≡ resting l n)
      × ((n ≢ suc k) → (handle w (awaiting l n) (arrived m) s).0 ≡ closed)
unfolding handle settle await_reply check_reply eq_str eq_int leave
heartbeat_answer {m} w n k l s q = (
  λ same. simp (
    item-lookup m "type" q.envelope.type,
    item-lookup m "source" q.envelope.source_text.held,
    item-lookup m "destination" q.envelope.destination_text.held,
    item-lookup m "heartbeat_count" q.count_held,
    eq_refl l,
    same,
    nat_eq_refl (suc k),
  ),
  λ other. simp (
    item-lookup m "type" q.envelope.type,
    item-lookup m "source" q.envelope.source_text.held,
    item-lookup m "destination" q.envelope.destination_text.held,
    item-lookup m "heartbeat_count" q.count_held,
    eq_refl l,
    nat_ne (suc k) n other,
  ),
)
