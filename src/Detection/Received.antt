-- ===== src/Detection/Received.antt =====
-- What each message does on the connection of a detector: the phase, and the membership.
use fall2026_18749_project.Prelude.{
  ℕ, suc, String, ◌≡◌, refl, sym, ◌∙◌, subst, Bool, false, Option, none, some, List, [], ◌∷◌, ◌++◌,
  find, arith, eq_refl, Bool-cases, inl, inr, nat_eq, nat_eq_refl,
}
use fall2026_18749_project.Text.{is_blank}
use fall2026_18749_project.Value.{pos, Fields, eq_str, eq_int, get-lookup}
use fall2026_18749_project.Logger.{heartbeat_ack as heartbeat_ack_line}
use fall2026_18749_project.Protocol.{register, membership, heartbeat_ack}
use fall2026_18749_project.Protocol.Validate.{item-lookup}
use fall2026_18749_project.Protocol.WellFormed.{IsReport, IsBeat}
use fall2026_18749_project.Access.{text_item-lookup, payload_item-lookup}
use fall2026_18749_project.Gfd.{
  Gfd, Phase, opened, closed, awaiting, resting, arrived, handle, leave, settle,
  register_connection, rest_event, await_reply, update,
}
use fall2026_18749_project.Gfd.Checks.{check_registration, check_event, check_reply}
use fall2026_18749_project.Gfd.Members.{has}
use fall2026_18749_project.Gfd.Updates.{update-Updated}
use fall2026_18749_project.Gfd.Reports
use fall2026_18749_project.Reporter.Reports.{report_of, last_report, last_report-append}

-- What a message reports.
module _ {m : Fields} {l : String} where
  registration-report_of :
      {r : String} {h : Bool} → IsReport register m l r h → report_of m ≡ some h
  unfolding report_of eq_str
  registration-report_of q = simp (
    get-lookup m "type" q.envelope.type,
    payload_item-lookup m q.payload "healthy" q.envelope.payload_held q.healthy_held,
  )

  event-report_of : {r : String} {h : Bool} → IsReport membership m l r h → report_of m ≡ some h
  unfolding report_of eq_str
  event-report_of q = simp (
    get-lookup m "type" q.envelope.type,
    payload_item-lookup m q.payload "healthy" q.envelope.payload_held q.healthy_held,
  )

  answer-report_of : {n : ℕ} → IsBeat heartbeat_ack m l "GFD" n → report_of m ≡ none
  unfolding report_of eq_str
  answer-report_of q = simp (get-lookup m "type" q.envelope.type)

-- The connection is at its start, it is closed, or the membership is the last report.
pub data Position (l r : String) (ms : List Fields) (s : Gfd) : Phase → Type 0 where
  at_start : ms ≡ [] → find s.lfd_servers l ≡ some r → Position l r ms s opened
  at_end : Position l r ms s closed
  at_answer :
      (n : ℕ)
      → find s.lfd_servers l ≡ some r
      → last_report ms ≡ some (has s.members r)
      → Position l r ms s (awaiting l n)
  at_rest :
      (n : ℕ)
      → find s.lfd_servers l ≡ some r
      → last_report ms ≡ some (has s.members r)
      → Position l r ms s (resting l n)

-- A message of another kind than the one that the phase admits.
module _ {m : Fields} {l : String} (w : ℕ) (s : Gfd) where
  pub report_refused :
      {r : String} {h : Bool}
      → IsReport membership m l r h
      → (handle w opened (arrived m) s).0 ≡ closed
  unfolding handle register_connection check_registration eq_str leave
  report_refused q = simp (
    text_item-lookup m "source" q.envelope.source_text.held,
    item-lookup m "type" q.envelope.type,
  )

  pub answer_refused :
      {n : ℕ} → IsBeat heartbeat_ack m l "GFD" n → (handle w opened (arrived m) s).0 ≡ closed
  unfolding handle register_connection check_registration eq_str leave
  answer_refused q = simp (
    text_item-lookup m "source" q.envelope.source_text.held,
    item-lookup m "type" q.envelope.type,
  )

  pub registration_refused :
      {r : String} {h : Bool} (n : ℕ)
      → IsReport register m l r h
      → ((handle w (resting l n) (arrived m) s).0 ≡ closed)
        × ((handle w (awaiting l n) (arrived m) s).0 ≡ closed)
  unfolding handle settle rest_event await_reply check_event check_reply eq_str leave
  registration_refused n q = (
    simp (item-lookup m "type" q.envelope.type),
    simp (
      item-lookup m "type" q.envelope.type,
      item-lookup m "source" q.envelope.source_text.held,
      item-lookup m "destination" q.envelope.destination_text.held,
    ),
  )

  pub early_answer :
      {k : ℕ} (n : ℕ)
      → IsBeat heartbeat_ack m l "GFD" k
      → (handle w (resting l n) (arrived m) s).0 ≡ closed
  unfolding handle settle rest_event check_event eq_str leave
  early_answer n q = simp (item-lookup m "type" q.envelope.type)

  -- The detector has a session on another connection.
  pub registration_taken :
      {r : String} {h : Bool} (v : ℕ)
      → IsReport register m l r h
      → find s.lfd_servers l ≡ some r
      → find s.sessions l ≡ some v
      → (handle w opened (arrived m) s).0 ≡ closed
  unfolding handle register_connection check_registration eq_str leave
  registration_taken v q known taken = simp (
    text_item-lookup m "source" q.envelope.source_text.held,
    item-lookup m "type" q.envelope.type,
    known,
    Reports.report_valid q s.lfd_servers known,
    taken,
  )

  -- The answer to the heartbeat that is due.
  due_answer :
      (n : ℕ)
      → IsBeat heartbeat_ack m l "GFD" n
      → handle w (awaiting l (suc n)) (arrived m) s ≡ (
        resting l (suc n),
        record s { log = s.log ++ heartbeat_ack_line "GFD" l (pos (suc n)) ∷ [] },
      )
  unfolding handle settle await_reply check_reply eq_str eq_int
  due_answer n q = simp (
    item-lookup m "type" q.envelope.type,
    item-lookup m "source" q.envelope.source_text.held,
    item-lookup m "destination" q.envelope.destination_text.held,
    item-lookup m "heartbeat_count" q.count_held,
    eq_refl l,
    nat_eq_refl (suc n),
  )

module _ (w : ℕ) (l r : String) (named : is_blank l ≡ false) where
  pub at_pair :
      (ms : List Fields) (x y : Phase × Gfd)
      → x ≡ y
      → Position l r ms y.1 y.0
      → Position l r ms x.1 x.0
  at_pair ms x y e q = subst (λ (z : Phase × Gfd). Position l r ms z.1 z.0) (sym e) q

  pub gone : (ms : List Fields) (s : Gfd) (p : Phase) → p ≡ closed → Position l r ms s p
  gone ms s p e = subst (λ (z : Phase). Position l r ms s z) (sym e) at_end

  next_report :
      (ms : List Fields) (m : Fields) (h b : Bool)
      → report_of m ≡ some h
      → b ≡ h
      → last_report (ms ++ m ∷ []) ≡ some b
  next_report ms m h b e same = last_report-append ms m ∙ rw (e, same) refl

  pub no_report :
      (ms : List Fields) (m : Fields) (o : Option Bool)
      → report_of m ≡ none
      → last_report ms ≡ o
      → last_report (ms ++ m ∷ []) ≡ o
  no_report ms m o e same = last_report-append ms m ∙ rw (e, same) refl

  pub event-Position :
      (ms : List Fields) (m : Fields) (h : Bool) (s : Gfd) (n : ℕ)
      → IsReport membership m l r h
      → find s.lfd_servers l ≡ some r
      → Position l r
          (ms ++ m ∷ [])
          (handle w (resting l n) (arrived m) s).1
          (handle w (resting l n) (arrived m) s).0
        × Position l r
            (ms ++ m ∷ [])
            (handle w (awaiting l n) (arrived m) s).1
            (handle w (awaiting l n) (arrived m) s).0
  event-Position ms m h s n q known =
      let (rest, await, member) = Reports.membership_event w n s known q in
      let u = update-Updated l r h s known in
      let is = next_report ms m h (has (update l h s).1.members r) (event-report_of q) member in
      (
        at_pair (ms ++ m ∷ []) _ _ rest (at_rest n (rw u.same_servers known) is),
        at_pair (ms ++ m ∷ []) _ _ await (at_answer n (rw u.same_servers known) is),
      )

  pub start-Position :
      (ms : List Fields) (m : Fields) (h : Bool) (s : Gfd)
      → IsReport register m l r h
      → find s.lfd_servers l ≡ some r
      → find s.sessions l ≡ none
      → Position l r
          (ms ++ m ∷ [])
          (handle w opened (arrived m) s).1
          (handle w opened (arrived m) s).0
  start-Position ms m h s q known free =
      let (e, mine, member) = Reports.registration w 0 s known q free in
      let t = Reports.session_opened w l s in
      let u = update-Updated l r h t known in
      let member : has (update l h t).1.members r ≡ h = rw e at member in
      at_pair (ms ++ m ∷ []) _ _ e (
        at_answer 1 (rw u.same_servers known)
          (next_report ms m h (has (update l h t).1.members r) (registration-report_of q) member))

  pub answer-Position :
      (ms : List Fields) (m : Fields) (s : Gfd) (n k : ℕ)
      → IsBeat heartbeat_ack m l "GFD" k
      → find s.lfd_servers l ≡ some r
      → last_report ms ≡ some (has s.members r)
      → Position l r
          (ms ++ m ∷ [])
          (handle w (awaiting l n) (arrived m) s).1
          (handle w (awaiting l n) (arrived m) s).0
  answer-Position ms m s n k q known is = elim (Bool-cases (nat_eq n (suc k))) [
    | inl same ↦
        let same : n ≡ suc k = ground arith in
        rw same (
          at_pair (ms ++ m ∷ []) _ _ (due_answer w s k q) (
            at_rest (suc k) known
              (no_report ms m (some (has s.members r)) (answer-report_of q) is)))
    | inr other ↦
        gone (ms ++ m ∷ []) _ _ ((Reports.heartbeat_answer w n k l s q).1 (λ same. ground arith))
  ]
