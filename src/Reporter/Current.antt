-- ===== src/Reporter/Current.antt =====
-- The last report of a connection, and the health that the detector holds.
use fall2026_18749_project.Prelude.{
  ◌≡◌, refl, ◌∙◌, Bool, true, false, not, ◌&&◌, Option, none, some, List, [], ◌∷◌, ◌++◌, Bool-cases,
  inl, inr, if◌then◌else◌,
}
use fall2026_18749_project.Value.{Value, Fields, str}
use fall2026_18749_project.Result.{Exn, Result, ok, err, Result-cases}
use fall2026_18749_project.Protocol.Build.{build_membership, build_heartbeat_ack}
use fall2026_18749_project.Logger.{server_heartbeat_received}
use fall2026_18749_project.Client.{is_caught}
use fall2026_18749_project.Reporter.{
  Session, closed, registering, running, stopped, Reporter, same_health, set_health, fail, after,
  hand_report, begin_session, report_change, check_heartbeat, answer, Event, health, connected,
  registered, reported, answered, woken, arrived, connect, register_written, report_written,
  answer_written, receive, step_closed, step_registering, step_running, step_in, step, run,
}
use fall2026_18749_project.Reporter.Reports.{
  last_report, last_report-append, build_membership-report_of, build_heartbeat_ack-report_of,
}

abbrev pub is_open : Session → Bool
is_open closed = false
is_open stopped = false
is_open registering = true
is_open running = true

-- There is no connection, or a change is still to be reported, or the last report is the health.
pub data IsCurrent (s : Reporter) : Type 0 where
  no_session : is_open s.session ≡ false → IsCurrent s
  to_report : s.changed ≡ true → IsCurrent s
  has_reported : last_report s.outbox ≡ some s.healthy → IsCurrent s

fail-IsCurrent : (e : Exn) (s : Reporter) → IsCurrent (fail e s)
unfolding fail
fail-IsCurrent e s = elim (Bool-cases (is_caught e)) [
  | inl h ↦ rw h (no_session refl)
  | inr h ↦ rw h (no_session refl)
]

after-IsCurrent :
    (x : Result (Unit {0}) × Reporter) → (x.0 ≡ ok tt → IsCurrent x.1) → IsCurrent (after x)
unfolding after
after-IsCurrent (ok u, s) h = h refl
after-IsCurrent (err e, s) h = fail-IsCurrent e s

set_health-IsCurrent : (h : Bool) (s : Reporter) → IsCurrent s → IsCurrent (set_health h s)
unfolding set_health
set_health-IsCurrent h s c = elim (Bool-cases (same_health s.healthy h)) [
  | inl g ↦ rw g c
  | inr g ↦ rw g (to_report refl)
]

-- A report that is handed over holds the health at this time.
hand_report-reported :
    (b : Bool) (s : Reporter)
    → (hand_report b s).0 ≡ ok tt
    → last_report (hand_report b s).1.outbox ≡ some (hand_report b s).1.healthy
unfolding hand_report
hand_report-reported b s h =
    elim (Result-cases (build_membership s.lfd_id s.replica_id s.healthy b)) [
      | inl (m, e) ↦
          let is = build_membership-report_of s.lfd_id s.replica_id s.healthy b m e in
          rw e (last_report-append s.outbox m ∙ rw is refl)
      | inr (x, e) ↦ absurd (let h = rw e at h in cc)
    ]

begin_session-IsCurrent :
    (s : Reporter) → (begin_session s).0 ≡ ok tt → IsCurrent (begin_session s).1
unfolding begin_session
begin_session-IsCurrent s h =
    let t = record s { changed = false; outbox = [] } in
    elim (Result-cases (hand_report true t).0) [
      | inl (u, e) ↦ rw e (has_reported (hand_report-reported true t e))
      | inr (x, e) ↦ absurd (let h = rw e at h in cc)
    ]

report_change-IsCurrent :
    (s : Reporter) → (report_change s).0 ≡ ok tt → IsCurrent (report_change s).1
unfolding report_change
report_change-IsCurrent s h =
    let t = record s { changed = false } in
    elim (Result-cases (hand_report false t).0) [
      | inl (u, e) ↦ rw e (has_reported (hand_report-reported false t e))
      | inr (x, e) ↦ absurd (let h = rw e at h in cc)
    ]

-- What does not touch the health, the event and the reports.
module _ (s t : Reporter) (session : t.session ≡ s.session) (changed : t.changed ≡ s.changed)
    (healthy : t.healthy ≡ s.healthy) (reports : last_report t.outbox ≡ last_report s.outbox) where
  kept-IsCurrent : IsCurrent s → IsCurrent t
  kept-IsCurrent (no_session h) = no_session (rw session h)
  kept-IsCurrent (to_report h) = to_report (changed ∙ h)
  kept-IsCurrent (has_reported h) = has_reported (reports ∙ rw healthy h)

heard : Value → Reporter → Reporter
heard count s = record s {
  log = s.log ++ server_heartbeat_received s.lfd_id (str "GFD") count ∷ [];
}

answer-IsCurrent : (m : Fields) (s : Reporter) → IsCurrent s → IsCurrent (after (answer m s))
unfolding answer after heard
answer-IsCurrent m s c = elim (Result-cases (check_heartbeat s.lfd_id m)) [
  | inl (count, e) ↦ elim (Result-cases (build_heartbeat_ack m)) [
    | inl (a, g) ↦
        let none_of = build_heartbeat_ack-report_of m a g in
        rw (e, g)
          (kept-IsCurrent s _ refl refl refl (last_report-append s.outbox a ∙ rw none_of refl) c)
    | inr (x, g) ↦ rw (e, g) (fail-IsCurrent x (heard count s))
  ]
  | inr (x, e) ↦ rw e (fail-IsCurrent x s)
]

receive-IsCurrent :
    (o : Option Value) (r : Result Fields) (s : Reporter) → IsCurrent s → IsCurrent (receive o r s)
unfolding receive
receive-IsCurrent none (ok m) s c = answer-IsCurrent m s c
receive-IsCurrent none (err e) s c = fail-IsCurrent e s
receive-IsCurrent (some count) r s c = c

connect-IsCurrent : (r : Result (Unit {0})) (s : Reporter) → IsCurrent (connect r s)
unfolding connect
connect-IsCurrent (ok u) s = after-IsCurrent (begin_session s) (begin_session-IsCurrent s)
connect-IsCurrent (err e) s = fail-IsCurrent e s

register_written-IsCurrent :
    (r : Result (Unit {0})) (s : Reporter)
    → s.session ≡ registering
    → IsCurrent s
    → IsCurrent (register_written r s)
unfolding register_written
register_written-IsCurrent (ok u) s open_now (no_session h) =
    absurd (let h = rw open_now at h in cc)
register_written-IsCurrent (ok u) s open_now (to_report h) = to_report h
register_written-IsCurrent (ok u) s open_now (has_reported h) = has_reported h
register_written-IsCurrent (err e) s open_now c = fail-IsCurrent e s

report_written-IsCurrent :
    (r : Result (Unit {0})) (s : Reporter) → IsCurrent s → IsCurrent (report_written r s)
unfolding report_written
report_written-IsCurrent (ok u) s c = kept-IsCurrent s _ refl refl refl refl c
report_written-IsCurrent (err e) s c = fail-IsCurrent e s

answer_written-IsCurrent :
    (o : Option Value) (r : Result (Unit {0})) (s : Reporter)
    → IsCurrent s
    → IsCurrent (answer_written o r s)
unfolding answer_written
answer_written-IsCurrent none r s c = c
answer_written-IsCurrent (some count) (ok u) s c = kept-IsCurrent s _ refl refl refl refl c
answer_written-IsCurrent (some count) (err e) s c = fail-IsCurrent e s

step_closed-IsCurrent : (e : Event) (s : Reporter) → IsCurrent s → IsCurrent (step_closed e s)
unfolding step_closed
step_closed-IsCurrent (connected r) s c = connect-IsCurrent r s
step_closed-IsCurrent _ s c = c

step_registering-IsCurrent :
    (e : Event) (s : Reporter)
    → s.session ≡ registering
    → IsCurrent s
    → IsCurrent (step_registering e s)
unfolding step_registering
step_registering-IsCurrent (registered r) s open_now c = register_written-IsCurrent r s open_now c
step_registering-IsCurrent _ s open_now c = c

if-IsCurrent :
    (b : Bool) (s t : Reporter) → IsCurrent s → IsCurrent t → IsCurrent (if b then t else s)
if-IsCurrent true s t c d = d
if-IsCurrent false s t c d = c

step_running-IsCurrent : (e : Event) (s : Reporter) → IsCurrent s → IsCurrent (step_running e s)
unfolding step_running
step_running-IsCurrent woken s c =
    if-IsCurrent (s.changed && not s.reporting) s _ c
      (after-IsCurrent (report_change s) (report_change-IsCurrent s))
step_running-IsCurrent (reported r) s c =
    if-IsCurrent s.reporting s _ c (report_written-IsCurrent r s c)
step_running-IsCurrent (answered r) s c = answer_written-IsCurrent s.answering r s c
step_running-IsCurrent (arrived r) s c = receive-IsCurrent s.answering r s c
step_running-IsCurrent (health h) s c = c
step_running-IsCurrent (connected r) s c = c
step_running-IsCurrent (registered r) s c = c

step_in-IsCurrent :
    (x : Session) (e : Event) (s : Reporter)
    → s.session ≡ x
    → IsCurrent s
    → IsCurrent (step_in x e s)
unfolding step_in
step_in-IsCurrent closed e s h c = step_closed-IsCurrent e s c
step_in-IsCurrent registering e s h c = step_registering-IsCurrent e s h c
step_in-IsCurrent running e s h c = step_running-IsCurrent e s c
step_in-IsCurrent stopped e s h c = c

step-IsCurrent : (e : Event) (s : Reporter) → IsCurrent s → IsCurrent (step e s)
unfolding step
step-IsCurrent (health h) s c = set_health-IsCurrent h s c
step-IsCurrent (connected r) s c = step_in-IsCurrent s.session (connected r) s refl c
step-IsCurrent (registered r) s c = step_in-IsCurrent s.session (registered r) s refl c
step-IsCurrent (reported r) s c = step_in-IsCurrent s.session (reported r) s refl c
step-IsCurrent (answered r) s c = step_in-IsCurrent s.session (answered r) s refl c
step-IsCurrent woken s c = step_in-IsCurrent s.session woken s refl c
step-IsCurrent (arrived r) s c = step_in-IsCurrent s.session (arrived r) s refl c

-- Along every run of a detector's reporter, whatever the network does and whenever the health
-- changes: there is no connection, or a change is still to be reported, or the last report handed
-- over on the connection is the health of the replica - if this is so at the start.
pub run-IsCurrent : (es : List Event) (s : Reporter) → IsCurrent s → IsCurrent (run es s)
unfolding run
run-IsCurrent [] s c = c
run-IsCurrent (e ∷ es) s c = run-IsCurrent es (step e s) (step-IsCurrent e s c)
