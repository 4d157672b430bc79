-- ===== src/Detection/Watched.antt =====
-- From the heartbeats of a detector to the membership at the GFD: `run` of src/ft_system/lfd/main.py
-- gives `set_health` of the reporter to the heartbeat loop as its `on_health_change`.
use fall2026_18749_project.Prelude.{
  ℕ, String, ◌≡◌, refl, ◌∙◌, Bool, true, false, some, List, [], ◌∷◌, arith, Option, none, Table,
  find,
}
use fall2026_18749_project.Text.{is_blank}
use fall2026_18749_project.Value.{Fields, Value}
use fall2026_18749_project.Result.{Exn, Result, ok, err, after_bind}
use fall2026_18749_project.Backoff
use fall2026_18749_project.Gfd.System.{System}
use fall2026_18749_project.Gfd.Members.{has}
use fall2026_18749_project.Reporter.{
  Reporter, Session, closed, registering, running, stopped, Event, health, connected, registered,
  reported, answered, woken, arrived, make, step, run, set_health, fail, after, hand_report,
  begin_session, report_change, answer, connect, register_written, report_written, answer_written,
  receive, step_closed, step_registering, step_running, step_in,
}
use fall2026_18749_project.Reporter.Current.{is_open}
use fall2026_18749_project.Lfd
use fall2026_18749_project.Lfd.{Lfd, Answers}
use fall2026_18749_project.Lfd.Health.{walk, Told, reports_follow_health}
use fall2026_18749_project.Detection.{Reads}
use fall2026_18749_project.Detection.Stretches.{is_registered}
use fall2026_18749_project.Detection.Followed.{member_follows_health}

-- The calls of `set_health` among the stretches of a reporter.
abbrev pub healths : List Event → List Bool
healths [] = []
healths (health h ∷ es) = h ∷ healths es
healths (connected r ∷ es) = healths es
healths (registered r ∷ es) = healths es
healths (reported r ∷ es) = healths es
healths (answered r ∷ es) = healths es
healths (woken ∷ es) = healths es
healths (arrived r ∷ es) = healths es

last_of : Bool → List Bool → Bool
last_of b [] = b
last_of b (x ∷ xs) = last_of x xs

walk-last_of : (b : Bool) (xs : List Bool) (h : Bool) → walk b xs ≡ some h → last_of b xs ≡ h
unfolding walk last_of
walk-last_of false [] h e = cc
walk-last_of true [] h e = cc
walk-last_of false (true ∷ xs) h e = walk-last_of true xs h e
walk-last_of true (false ∷ xs) h e = walk-last_of false xs h e
walk-last_of false (false ∷ xs) h e = cc
walk-last_of true (true ∷ xs) h e = cc

fail-healthy : (e : Exn) (s : Reporter) → (fail e s).healthy ≡ s.healthy
unfolding fail
fail-healthy e s = ground arith

after-healthy : (x : Result (Unit {0}) × Reporter) → (after x).healthy ≡ x.1.healthy
unfolding after
after-healthy (ok u, s) = refl
after-healthy (err e, s) = fail-healthy e s

hand_report-healthy : (b : Bool) (s : Reporter) → (hand_report b s).1.healthy ≡ s.healthy
unfolding hand_report
hand_report-healthy b s = ground arith

connect-healthy : (r : Result (Unit {0})) (s : Reporter) → (connect r s).healthy ≡ s.healthy
unfolding connect begin_session
connect-healthy (ok u) s =
    after-healthy (begin_session s)
    ∙ ground (arith, hand_report-healthy true (record s { changed = false; outbox = [] }))
connect-healthy (err e) s = fail-healthy e s

wake-healthy : (s : Reporter) → (after (report_change s)).healthy ≡ s.healthy
unfolding report_change
wake-healthy s =
    after-healthy (report_change s)
    ∙ ground (arith, hand_report-healthy false (record s { changed = false }))

answer-healthy : (m : Fields) (s : Reporter) → (after (answer m s)).healthy ≡ s.healthy
unfolding answer
answer-healthy m s = after-healthy (answer m s) ∙ ground arith

receive-healthy :
    (o : Option Value) (r : Result Fields) (s : Reporter) → (receive o r s).healthy ≡ s.healthy
unfolding receive
receive-healthy none (ok m) s = answer-healthy m s
receive-healthy none (err e) s = fail-healthy e s
receive-healthy (some v) r s = refl

-- What the reporter does on its own leaves the health alone.
step_closed-healthy : (e : Event) (s : Reporter) → (step_closed e s).healthy ≡ s.healthy
unfolding step_closed
step_closed-healthy (connected r) s = connect-healthy r s
step_closed-healthy _ s = refl

register_written-healthy :
    (r : Result (Unit {0})) (s : Reporter) → (register_written r s).healthy ≡ s.healthy
unfolding register_written
register_written-healthy (ok u) s = refl
register_written-healthy (err e) s = fail-healthy e s

step_registering-healthy : (e : Event) (s : Reporter) → (step_registering e s).healthy ≡ s.healthy
unfolding step_registering
step_registering-healthy (registered r) s = register_written-healthy r s
step_registering-healthy _ s = refl

report_written-healthy :
    (r : Result (Unit {0})) (s : Reporter) → (report_written r s).healthy ≡ s.healthy
unfolding report_written
report_written-healthy (ok u) s = refl
report_written-healthy (err e) s = fail-healthy e s

answer_written-healthy :
    (o : Option Value) (r : Result (Unit {0})) (s : Reporter)
    → (answer_written o r s).healthy ≡ s.healthy
unfolding answer_written
answer_written-healthy none r s = refl
answer_written-healthy (some v) (ok u) s = refl
answer_written-healthy (some v) (err e) s = fail-healthy e s

step_running-healthy : (e : Event) (s : Reporter) → (step_running e s).healthy ≡ s.healthy
unfolding step_running
step_running-healthy woken s = ground (arith, wake-healthy s)
step_running-healthy (reported r) s = ground (arith, report_written-healthy r s)
step_running-healthy (answered r) s = answer_written-healthy s.answering r s
step_running-healthy (arrived r) s = receive-healthy s.answering r s
step_running-healthy (health h) s = refl
step_running-healthy (connected r) s = refl
step_running-healthy (registered r) s = refl

step_in-healthy : (x : Session) (e : Event) (s : Reporter) → (step_in x e s).healthy ≡ s.healthy
unfolding step_in
step_in-healthy closed e s = step_closed-healthy e s
step_in-healthy registering e s = step_registering-healthy e s
step_in-healthy running e s = step_running-healthy e s
step_in-healthy stopped e s = refl

set_health_lem : (h : Bool) (s : Reporter) → (set_health h s).healthy ≡ h
unfolding set_health
set_health_lem h s = ground arith

-- The reporter holds what `set_health` was called with last.
run-last_of : (es : List Event) (s : Reporter) → (run es s).healthy ≡ last_of s.healthy (healths es)
unfolding run step last_of
run-last_of [] s = refl
run-last_of (health h ∷ es) s = run-last_of es (set_health h s) ∙ rw (set_health_lem h s) refl
run-last_of (connected r ∷ es) s =
    run-last_of es (step (connected r) s) ∙ rw (step_in-healthy s.session (connected r) s) refl
run-last_of (registered r ∷ es) s =
    run-last_of es (step (registered r) s) ∙ rw (step_in-healthy s.session (registered r) s) refl
run-last_of (reported r ∷ es) s =
    run-last_of es (step (reported r) s) ∙ rw (step_in-healthy s.session (reported r) s) refl
run-last_of (answered r ∷ es) s =
    run-last_of es (step (answered r) s) ∙ rw (step_in-healthy s.session (answered r) s) refl
run-last_of (woken ∷ es) s =
    run-last_of es (step woken s) ∙ rw (step_in-healthy s.session woken s) refl
run-last_of (arrived r ∷ es) s =
    run-last_of es (step (arrived r) s) ∙ rw (step_in-healthy s.session (arrived r) s) refl

make-Told :
    (l r : String) (initial maximum : ℕ) (d : Lfd)
    → Lfd.make l r initial maximum true ≡ ok d
    → Told d
unfolding Lfd.make walk
make-Told l r initial maximum d h =
    after_bind (Backoff.make initial maximum) _ h λ b e h. ground arith

module _ (l r : String) (initial maximum : ℕ) (d : Lfd)
    (made : Lfd.make l r initial maximum true ≡ ok d) (f : ℕ → ℕ → ℕ) (rounds : List Answers)
    (es : List Event) (told : healths es ≡ (Lfd.run f rounds d).reports) where
  reporter_follows : (run es (make l r)).healthy ≡ (Lfd.run f rounds d).healthy
  unfolding make
  reporter_follows =
      let follows = reports_follow_health f rounds d (make-Told l r initial maximum d made) in
      run-last_of es (make l r) ∙ rw told (walk-last_of false _ _ follows)

  -- A new detector with a callback has run its heartbeat loop along any rounds, whatever the
  -- network answers; its reporter has run from its start along any sequence of stretches in which
  -- the calls of `set_health` are the calls of `on_health_change` of that loop, in their order, and
  -- has an open connection and no change left to report; the GFD has run from its start along any
  -- interleaving of connections, and the handler of one of them has read exactly the messages that
  -- the reporter has handed over, each a registration, a report or an answer of this detector, with
  -- failed reads and deadlines at any time, and holds a registration; on the other connections
  -- anything may have happened. Then the replica is a member at the GFD exactly if the detector
  -- holds it healthy - if the GFD's table gives this detector this replica and gives the replica to
  -- no other detector, and no name in it is blank.
  pub membership_follows_heartbeats :
      (t : Table String) (names : (k j : String) → find t k ≡ some j → is_blank k ≡ false)
      → find t l ≡ some r
      → ((k : String) → find t k ≡ some r → k ≡ l)
      → (w : ℕ) (s : System) → is_open (run es (make l r)).session ≡ true
      → (run es (make l r)).changed ≡ false
      → Reads t w l r (run es (make l r)).outbox s
      → is_registered (s.phase w) ≡ true
      → has s.gfd.members r ≡ (Lfd.run f rounds d).healthy
  membership_follows_heartbeats t names known only w s open_now still q entered =
      member_follows_health t names w l r known only es s open_now still q entered
      ∙ reporter_follows
