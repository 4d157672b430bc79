-- ===== src/Lfd/Stopped.antt =====
-- What a call of `stop` makes of the heartbeat loop: the round in which it comes is the last one.
use fall2026_18749_project.Prelude.{ℕ, ◌≡◌, refl, ◌⊎◌, true, false, List, [], ◌∷◌, ◌++◌, arith}
use fall2026_18749_project.Result.{Result, ok, err}
use fall2026_18749_project.Lfd.{
  Lfd, Answers, Ending, waits, stops, raises, mark_healthy, heartbeat_once, fail_round,
  after_heartbeat, round, close_run, goes_on, run, drop_connection, end_of,
}
use fall2026_18749_project.Lfd.Rounds.{exchange-Quiet}

-- No failure has been reported.
abbrev NoFailure : Lfd → Lfd → Type 0
NoFailure s t = (t.reports ≡ s.reports) ⊎ (t.reports ≡ s.reports ++ true ∷ [])

once-NoFailure : (a : Answers) (s : Lfd) → NoFailure s (heartbeat_once a s).1
unfolding heartbeat_once mark_healthy
once-NoFailure a s = ground (arith, exchange-Quiet a s)

-- The end of the last round.
record IsLast (s : Lfd) (e : Ending) (t : Lfd) : Type 0 where
  ends : goes_on e ≡ false
  no_failure : NoFailure s t

after-IsLast :
    (f : ℕ → ℕ → ℕ) (a : Answers) (n : ℕ) (r : Result (Unit {0})) (s t : Lfd)
    → a.stopped ≡ true
    → a.stopped_waiting ≡ true
    → NoFailure s t
    → IsLast s (after_heartbeat f a n (r, t)).0 (after_heartbeat f a n (r, t)).1
unfolding after_heartbeat end_of fail_round drop_connection goes_on
after-IsLast f a n (ok u) s t h g q = ground arith
after-IsLast f a n (err e) s t h g q = ground arith

round-IsLast :
    (f : ℕ → ℕ → ℕ) (a : Answers) (s : Lfd)
    → a.stopped ≡ true
    → a.stopped_waiting ≡ true
    → IsLast s (round f a s).0 (round f a s).1
unfolding round
round-IsLast f a s h g =
    after-IsLast f a s.heartbeat_count (heartbeat_once a s).0 s (heartbeat_once a s).1 h g
      (once-NoFailure a s)

closed_at_end :
    (e : Ending) (s : Lfd)
    → goes_on e ≡ false
    → ((close_run e s).connected ≡ false) × ((close_run e s).reports ≡ s.reports)
unfolding goes_on close_run drop_connection
closed_at_end (waits d) s h = cc
closed_at_end stops s h = (refl, refl)
closed_at_end (raises e) s h = (refl, refl)

-- If `stop` is called while a round of the heartbeat loop is running, so that the stop event is set
-- when the round fails and when it ends, then this round is the last one, whatever the network
-- answers; the connection is dropped, and no failure is reported: the calls of `on_health_change`
-- are the ones of before, or these and one that says that the replica is healthy.
pub stop_ends_run :
    (f : ℕ → ℕ → ℕ) (a : Answers) (rest : List Answers) (s : Lfd)
    → a.stopped ≡ true
    → a.stopped_waiting ≡ true
    → (run f (a ∷ rest) s ≡ run f (a ∷ []) s)
      × ((run f (a ∷ rest) s).connected ≡ false)
      × NoFailure s (run f (a ∷ rest) s)
unfolding run
stop_ends_run f a rest s h g =
    let last = round-IsLast f a s h g in
    let at_end = closed_at_end (round f a s).0 (round f a s).1 last.ends in
    ground (arith, last.ends, last.no_failure, at_end.0, at_end.1)
