-- ===== src/Lfd/Health.antt =====
-- The health of the replica and the reports of it, over the rounds of the heartbeat loop.
use fall2026_18749_project.Prelude.{
  ℕ, ◌≡◌, Bool, true, false, not, Option, none, some, List, [], ◌∷◌, ◌++◌, arith,
}
use fall2026_18749_project.Result.{Exn, Result, ok, err}
use fall2026_18749_project.Lfd.{
  Lfd, Answers, Ending, waits, stops, raises, exchange, mark_healthy, mark_failed, heartbeat_once,
  fail_round, after_heartbeat, round, close_run, run, drop_connection, write_line,
}
use fall2026_18749_project.Lfd.Rounds.{Quiet, exchange-Quiet}

-- The last of `reports`, when each of them differs from the one before it, the first from `b`.
unfoldable pub walk : Bool → List Bool → Option Bool
walk false [] = some false
walk true [] = some true
walk false (true ∷ xs) = walk true xs
walk true (false ∷ xs) = walk false xs
walk _ _ = none

walk-append :
    (b : Bool) (xs : List Bool) (h : Bool)
    → walk b xs ≡ some h
    → walk b (xs ++ not h ∷ []) ≡ some (not h)
unfolding walk
walk-append false [] h e = ground arith
walk-append true [] h e = ground arith
walk-append false (true ∷ xs) h e = walk-append true xs h e
walk-append true (false ∷ xs) h e = walk-append false xs h e
walk-append false (false ∷ xs) h e = ground arith
walk-append true (true ∷ xs) h e = ground arith

-- The callback has been told of every change of health, once, the first time when the replica
-- became healthy; the detector knows that it has been healthy.
pub record Told (s : Lfd) : Type 0 where
  pub informed : s.has_callback ≡ true
  pub reports : walk false s.reports ≡ some s.healthy
  pub ever : s.healthy ≡ true → s.ever_healthy ≡ true

Quiet-Told : (s t : Lfd) → Told s → Quiet s t → Told t
Quiet-Told s t told q = ground arith

mark_healthy-Told : (s : Lfd) → Told s → Told (mark_healthy s).1
unfolding mark_healthy
mark_healthy-Told s told = ground (arith, walk-append false s.reports s.healthy told.reports)

mark_failed-Told : (s : Lfd) → Told s → Told (mark_failed s).1
unfolding mark_failed
mark_failed-Told s told = ground (arith, walk-append false s.reports s.healthy told.reports)

heartbeat_once-Told : (a : Answers) (s : Lfd) → Told s → Told (heartbeat_once a s).1
unfolding heartbeat_once
heartbeat_once-Told a s told = ground (
  arith,
  Quiet-Told s (exchange a s).1 told (exchange-Quiet a s),
  mark_healthy-Told (exchange a s).1,
)

fail_round-Told :
    (f : ℕ → ℕ → ℕ) (a : Answers) (n : ℕ) (e : Exn) (s : Lfd)
    → Told s
    → Told (fail_round f a n e s).1
unfolding fail_round drop_connection write_line mark_failed
fail_round-Told f a n e s told = ground (arith, walk-append false s.reports s.healthy told.reports)

after-Told :
    (f : ℕ → ℕ → ℕ) (a : Answers) (n : ℕ) (r : Result (Unit {0})) (s : Lfd)
    → Told s
    → Told (after_heartbeat f a n (r, s)).1
unfolding after_heartbeat drop_connection
after-Told f a n (ok u) s told = told
after-Told f a n (err e) s told = ground (arith, fail_round-Told f a n e s told)

pub round-Told : (f : ℕ → ℕ → ℕ) (a : Answers) (s : Lfd) → Told s → Told (round f a s).1
unfolding round
round-Told f a s told =
    after-Told f a s.heartbeat_count (heartbeat_once a s).0 (heartbeat_once a s).1
      (heartbeat_once-Told a s told)

close-Told : (e : Ending) (s : Lfd) → Told s → Told (close_run e s)
unfolding close_run drop_connection
close-Told (waits d) s told = told
close-Told stops s told = ground arith
close-Told (raises e) s told = ground arith

run-Told : (f : ℕ → ℕ → ℕ) (rest : List Answers) (s : Lfd) → Told s → Told (run f rest s)
unfolding run
run-Told f [] s told = told
run-Told f (a ∷ rest) s told = ground (
  arith,
  round-Told f a s told,
  run-Told f rest (round f a s).1 (round-Told f a s told),
  close-Told (round f a s).0 (round f a s).1 (round-Told f a s told),
)

-- Along every run of the heartbeat loop, whatever the network answers, the calls of
-- `on_health_change` alternate, the first one reports that the replica is healthy, and the last one
-- reports the health that the detector holds, if this is so at the start, a callback was given, and
-- a detector that starts healthy also notes that its replica has been healthy.
pub reports_follow_health :
    (f : ℕ → ℕ → ℕ) (rounds : List Answers) (s : Lfd)
    → Told s
    → walk false (run f rounds s).reports ≡ some (run f rounds s).healthy
reports_follow_health f rounds s told = (run-Told f rounds s told).reports
