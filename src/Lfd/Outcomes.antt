-- ===== src/Lfd/Outcomes.antt =====
-- What one round of the heartbeat loop leaves, after an answer and after a failure.
use fall2026_18749_project.Prelude.{ℕ, ◌+◌, ◌≡◌, true, false, none, some, arith}
use fall2026_18749_project.Result.{Exn, Result, ok, err}
use fall2026_18749_project.Backoff
use fall2026_18749_project.Lfd.{
  Lfd, Answers, Ending, exchange, mark_healthy, mark_failed, heartbeat_once, fail_round,
  after_heartbeat, round, end_of, is_caught,
}
use fall2026_18749_project.Lfd.Rounds.{Quiet, exchange-Quiet}

-- The round has ended with a valid answer.
pub record Answered (a : Answers) (e : Ending) (t : Lfd) : Type 0 where
  pub healthy : t.healthy ≡ true
  pub ever_healthy : t.ever_healthy ≡ true
  pub attempt : t.backoff.attempt ≡ 0
  pub ending : e ≡ end_of a none

-- The round has failed from the state `s`, and `stop` was not called before.
pub record Failed (f : ℕ → ℕ → ℕ) (a : Answers) (s : Lfd) (e : Ending) (t : Lfd) : Type 0 where
  pub healthy : t.healthy ≡ false
  pub connected : t.connected ≡ false
  pub attempt : t.backoff.attempt ≡ s.backoff.attempt + 1
  pub ending : e ≡ end_of a (some (Backoff.next_delay f s.backoff).0)

mark_healthy_ok : (a : Answers) (s : Lfd) → Answered a (end_of a none) (mark_healthy s).1
unfolding mark_healthy Backoff.reset
mark_healthy_ok a s = ground arith

once_ok :
    (a : Answers) (s : Lfd) (u : Unit {0})
    → (heartbeat_once a s).0 ≡ ok u
    → Answered a (end_of a none) (heartbeat_once a s).1
unfolding heartbeat_once
once_ok a s u h = ground (arith, mark_healthy_ok a (exchange a s).1)

once_err :
    (a : Answers) (s : Lfd) (e : Exn)
    → (heartbeat_once a s).0 ≡ err e
    → Quiet s (heartbeat_once a s).1
unfolding heartbeat_once mark_healthy
once_err a s e h = ground (arith, exchange-Quiet a s)

after_ok :
    (f : ℕ → ℕ → ℕ) (a : Answers) (n : ℕ) (r : Result (Unit {0})) (s : Lfd) (u : Unit {0})
    → r ≡ ok u
    → Answered a (end_of a none) s
    → Answered a (after_heartbeat f a n (r, s)).0 (after_heartbeat f a n (r, s)).1
unfolding after_heartbeat
after_ok f a n (ok u) s v e h = h
after_ok f a n (err x) s v e h = cc

-- A round whose heartbeat was acknowledged leaves the replica marked healthy and the backoff reset,
-- and waits for the regular time.
round-Answered :
    (f : ℕ → ℕ → ℕ) (a : Answers) (s : Lfd) (u : Unit {0})
    → (heartbeat_once a s).0 ≡ ok u
    → Answered a (round f a s).0 (round f a s).1
unfolding round
round-Answered f a s u h =
    after_ok f a s.heartbeat_count (heartbeat_once a s).0 (heartbeat_once a s).1 u h
      (once_ok a s u h)

fail_round_lem :
    (f : ℕ → ℕ → ℕ) (a : Answers) (n : ℕ) (e : Exn) (s : Lfd)
    → a.stopped ≡ false
    → Failed f a s (fail_round f a n e s).0 (fail_round f a n e s).1
unfolding fail_round mark_failed Backoff.next_delay
fail_round_lem f a n e s h = ground arith

after_err :
    (f : ℕ → ℕ → ℕ) (a : Answers) (n : ℕ) (r : Result (Unit {0})) (s : Lfd) (e : Exn)
    → r ≡ err e
    → is_caught e ≡ true
    → a.stopped ≡ false
    → Failed f a s (after_heartbeat f a n (r, s)).0 (after_heartbeat f a n (r, s)).1
unfolding after_heartbeat
after_err f a n (ok u) s e h c stopped = cc
after_err f a n (err x) s e h c stopped = ground (arith, fail_round_lem f a n x s stopped)

-- A round that fails with a caught exception, with no stop requested, leaves the replica marked
-- unhealthy, the connection dropped and the number of failed attempts one higher, and waits for the
-- delay of the backoff at its old count.
pub round-Failed :
    (f : ℕ → ℕ → ℕ) (a : Answers) (s : Lfd) (e : Exn)
    → (heartbeat_once a s).0 ≡ err e
    → is_caught e ≡ true
    → a.stopped ≡ false
    → Failed f a s (round f a s).0 (round f a s).1
unfolding round
round-Failed f a s e h caught stopped =
    let quiet = once_err a s e h in
    let failed =
      after_err f a s.heartbeat_count (heartbeat_once a s).0 (heartbeat_once a s).1 e h caught
        stopped in
    ground (arith, quiet, failed)
