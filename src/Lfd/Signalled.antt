-- ===== src/Lfd/Signalled.antt =====
-- The task of `LfdApp.run`, src/ft_system/lfd/app.py, up to the `stop` that a signal causes, and how
-- it ends.
use fall2026_18749_project.Prelude.{
  ℕ, ◌≡◌, refl, true, false, List, [], ◌∷◌, arith, Bool-cases, inl, inr,
}
use fall2026_18749_project.Result.{Exn, Result, ok, err}
use fall2026_18749_project.Lfd.{
  Lfd, Answers, Ending, waits, stops, raises, heartbeat_once, after_heartbeat, round, goes_on, run,
  is_caught, end_of, fail_round, close_run, drop_connection,
}

-- The stop event is not set while the round runs.
abbrev pub unstopped : Answers → Answers
unstopped a = record a { stopped = false; stopped_waiting = false }

-- It is set in the wait that ends the round, or was set before.
abbrev pub stopped_in : Answers → Answers
stopped_in a = record a { stopped_waiting = true }

-- The rounds before `stop` is called, and the one in which it is.
unfoldable pub until_stop : List Answers → Answers → List Answers
until_stop [] last = stopped_in last ∷ []
until_stop (a ∷ rounds) last = unstopped a ∷ until_stop rounds last

unfoldable pub result_of : Ending → Result (Unit {0}) → Result (Unit {0})
result_of (waits delay) later = later
result_of stops later = ok tt
result_of (raises e) later = err e

-- What `await task` answers.
unfoldable pub task_result : (ℕ → ℕ → ℕ) → List Answers → Lfd → Result (Unit {0})
unfolding result_of
task_result f [] s = ok tt
task_result f (a ∷ rest) s =
    let (ending, t) = round f a s in let later = task_result f rest t in result_of ending later

after-is_caught :
    (f : ℕ → ℕ → ℕ) (a : Answers) (n : ℕ) (r : Result (Unit {0})) (s : Lfd) (e : Exn)
    → (after_heartbeat f a n (r, s)).0 ≡ raises e
    → is_caught e ≡ false
unfolding after_heartbeat end_of fail_round
after-is_caught f a n (ok u) s e h = ground arith
after-is_caught f a n (err x) s e h = ground arith

result_of-is_caught :
    (x : Ending) (later : Result (Unit {0}))
    → ((e : Exn) → x ≡ raises e → is_caught e ≡ false)
    → ((e : Exn) → later ≡ err e → is_caught e ≡ false)
    → (e : Exn) → result_of x later ≡ err e
    → is_caught e ≡ false
unfolding result_of
result_of-is_caught (waits d) later here there e h = there e h
result_of-is_caught stops later here there e h = cc
result_of-is_caught (raises x) later here there e h = here e (cc)

-- The task raises only what the loop does not catch.
pub task_result-is_caught :
    (f : ℕ → ℕ → ℕ) (answers : List Answers) (s : Lfd) (e : Exn)
    → task_result f answers s ≡ err e
    → is_caught e ≡ false
unfolding task_result round
task_result-is_caught f [] s e h = cc
task_result-is_caught f (a ∷ rest) s e h =
    result_of-is_caught (round f a s).0 (task_result f rest (round f a s).1)
      (after-is_caught f a s.heartbeat_count (heartbeat_once a s).0 (heartbeat_once a s).1)
      (task_result-is_caught f rest (round f a s).1) e h

ended-connected : (x : Ending) (s : Lfd) → goes_on x ≡ false → (close_run x s).connected ≡ false
unfolding goes_on close_run drop_connection
ended-connected (waits d) s h = cc
ended-connected stops s h = refl
ended-connected (raises e) s h = refl

after-stopped :
    (f : ℕ → ℕ → ℕ) (a : Answers) (n : ℕ) (r : Result (Unit {0})) (s : Lfd)
    → a.stopped_waiting ≡ true
    → goes_on (after_heartbeat f a n (r, s)).0 ≡ false
unfolding after_heartbeat end_of fail_round goes_on
after-stopped f a n (ok u) s h = ground arith
after-stopped f a n (err e) s h = ground arith

pub run-until_stop :
    (f : ℕ → ℕ → ℕ) (rounds : List Answers) (last : Answers) (s : Lfd)
    → (run f (until_stop rounds last) s).connected ≡ false
unfolding run round until_stop
run-until_stop f [] last s =
    let now = stopped_in last in
    let once = heartbeat_once now s in
    let ends : goes_on (round f now s).0 ≡ false =
      after-stopped f now s.heartbeat_count once.0 once.1 refl in
    rw ends (ended-connected (round f now s).0 (round f now s).1 ends)
run-until_stop f (a ∷ rounds) last s =
    let now = unstopped a in
    let t = (round f now s).1 in
    let x = (round f now s).0 in
    elim (Bool-cases (goes_on x)) [
      | inl on ↦ rw on (run-until_stop f rounds last t)
      | inr off ↦ rw off (ended-connected x t off)
    ]
