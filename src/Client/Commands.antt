-- ===== src/Client/Commands.antt =====
-- The loops that call `send_increment`: `run_automatic` and `run_interactive` of
-- src/ft_system/client/app.py, and the loop with a count of src/ft_system/client/main.py. Each runs
-- over what the network does in each attempt; at the end of that list the loop is still running,
-- unless it has ended before. The pauses between the attempts are not modelled.
use fall2026_18749_project.Prelude.{
  ℕ, ◌+◌, ◌≤◌, ◌<◌, ltb→lt, String, ◌≡◌, refl, ap, subst, ◌∙◌, Bool, true, false, not, ◌&&◌, ◌||◌,
  ◌==◌, List, [], ◌∷◌, ◌++◌, ltb, arith, if◌then◌else◌, ◌⊎◌, inl, inr, Bool-cases,
}
use fall2026_18749_project.Value.{Float, Fields}
use fall2026_18749_project.Result.{Exn, Result, ok, err, value_error, guard, Result-cases}
use fall2026_18749_project.Exec.{Exec, pure, raise, lift, gets, modify, attempt, ◌>>=◌, ◌>>◌}
use fall2026_18749_project.Logger.{error, raised, unknown_command}
use fall2026_18749_project.Config.{is_positive}
use fall2026_18749_project.Client.{Client, Answers, is_caught, drop_connection, send_increment}
use fall2026_18749_project.Client.Sending.{send_increment_ok, send_increment_failed}

-- The `except` block: a caught exception is logged, and the loop goes on.
unfoldable pub report : Result Fields → Exec Client Bool
report (ok m) = pure true
report (err e) =
    if is_caught e
    then (do
      client_id ← gets (λ s. s.client_id)
      modify (λ s. record s { log = s.log ++ error client_id (raised e) ∷ [] })
      pure false)
    else raise e

-- One attempt: whether a reply was returned.
unfoldable pub try_increment : Answers → Exec Client Bool
unfolding report
try_increment a = do r ← attempt (send_increment a); report r

unfoldable pub automatic_loop : List Answers → Exec Client (Unit {0})
unfolding try_increment
automatic_loop [] = pure tt
automatic_loop (a ∷ rest) = do try_increment a; automatic_loop rest

-- `run_automatic`
unfoldable pub run_automatic : Float → List Answers → Exec Client (Unit {0})
unfolding automatic_loop
run_automatic interval attempts = do
  lift (
      guard (is_positive interval)
        (value_error "interval must be a finite positive number of seconds"))
  automatic_loop attempts

-- `run_interactive`, over the commands as `strip` and `lower` return them: it returns true when it
-- has been told to quit.
unfoldable pub run_interactive : List (String × Answers) → Exec Client Bool
unfolding try_increment
run_interactive [] = pure false
run_interactive ((command, a) ∷ rest) =
    if command == "quit" || command == "exit"
    then pure true
    else if not (command == "") && not (command == "increment")
    then (do
      client_id ← gets (λ s. s.client_id)
      modify (λ s. record s { log = s.log ++ error client_id (unknown_command command) ∷ [] })
      run_interactive rest)
    else (do try_increment a; run_interactive rest)

-- Where the loop with a count is when the attempts are used up: past its end, or still running,
-- with this many replies.
pub data LoopState : Type 0 where
  finished : LoopState
  running : (completed : ℕ) → LoopState

-- The loop with a count.
unfoldable pub run_count : ℕ → ℕ → List Answers → Exec Client LoopState
unfolding try_increment
run_count count completed [] = pure (if ltb completed count then running completed else finished)
run_count count completed (a ∷ rest) =
    if ltb completed count
    then (do
      replied ← try_increment a
      run_count count (if replied then completed + 1 else completed) rest)
    else pure finished

-- `client.close()`
unfoldable pub close : Client → Client
unfolding drop_connection
close s = (drop_connection s).1

-- The `finally` block: it closes the client unless the loop is still running.
unfoldable pub leave_loop : Result LoopState × Client → Result LoopState × Client
unfolding close
leave_loop (ok (running completed), s) = (ok (running completed), s)
leave_loop (ok finished, s) = (ok finished, close s)
leave_loop (err e, s) = (err e, close s)

-- From the `try` on, with a positive count.
unfoldable pub run_counted : ℕ → List Answers → Exec Client LoopState
unfolding leave_loop run_count
run_counted count attempts s = leave_loop (run_count count 0 attempts s)

report_number :
    (r : Result Fields) (s : Client) → (report r s).1.next_request_num ≡ s.next_request_num
unfolding report
report_number (ok m) s = refl
report_number (err e) s = ground arith

-- What an attempt that does not raise has returned.
report_returned :
    (r : Result Fields) (s : Client) (b : Bool)
    → (report r s).0 ≡ ok b
    → ((b ≡ true) × ((m : Fields) × (r ≡ ok m))) ⊎ ((b ≡ false) × ((e : Exn) × (r ≡ err e)))
unfolding report
report_returned (ok m) s true h = inl (refl, (m, refl))
report_returned (ok m) s false h = absurd (let h = h in cc)
report_returned (err e) s b h = elim (Bool-cases (is_caught e)) [
  | inl caught ↦ inr ((let h = rw caught at h in cc), (e, refl))
  | inr other ↦ absurd (let h = rw other at h in cc)
]

abbrev one_if : Bool → ℕ
one_if true = 1
one_if false = 0

add_zero : (n : ℕ) → n ≡ n + 0
add_zero n = omega arith

try_increment_number :
    (a : Answers) (s : Client) (b : Bool)
    → (try_increment a s).0 ≡ ok b
    → (try_increment a s).1.next_request_num ≡ s.next_request_num + one_if b
unfolding try_increment
try_increment_number a s b h =
    let r = send_increment a s in
    elim (report_returned r.0 r.1 b h) [
      | inl (is, (m, e)) ↦ rw is (report_number r.0 r.1 ∙ (send_increment_ok a s m e).number)
      | inr (is, (e, x)) ↦
          rw is
            (report_number r.0 r.1 ∙ send_increment_failed a s e x ∙ add_zero s.next_request_num)
    ]

-- How many replies the loop has got.
abbrev pub replies : ℕ → LoopState → ℕ
replies count finished = count
replies count (running completed) = completed

-- What the loop has done from the state `s`, with `completed` replies at its start.
pub record Counted (count completed : ℕ) (s : Client) (x : LoopState) (t : Client) : Type 0 where
  pub number : t.next_request_num + completed ≡ s.next_request_num + replies count x
  pub below : (k : ℕ) → x ≡ running k → k < count

within_after : (b : Bool) (n count : ℕ) → n < count → (if b then n + 1 else n) ≤ count
within_after true n count h = omega arith
within_after false n count h = omega arith

one_more :
    (b : Bool) (t u v n k : ℕ)
    → t + (if b then n + 1 else n) ≡ u + k
    → u ≡ v + one_if b
    → t + n ≡ v + k
one_more true t u v n k h g = omega arith
one_more false t u v n k h g = omega arith

at_end-Counted :
    (count completed : ℕ) (b : Bool) (s : Client)
    → ltb completed count ≡ b
    → completed ≤ count
    → Counted count completed s (if b then running completed else finished) s
at_end-Counted count completed true s h within = record {
  number = refl;
  below = λ k e.
      let same : completed ≡ k = ap (replies count) e in
      subst (λ (n : ℕ). n < count) same (ltb→lt completed count h);
}
at_end-Counted count completed false s h within = record {
  number = ground (arith, h, within);
  below = λ k e. cc;
}

run_count-Counted :
    (count completed : ℕ) (attempts : List Answers) (s : Client) (x : LoopState)
    → completed ≤ count
    → (run_count count completed attempts s).0 ≡ ok x
    → Counted count completed s x (run_count count completed attempts s).1
unfolding run_count
run_count-Counted count completed [] s x within h =
    let same : (if ltb completed count then running completed else finished) ≡ x = cc in
    subst (λ (y : LoopState). Counted count completed s y s) same
      (at_end-Counted count completed (ltb completed count) s refl within)
run_count-Counted count completed (a ∷ rest) s x within h =
    elim (Bool-cases (ltb completed count)) [
      | inl more ↦ elim (Result-cases (try_increment a s).0) [
        | inl (b, e) ↦
            let h = rw (more, e) at h in
            let c =
              run_count-Counted count (if b then completed + 1 else completed) rest
                (try_increment a s).1 x (within_after b completed count (ltb→lt _ _ more)) h in
            let one = try_increment_number a s b e in
            rw (more, e)
              (record {
                number = one_more b _ _ _ completed (replies count x) c.number one;
                below = c.below;
              })
        | inr (y, e) ↦ absurd (let h = rw (more, e) at h in cc)
      ]
      | inr enough ↦
          let same : finished ≡ x = (let h = rw enough at h in cc) in
          let c : Counted count completed s finished s =
            at_end-Counted count completed false s enough within in
          rw enough (subst (λ (y : LoopState). Counted count completed s y s) same c)
    ]

-- The loop and the `finally` block.
pub record Ran (count : ℕ) (s : Client) (x : LoopState) (t : Client) : Type 0 where
  pub number : t.next_request_num ≡ s.next_request_num + replies count x
  pub below : (k : ℕ) → x ≡ running k → k < count
  pub dropped : x ≡ finished → t.connected ≡ false

leave_loop-Ran :
    (count : ℕ) (s : Client) (r : Result LoopState) (t : Client) (x : LoopState)
    → (leave_loop (r, t)).0 ≡ ok x
    → (r ≡ ok x → Counted count 0 s x t)
    → Ran count s x (leave_loop (r, t)).1
unfolding leave_loop close
leave_loop-Ran count s (ok finished) t x h c =
    let c = c h in
    record { number = let e = c.number in omega arith; below = c.below; dropped = λ e. refl }
leave_loop-Ran count s (ok (running k)) t x h c =
    let c = c h in
    record { number = let e = c.number in omega arith; below = c.below; dropped = λ e. cc }
leave_loop-Ran count s (err e) t x h c = cc

-- When the loop of the client with a count does not raise over a sequence of attempts, it has
-- either ended, with exactly that many replies and the connection dropped by the `finally` block,
-- or it is still running after the last attempt, with fewer replies; and the number of the next
-- request has gone up by exactly the replies: no failed attempt counts.
pub counted_replies :
    (count : ℕ) (attempts : List Answers) (s : Client) (x : LoopState)
    → (run_counted count attempts s).0 ≡ ok x
    → Ran count s x (run_counted count attempts s).1
unfolding run_counted
counted_replies count attempts s x h =
    let y = run_count count 0 attempts s in
    leave_loop-Ran count s y.0 y.1 x h (run_count-Counted count 0 attempts s x (omega arith))
