-- ===== src/Samples/LinkExamples.antt =====
-- Messages over a stream whose `json` writes a value as one byte, and a detector's report.
use fall2026_18749_project.Prelude.{
  ℕ, ◌≡◌, ◌≢◌, ◌≤◌, ◌⊎◌, refl, subst, ◌++◌, true, false, Option, none, some, List, [], ◌∷◌, length,
}
use fall2026_18749_project.Value.{pos, Value, dict}
use fall2026_18749_project.Result.{Result, ok, err, timeout_error}
use fall2026_18749_project.Protocol.WellFormed.{IsValid, valid_request}
use fall2026_18749_project.Protocol.Complete.{validate_message-IsValid}
use fall2026_18749_project.Transport.{
  Json, Loaded, loaded, malformed, max_message_bytes, encode_message, read_message, write_message,
  decode_message, decoded, is_end, line_of,
}
use fall2026_18749_project.Transport.Same.{Same-refl}
use fall2026_18749_project.Transport.RoundTrip.{
  IsFaithful, HasNoNewline, write_all, read_all, Received, messages_arrive,
}
use fall2026_18749_project.Transport.Bounds.{WasRead, read_message-WasRead, write_message_bounded}
use fall2026_18749_project.Reporter.{
  Event, health, connected, registered, reported, woken, make, run,
}
use fall2026_18749_project.Logger.{membership, heartbeat_failed}
use fall2026_18749_project.Logger.Rendering.{Display, line_text, members_text, joined}
use fall2026_18749_project.Text.{show}
use fall2026_18749_project.Protocol.Validate.{show_ℤ}
use fall2026_18749_project.Reporter.Current.{IsCurrent, no_session, run-IsCurrent}
use fall2026_18749_project.Samples.{increment, increment-IsRequest}

increment-IsValid : (n : ℕ) → IsValid (increment n)
increment-IsValid n = valid_request _ _ _ _ (increment-IsRequest n)

-- A byte is a whole value, or the newline.
loads : List (Option Value) → Loaded
loads (some v ∷ none ∷ []) = loaded v
loads _ = malformed

abbrev json : Json
json = record { Byte = Option Value; newline = none; dumps = λ v. ok (some v ∷ []); loads = loads }

prepended :
    Option Value
    → Result (List (Option Value)) × List (Option Value)
    → Result (List (Option Value)) × List (Option Value)
prepended b (ok line, rest) = (ok (b ∷ line), rest)
prepended b (err e, rest) = (err e, rest)

readline : List (Option Value) → Result (List (Option Value)) × List (Option Value)
unfolding prepended
readline [] = (ok [], [])
readline (none ∷ rest) = (ok (none ∷ []), rest)
readline (some v ∷ rest) = prepended (some v) (readline rest)

splits :
    (t rest : List (Option Value))
    → HasNoNewline json t
    → readline (t ++ none ∷ rest) ≡ (ok (t ++ none ∷ []), rest)
unfolding readline
splits [] rest h = refl
splits (none ∷ t) rest h = absurd (h.0 refl)
splits (some v ∷ t) rest h = rw (splits t rest h.1) refl

json-IsFaithful : IsFaithful json
unfolding loads
json-IsFaithful = record {
  one_line = λ v t h.
      let is : some v ∷ [] ≡ t = cc in
      subst (λ (x : List (Option Value)). HasNoNewline json x) is ((λ e. cc), tt);
  read_back = λ v t h.
      let is : some v ∷ [] ≡ t = cc in
      (
        v,
        subst (λ (x : List (Option Value)). loads (x ++ none ∷ []) ≡ loaded v) is refl,
        Same-refl v,
      );
}

written : (write_all json (increment 0 ∷ increment 1 ∷ []) []).0 ≡ ok tt
unfolding write_all write_message encode_message
written =
    rw
      (
        validate_message-IsValid (increment 0) (increment-IsValid 0),
        validate_message-IsValid (increment 1) (increment-IsValid 1),
      )
      refl

messages_arrive_example :
    Received json
      (increment 0 ∷ increment 1 ∷ [])
      (read_all json readline 2 (write_all json (increment 0 ∷ increment 1 ∷ []) []).1)
messages_arrive_example =
    messages_arrive json json-IsFaithful readline (λ t rest h b. splits t rest h)
      (increment 0 ∷ increment 1 ∷ []) written

abbrev line : Result (List (Option Value))
line = ok (some (dict (increment 0)) ∷ none ∷ [])

was_read : read_message json line ≡ ok (increment 0)
unfolding read_message line_of is_end decode_message decoded loads
was_read = rw (validate_message-IsValid (increment 0) (increment-IsValid 0)) refl

read_message-WasRead_example : WasRead json line (increment 0)
read_message-WasRead_example = read_message-WasRead json line (increment 0) was_read

write_message_bounded_example :
    (((write_message json (err timeout_error) (increment 0) []).0 ≢ ok tt)
      × ((write_message json (err timeout_error) (increment 0) []).1 ≡ []))
    ⊎ ((line : List (Option Value)) × (encode_message json (increment 0) ≡ ok line)
        × (length line ≤ max_message_bytes)
        × ((write_message json (err timeout_error) (increment 0) []).0 ≡ err timeout_error)
        × ((write_message json (err timeout_error) (increment 0) []).1 ≡ line))
write_message_bounded_example = write_message_bounded json (err timeout_error) (increment 0) []

-- The replica becomes healthy while the registration is written, fails, and recovers before the
-- next report; then the connection is lost.
abbrev course : List Event
course =
    connected (ok tt)
    ∷ health true
    ∷ registered (ok tt)
    ∷ health false
    ∷ woken
    ∷ health true
    ∷ reported (ok tt)
    ∷ woken
    ∷ []

started : IsCurrent (make "LFD1" "S1")
unfolding make
started = no_session refl

run-IsCurrent_example : IsCurrent (run course (make "LFD1" "S1"))
run-IsCurrent_example = run-IsCurrent course (make "LFD1" "S1") started

-- Lines of the log.
abbrev display : Display
display = record { other = λ v. "?"; counters = λ c. "{}"; reason = λ e. "timed out" }

membership_line : line_text display (membership ("S1" ∷ "S2" ∷ [])) ≡ "GFD: 2 members: S1, S2"
unfolding line_text members_text joined show
membership_line = refl

failure_line :
    line_text display (heartbeat_failed "LFD1" "S1" (pos 3) timeout_error)
    ≡ "[3] LFD1 heartbeat to S1 failed: timed out"
unfolding line_text show_ℤ show
failure_line = refl
