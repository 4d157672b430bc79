-- ===== src/Samples/ServerExamples.antt =====
-- Runs of the request handler of src/ft_system/server/app.py on concrete requests.
use fall2026_18749_project.Prelude.{
  map, arith, ℕ, suc, ◌≡◌, refl, true, false, none, some, [], ◌∷◌, find, inl,
}
use fall2026_18749_project.Server.Connection.{serve_client}
use fall2026_18749_project.Server.Serving.{turn_of, answers, serve_client_lem}
use mathlib.Core.List.{◌++◌ as append}
use fall2026_18749_project.Text.{is_blank}
use fall2026_18749_project.Value.{pos, Fields, str}
use fall2026_18749_project.Result.{ok}
use fall2026_18749_project.Logger.{request, reply, received, sending, event, replaying}
use fall2026_18749_project.Protocol.WellFormed.{IsRequest}
use fall2026_18749_project.Protocol.Validate.{request_id_of}
use fall2026_18749_project.Protocol.Build.{request_fields}
use fall2026_18749_project.Protocol.Built.{request_fields-IsRequest, reply_to, reply_to-IsReply}
use fall2026_18749_project.Server.{Stored, Listener, process, start}
use fall2026_18749_project.Server.Process.{is_fresh, tuple, refusal}
use fall2026_18749_project.Server.Replies.{noted, process_replay, process_stale}
use fall2026_18749_project.Server.Cases.{IsConsistent}
use fall2026_18749_project.Server.Invariant.{process-IsConsistent, process_total}
use fall2026_18749_project.Server.ExactlyOnce.{InStep, Answered, exactly_once}
use fall2026_18749_project.Server.Slots.{slot}
use fall2026_18749_project.Server.Replicas.{Request, run, asked, serve_all, slot-run, convergence}
use fall2026_18749_project.Samples.{
  increment, increment-IsRequest, reset, reset-IsRequest, replica, replica-IsConsistent,
}

replica-InStep : InStep replica "C1" 0
unfolding find
replica-InStep = record { known = refl; at_start = λ h. refl; answered = λ p h. cc }

exactly_once_example : Answered (increment 0) "C1" 0 replica
exactly_once_example =
    exactly_once (increment-IsRequest 0) replica replica-IsConsistent (inl replica-InStep)

-- The increments of two clients, sent to two replicas.
increment_to-IsRequest :
    (n : ℕ) → IsRequest (request_fields "C1" "S2" (pos (suc n))) "C1" "S2" "increment" n
unfolding is_blank
increment_to-IsRequest n = request_fields-IsRequest {c = "C1"} {r = "S2"} refl refl n

other-IsRequest : IsRequest (request_fields "C2" "S2" (pos 1)) "C2" "S2" "increment" 0
unfolding is_blank
other-IsRequest = request_fields-IsRequest {c = "C2"} {r = "S2"} refl refl 0

abbrev to_first : Request
to_first = record {
  fields = increment 0;
  client = "C1";
  replica = "S1";
  operation = "increment";
  n = 0;
  valid = increment-IsRequest 0;
}

abbrev to_second : Request
to_second = record {
  fields = request_fields "C1" "S2" (pos 1);
  client = "C1";
  replica = "S2";
  operation = "increment";
  n = 0;
  valid = increment_to-IsRequest 0;
}

abbrev from_other : Request
from_other = record {
  fields = request_fields "C2" "S2" (pos 1);
  client = "C2";
  replica = "S2";
  operation = "increment";
  n = 0;
  valid = other-IsRequest;
}

abbrev second : Listener
second = start "S2" (("C1", 0) ∷ [])

second-IsConsistent : IsConsistent second
unfolding is_blank find
second-IsConsistent = record {
  replica_text = refl;
  stored = λ c p h. cc;
  unanswered = λ c k h known. ground arith;
}

slot-run_example :
    slot (run (to_second ∷ from_other ∷ []) second) "C1"
    ≡ serve_all (asked "C1" (to_second ∷ from_other ∷ [])) (slot second "C1")
slot-run_example = slot-run "C1" (to_second ∷ from_other ∷ []) second second-IsConsistent

same_start : slot replica "C1" ≡ slot second "C1"
unfolding slot find
same_start = refl

same_asked : asked "C1" (to_first ∷ []) ≡ asked "C1" (from_other ∷ to_second ∷ [])
unfolding asked
same_asked = refl

convergence_example :
    slot (run (to_first ∷ []) replica) "C1" ≡ slot (run (from_other ∷ to_second ∷ []) second) "C1"
convergence_example =
    convergence "C1" (to_first ∷ []) (from_other ∷ to_second ∷ []) replica second
      replica-IsConsistent second-IsConsistent same_start same_asked

process-IsConsistent_example : IsConsistent (process (increment 4) replica).1
process-IsConsistent_example =
    process-IsConsistent (increment-IsRequest 4) replica replica-IsConsistent

process_total_example : (a : Fields) × ((process (reset 0) replica).0 ≡ ok a)
process_total_example = process_total (reset-IsRequest 0) replica replica-IsConsistent

-- The state after the first increment of its client.
abbrev stored : Stored
stored = record { number = pos 1; operation = "increment"; answer = reply_to "C1" "S1" 0 1 }

abbrev answered : Listener
answered = record replica {
  counters = ("C1", 1) ∷ ("C2", 0) ∷ [];
  last_replies = ("C1", stored) ∷ [];
}

stored_found : find answered.last_replies "C1" ≡ some stored
unfolding find
stored_found = refl

names_not_blank : (is_blank "C1" ≡ false) × (is_blank "S1" ≡ false)
unfolding is_blank
names_not_blank = (refl, refl)

process_replay_example : process (increment 0) answered ≡ (
  ok (reply_to "C1" "S1" 0 1),
  record answered {
    log = append (append answered.log (received (tuple "C1" "S1" 0 request) ∷ [])) (
        event (replaying "S1" (str (request_id_of "C1" (pos 1))))
        ∷ sending (tuple "C1" "S1" 0 reply)
        ∷ []);
  },
)
process_replay_example =
    process_replay (increment-IsRequest 0) answered stored stored_found refl refl
      (reply_to-IsReply names_not_blank.0 names_not_blank.1 0 1)

process_stale_example : process (reset 0) answered ≡ (
  ok (
      refusal
        (reset-IsRequest 0)
        answered
        "stale_request"
        "request number is stale or was reused for another operation"),
  noted (reset-IsRequest 0) answered,
)
process_stale_example =
    process_stale (reset-IsRequest 0) answered stored stored_found names_not_blank.1 refl refl

-- A client that the replica was not started with.
stranger-IsRequest : IsRequest (request_fields "C9" "S1" (pos 1)) "C9" "S1" "increment" 0
unfolding is_blank
stranger-IsRequest = request_fields-IsRequest {c = "C9"} {r = "S1"} refl refl 0

stranger_facts :
    (is_fresh (find replica.last_replies "C9") 0 ≡ true) × (find replica.counters "C9" ≡ none)
unfolding find
stranger_facts = (refl, refl)

reset_facts :
    (is_fresh (find replica.last_replies "C1") 0 ≡ true) × (find replica.counters "C1" ≡ some 0)
unfolding find
reset_facts = (refl, refl)

serve_client_lem_example :
    serve_client (map turn_of (to_first ∷ to_first ∷ [])) (record { listener = replica; sent = [] })
    ≡ (
      ok tt,
      record {
        listener = run (to_first ∷ to_first ∷ []) replica;
        sent = append [] (answers (to_first ∷ to_first ∷ []) replica);
      },
    )
serve_client_lem_example =
    serve_client_lem "S1" (to_first ∷ to_first ∷ []) (record { listener = replica; sent = [] })
      replica-IsConsistent refl (refl, (refl, tt))
