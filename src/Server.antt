-- ===== src/Server.antt =====
-- src/ft_system/server/app.py, the class `ClientListener`. A method changes the listener and may
-- raise. `_process` holds a lock from its first line to its last, so one call of it is one step.
pub mod Process
pub mod LifeCycle
pub mod Replies
pub mod Cases
pub mod Slots
pub mod Invariant
pub mod ExactlyOnce
pub mod Replicas
pub mod Connection
pub mod Serving
use fall2026_18749_project.Prelude.{
  ℕ, String, ◌≡◌, Bool, true, false, ◌&&◌, Option, none, some, List, [], ◌∷◌, ◌++◌, Table, find,
  put, ◌==◌, if◌then◌else◌, arith, map,
}
use fall2026_18749_project.Text.{contains}
use fall2026_18749_project.Value.{ℤ, pos, leb_ℤ, eq_ℤ, Value, int, str, dict, Fields, lookup}
use fall2026_18749_project.Result.{Exn, Result, ok, err, type_error, state_machine_error}
use fall2026_18749_project.Result
use fall2026_18749_project.Exec.{Exec, pure, raise, lift, gets, attempt, modify, ◌>>=◌, ◌>>◌}
use fall2026_18749_project.Logger.{
  Direction, request, reply, Phase, before, after, Line, received, sending, state, error, event,
  replaying, raised, message_tuple,
}
use fall2026_18749_project.Protocol.Validate.{item}
use fall2026_18749_project.Access.{as_text, text_item, number_item, payload_item}
use fall2026_18749_project.Protocol.Build.{build_client_reply, build_error}
use fall2026_18749_project.StateMachine
use fall2026_18749_project.StateMachine.{Transition}

-- An entry of `_last_replies`.
pub record Stored : Type 0 where
  pub number : ℤ
  pub operation : String
  pub answer : Fields

pub record Listener : Type 0 where
  pub replica_id : String
  pub counters : Table ℕ
  pub last_replies : Table Stored
  pub log : List Line

write_line : Line → Exec Listener (Unit {0})
write_line l = modify (λ s. record s { log = s.log ++ l ∷ [] })

-- `self._logger.received(…)` and `self._logger.sending(…)`
log_received : Fields → Direction → Exec Listener (Unit {0})
unfolding write_line
log_received m d = do t ← lift (message_tuple m d); write_line (received t)

log_sending : Fields → Direction → Exec Listener (Unit {0})
unfolding write_line
log_sending m d = do t ← lift (message_tuple m d); write_line (sending t)

log_state : Table ℕ → Phase → Fields → Exec Listener (Unit {0})
unfolding write_line
log_state counters phase m s =
    (do t ← lift (message_tuple m request); write_line (state s.replica_id counters phase t)) s

apply_operation : String → String → Exec Listener Transition
apply_operation client_id operation s =
    let (r, counters) = StateMachine.apply client_id operation s.counters in
    (r, record s { counters = counters })

unfoldable pub error_code : String → String
error_code text =
    if contains text "unsupported operation" then "unsupported_operation" else "state_machine_error"

-- What follows `apply`: the `except` block, or the reply.
complete : Fields → String → ℤ → String → Result Transition → Exec Listener Fields
unfolding write_line log_sending log_state
complete message client_id number operation (err (state_machine_error text)) = do
  replica_id ← gets (λ s. s.replica_id)
  write_line (error replica_id (raised (state_machine_error text)))
  request_id ← lift (item message "request_id")
  lift (build_error (str replica_id) (str client_id) (error_code text) text (some request_id))
complete message client_id number operation (err e) = raise e
complete message client_id number operation (ok transition) = do
  log_state transition.after after message
  answer ← lift (build_client_reply message (pos transition.client_value))
  modify (λ s. record s {
    last_replies =
        put s.last_replies client_id
          (record { number = number; operation = operation; answer = answer });
  })
  log_sending answer reply
  pure answer

pub execute : Fields → String → ℤ → String → Exec Listener Fields
unfolding log_state apply_operation complete
execute message client_id number operation = do
  counters ← gets (λ s. s.counters)
  log_state counters before message
  outcome ← attempt (apply_operation client_id operation)
  complete message client_id number operation outcome

replay : Fields → Stored → Exec Listener Fields
unfolding write_line log_sending
replay message previous = do
  replica_id ← gets (λ s. s.replica_id)
  request_id ← lift (item message "request_id")
  write_line (event (replaying replica_id request_id))
  log_sending previous.answer reply
  pure previous.answer

refuse_stale : Fields → String → Exec Listener Fields
refuse_stale message client_id = do
  replica_id ← gets (λ s. s.replica_id)
  request_id ← lift (item message "request_id")
  lift (
      build_error (str replica_id) (str client_id) "stale_request"
        "request number is stale or was reused for another operation" (some request_id))

-- The test of a request against the last reply to its client.
pub answer_by : Fields → String → ℤ → String → Option Stored → Exec Listener Fields
unfolding execute replay refuse_stale
answer_by message client_id number operation none = execute message client_id number operation
answer_by message client_id number operation (some previous) =
    if leb_ℤ number previous.number
    then (if eq_ℤ number previous.number && operation == previous.operation
        then replay message previous
        else refuse_stale message client_id)
    else execute message client_id number operation

unfoldable pub process : Fields → Exec Listener Fields
unfolding log_received answer_by
process message = do
  log_received message request
  client_id ← lift (text_item message "client_id")
  number ← lift (number_item message "request_num")
  operation ← lift (Result.◌>>=◌ (payload_item message "operation") as_text)
  previous ← gets (λ s. find s.last_replies client_id)
  answer_by message client_id number operation previous

-- `__init__`
abbrev pub start : String → Table ℕ → Listener
start replica_id counters = record {
  replica_id = replica_id;
  counters = counters;
  last_replies = [];
  log = [];
}
