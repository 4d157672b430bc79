-- ===== src/Logger.antt =====
-- src/ft_system/common/logging.py. The log is the list of the calls that print a line; the text of a
-- line is in Logger/Rendering.
pub mod Rendering
use fall2026_18749_project.Prelude.{ℕ, String, List, none, some, ◌≡◌, arith}
use fall2026_18749_project.Value.{ℤ, Value, Fields, lookup}
use fall2026_18749_project.Result.{Result, ok, err, value_error, Exn, ◌>>=◌}
use Prim.Native.String.{◌++◌}

pub data Direction : Type 0 where
  request reply : Direction

pub data Phase : Type 0 where
  before after : Phase

-- The texts that `EventLogger.event` is called with.
pub data Note : Type 0 where
  replaying : (replica_id : String) (request_id : Value) → Note
  delivered : (number : ℤ) (replica_id : String) (client_value : Value) → Note
  add_replica delete_replica : (lfd_id replica_id : String) → Note
  registered : (lfd_id : String) → Note
  registered_with_gfd : (lfd_id : String) → Note

-- The texts that `EventLogger.error` is called with.
pub data Problem : Type 0 where
  raised : Exn → Problem
  unregistered_lfd : Exn → Problem
  registered_lfd : (lfd_id : String) → Exn → Problem
  connection_closed heartbeat_closed : Exn → Problem
  invalid_heartbeat_message : Problem
  unavailable : (replica_id : String) → Exn → Problem
  divergence : (number : ℤ) (replica_id : String) → Problem
  gfd_connection : Exn → Problem
  unknown_command : String → Problem

pub record Tuple : Type 0 where
  pub client_id : Value
  pub replica_id : Value
  pub request_num : Value
  pub direction : Direction

pub data Line : Type 0 where
  received sending : Tuple → Line
  state : (replica_id : String) → List (String × ℕ) → Phase → Tuple → Line
  heartbeat_sent heartbeat_ack : (lfd_id replica_id : String) (count : ℤ) → Line
  heartbeat_failed : (lfd_id replica_id : String) (count : ℤ) → Exn → Line
  server_heartbeat_received server_heartbeat_ack_sent :
      (replica_id : String) (lfd_id count : Value) → Line
  server_failed server_recovered : (replica_id : String) → Line
  error : (component_id : String) → Problem → Line
  event : Note → Line
  duplicate : (number : ℤ) (replica_id : String) → Line
  membership : List String → Line

-- `message[k]`, with the KeyError turned into a ValueError
unfoldable pub needed : Fields → String → Result Value
needed m k = elim (lookup m k) [
  | none ↦ err (value_error ("message is missing " ++ k))
  | some v ↦ ok v
]

unfoldable pub message_tuple : Fields → Direction → Result Tuple
message_tuple message direction = do
  client_id ← needed message "client_id"
  replica_id ← needed message "replica_id"
  request_num ← needed message "request_num"
  ok (record {
    client_id = client_id;
    replica_id = replica_id;
    request_num = request_num;
    direction = direction;
  })

needed-lookup : (m : Fields) (k : String) {v : Value} → lookup m k ≡ some v → needed m k ≡ ok v
unfolding needed
needed-lookup m k h = ground arith

-- A message that has the three fields is logged.
pub message_tuple_lem :
    (m : Fields) (d : Direction) {c r n : Value}
    → lookup m "client_id" ≡ some c
    → lookup m "replica_id" ≡ some r
    → lookup m "request_num" ≡ some n
    → message_tuple m d
      ≡ ok (record { client_id = c; replica_id = r; request_num = n; direction = d })
unfolding message_tuple
message_tuple_lem m d hc hr hn = simp (
  needed-lookup m "client_id" hc,
  needed-lookup m "replica_id" hr,
  needed-lookup m "request_num" hn,
)
