-- ===== src/Active.antt =====
-- src/ft_system/client/active.py: the client that sends each request to all replicas. A handler runs
-- without interruption from one wait to the next; each function below is such a stretch, and
-- Active/Schedule interleaves them. A connection is named by its replica, since `connect` opens one
-- connection to each endpoint.
pub mod Receiving
pub mod Schedule
pub mod Accepted
pub mod Steps
pub mod Moves
pub mod Order
pub mod Counted
pub mod Delivery
pub mod Values
use fall2026_18749_project.Prelude.{
  ℕ, ◌+◌, String, Bool, true, false, not, ◌&&◌, ◌||◌, Option, none, some, List, [], ◌∷◌, ◌++◌,
  Table, find, put, map, nat_eq, leb, length, if◌then◌else◌,
}
use fall2026_18749_project.Value.{
  ℤ, pos, negsuc, Float, finite, Value, none_value, bool, int, float, str, list, dict, Fields,
  lookup,
}
use fall2026_18749_project.Result.{
  Exn, Result, ok, err, protocol_error, eof_error, timeout_error, connection_error, os_error,
  type_error, value_error, outside_sequence, unexpected_number, guard,
}
use fall2026_18749_project.Result
use fall2026_18749_project.Exec.{Exec, pure, raise, lift, gets, attempt, modify, ◌>>=◌, ◌>>◌}
use fall2026_18749_project.Logger.{
  Line, request, reply, received, sending, error, event, duplicate, delivered, unavailable,
  divergence, message_tuple,
}
use fall2026_18749_project.StateMachine.{distinct}
use fall2026_18749_project.Gfd.Members.{has, discard}
use fall2026_18749_project.Config.{leb_float}
use fall2026_18749_project.Protocol.{require_positive_int}
use fall2026_18749_project.Protocol.Build.{build_client_request}
use fall2026_18749_project.Access.{payload_item}
use fall2026_18749_project.Client.{is_caught, same_value, validate_reply}

-- `ReplicaConnection`. `ended` says that its task has left the loop of `_receive` and only closes the
-- writer, `finished` is `task.done()`.
pub record ReplicaConnection : Type 0 where
  pub last_sent : ℕ
  pub last_received : ℕ
  pub ended : Bool
  pub finished : Bool

-- The future `_pending`.
pub data Pending : Type 0 where
  absent waiting : Pending
  resolved : Fields → Pending

-- `connections` holds the replicas of `_connections`, `all_connections` the connections of
-- `_all_connections`, `unopened` the replicas whose `open_replica` waits for the connection,
-- `unsent` and `unwritten` the ones whose `send` has not begun and has not ended.
pub record Active : Type 0 where
  pub client_id : String
  pub endpoints : List String
  pub started : Bool
  pub closing : Bool
  pub unopened : List String
  pub unsent : List String
  pub unwritten : List String
  pub connections : List String
  pub all_connections : Table ReplicaConnection
  pub next_request_num : ℕ
  pub delivered_num : ℕ
  pub last_reply : Option Fields
  pub pending : Pending
  pub delivered_values : List (ℕ × Value)
  pub outbox : List Fields
  pub log : List Line

unfoldable pub is_empty : List String → Bool
is_empty [] = true
is_empty (x ∷ xs) = false

-- The fields after `__init__`.
abbrev pub initial : String → List String → Active
initial client_id endpoints = record {
  client_id = client_id;
  endpoints = endpoints;
  started = false;
  closing = false;
  unopened = [];
  unsent = [];
  unwritten = [];
  connections = [];
  all_connections = [];
  next_request_num = 1;
  delivered_num = 0;
  last_reply = none;
  pending = absent;
  delivered_values = [];
  outbox = [];
  log = [];
}

-- `__init__`
unfoldable pub make : String → List String → Result Active
unfolding is_empty
make client_id endpoints =
    Result.◌>>◌
      (guard (not (is_empty endpoints) && distinct endpoints)
        (value_error "unique replica endpoints are required"))
      (ok (initial client_id endpoints))

write_line : Line → Exec Active (Unit {0})
write_line l = modify (λ s. record s { log = s.log ++ l ∷ [] })

unfoldable pub is_unavailable : Exn → Bool
is_unavailable timeout_error = true
is_unavailable connection_error = true
is_unavailable os_error = true
is_unavailable _ = false

-- `open_replica`, from what `open_connection_with_timeout` returns or raises.
unfoldable pub open_replica : String → Result (Unit {0}) → Exec Active (Unit {0})
unfolding write_line is_unavailable
open_replica replica (err e) =
    if is_unavailable e
    then (do
      client_id ← gets (λ s. s.client_id)
      write_line (error client_id (unavailable replica e)))
    else raise e
open_replica replica (ok u) = modify (λ s. record s {
  connections = s.connections ++ replica ∷ [];
  all_connections =
      put s.all_connections replica
        (record { last_sent = 0; last_received = 0; ended = false; finished = false });
})

-- `_retire`
unfoldable pub retire : String → Exn → Exec Active (Unit {0})
unfolding write_line
retire replica e = do
  listed ← gets (λ s. has s.connections replica)
  closing ← gets (λ s. s.closing)
  client_id ← gets (λ s. s.client_id)
  if listed
      then (do
        modify (λ s. record s { connections = discard s.connections replica })
        if closing then pure tt else write_line (error client_id (unavailable replica e)))
      else pure tt

-- Every connection has answered the number or is finished.
unfoldable pub is_settled : Table ReplicaConnection → ℕ → Bool
is_settled [] number = true
is_settled ((k, c) ∷ rest) number =
    (leb number c.last_received || c.finished) && is_settled rest number

unfoldable pub keep_open : Table ReplicaConnection → List (ℕ × Value) → List (ℕ × Value)
keep_open connections [] = []
keep_open connections ((number, v) ∷ rest) =
    let kept = keep_open connections rest in
    if is_settled connections number then kept else (number, v) ∷ kept

-- `_prune_delivered_values`
unfoldable pub prune : Exec Active (Unit {0})
prune = modify (λ s. record s { delivered_values = keep_open s.all_connections s.delivered_values })

-- `_delivered_values.get(number)`
unfoldable pub find_value : List (ℕ × Value) → ℕ → Option Value
find_value [] n = none
find_value ((k, v) ∷ rest) n = if nat_eq k n then some v else find_value rest n

-- `_delivered_values[number] = v`
unfoldable pub put_value : List (ℕ × Value) → ℕ → Value → List (ℕ × Value)
put_value [] n v = (n, v) ∷ []
put_value ((k, w) ∷ rest) n v = if nat_eq k n then (k, v) ∷ rest else (k, w) ∷ put_value rest n v
