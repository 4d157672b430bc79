-- ===== src/Active/Receiving.antt =====
-- `_receive` of src/ft_system/client/active.py: what the client of all replicas makes of a message.
use fall2026_18749_project.Prelude.{
  ℕ, String, Bool, true, false, not, ◌&&◌, Option, none, some, find, put, nat_eq, leb,
  if◌then◌else◌,
}
use fall2026_18749_project.Value.{
  ℤ, pos, negsuc, Float, finite, Value, bool, int, float, Fields, lookup,
}
use fall2026_18749_project.Result.{
  Exn, Result, ok, err, protocol_error, eof_error, timeout_error, connection_error, os_error,
  type_error, value_error, outside_sequence, unexpected_number, guard,
}
use fall2026_18749_project.Result
use fall2026_18749_project.Exec.{Exec, pure, raise, lift, gets, modify, ◌>>=◌, ◌>>◌}
use fall2026_18749_project.Logger.{
  reply, received, error, event, duplicate, delivered, divergence, message_tuple,
}
use fall2026_18749_project.Config.{leb_float}
use fall2026_18749_project.Protocol.{require_positive_int}
use fall2026_18749_project.Protocol.Build.{build_client_request}
use fall2026_18749_project.Access.{payload_item}
use fall2026_18749_project.Client.{is_caught, same_value, validate_reply}
use fall2026_18749_project.Active.{
  ReplicaConnection, Pending, absent, waiting, resolved, Active, write_line, retire, prune,
  find_value, put_value,
}

-- A value in a comparison with integers.
unfoldable pub number_of : Value → Result Float
number_of (int i) = ok (finite i 0)
number_of (bool true) = ok (finite (pos 1) 0)
number_of (bool false) = ok (finite (pos 0) 0)
number_of (float x) = ok x
number_of _ = err type_error

unfoldable pub or_zero : Option Value → Value
or_zero none = int (pos 0)
or_zero (some v) = v

-- The test of the number, and what `build_client_request` says to it: a positive integer passes.
unfoldable pub check_number : ReplicaConnection → Value → Result ℤ
check_number c v = Result.◌>>=◌ (number_of v) λ x.
    Result.◌>>=◌
      (guard
        ((leb_float (finite (pos c.last_received) 0) x && leb_float x (finite (pos c.last_sent) 0))
          && leb_float (finite (pos 1) 0) x)
        (protocol_error outside_sequence))
      λ _. require_positive_int v "request_num"

unfoldable pub natural : ℤ → ℕ
natural (pos n) = n
natural (negsuc n) = 0

-- `connection.last_received = number`
unfoldable pub note_received : String → ℕ → Active → Active
note_received replica number s = elim (find s.all_connections replica) [
  | none ↦ s
  | some c ↦ record s {
    all_connections = put s.all_connections replica (record c { last_received = number });
  }
]

differs : Option Value → Value → Bool
differs none v = false
differs (some expected) v = not (same_value v expected)

-- A reply to a request that has been answered before.
unfoldable pub discard_reply : String → ℕ → Value → Exec Active (Unit {0})
unfolding write_line differs
discard_reply replica number v = do
  client_id ← gets (λ s. s.client_id)
  expected ← gets (λ s. find_value s.delivered_values number)
  if differs expected v
      then write_line (error client_id (divergence (pos number) replica))
      else pure tt
  write_line (duplicate (pos number) replica)

abbrev pub set_result : Fields → Pending → Pending
set_result m absent = absent
set_result m waiting = resolved m
set_result m (resolved r) = resolved r

-- The first reply to the request that is due.
unfoldable pub deliver_reply : String → ℕ → Value → Fields → Exec Active (Unit {0})
unfolding write_line
deliver_reply replica number v m = do
  modify (λ s. record s {
    delivered_num = number;
    delivered_values = put_value s.delivered_values number v;
    last_reply = some m;
  })
  write_line (event (delivered (pos number) replica v))
  modify (λ s. record s { pending = set_result m s.pending })

-- The branches on the number of a reply that has been accepted.
unfoldable pub sort_reply : String → ℕ → Value → Fields → Exec Active (Unit {0})
unfolding discard_reply deliver_reply
sort_reply replica number v m = do
  delivered_num ← gets (λ s. s.delivered_num)
  next_request_num ← gets (λ s. s.next_request_num)
  if leb number delivered_num
      then discard_reply replica number v
      else if nat_eq number next_request_num
      then deliver_reply replica number v m
      else raise (protocol_error unexpected_number)
  prune

-- What one message has to pass before its number counts: the number, and the test of the reply.
unfoldable pub accept : String → String → ReplicaConnection → Fields → Result ℕ
unfolding natural
accept client_id replica c m =
    Result.◌>>=◌ (check_number c (or_zero (lookup m "request_num"))) λ number.
      Result.◌>>=◌ (build_client_request client_id replica number)
        λ sent. Result.◌>>=◌ (validate_reply m sent) λ _. ok (natural number)

-- The body of the loop of `_receive`, for a message.
unfoldable pub take_reply : String → ReplicaConnection → Fields → Exec Active (Unit {0})
unfolding write_line
take_reply replica c m = do
  client_id ← gets (λ s. s.client_id)
  number ← lift (accept client_id replica c m)
  modify (note_received replica number)
  t ← lift (message_tuple m reply)
  write_line (received t)
  v ← lift (payload_item m "client_value")
  sort_reply replica number v m

-- The loop is left: by an exception that is caught, which retires the connection, or by another one.
unfoldable pub end_task : String → Exn → Active → Active
end_task replica e s =
    let retired = if is_caught e then (retire replica e s).1 else s in
    elim (find retired.all_connections replica) [
      | none ↦ retired
      | some c ↦ record retired {
        all_connections = put retired.all_connections replica (record c { ended = true });
      }
    ]

unfoldable pub after_reply : String → Result (Unit {0}) × Active → Active
after_reply replica (ok u, s) = s
after_reply replica (err e, s) = end_task replica e s

-- A round of `_receive`, from what `read_message` returns or raises.
unfoldable pub receive : String → ReplicaConnection → Result Fields → Active → Active
unfolding after_reply
receive replica c (ok m) s = after_reply replica (take_reply replica c m s)
receive replica c (err e) s = end_task replica e s
