-- ===== src/Client.antt =====
-- src/ft_system/client/app.py: the client of one replica. What the network answers while one request
-- is sent is given by `Answers`; `read` is what `read_message_with_timeout` returns or raises.
pub mod Reply
pub mod Sending
pub mod Commands
pub mod Accepts
use fall2026_18749_project.Prelude.{
  ℕ, ◌+◌, String, Bool, true, false, not, ◌&&◌, ◌||◌, List, [], ◌∷◌, ◌++◌, if◌then◌else◌,
}
use fall2026_18749_project.Value.{
  ℤ, pos, Value, none_value, bool, int, float, str, list, dict, Fields, get, eq_str, eq_int,
}
use fall2026_18749_project.Result.{
  Exn, Result, ok, err, protocol_error, eof_error, timeout_error, connection_error, os_error,
  server_error, not_a_reply, foreign_reply, guard,
}
use fall2026_18749_project.Result
use fall2026_18749_project.Exec.{Exec, pure, raise, lift, gets, attempt, modify, ◌>>=◌, ◌>>◌}
use fall2026_18749_project.Logger.{
  Line, Direction, request, reply, received, sending, message_tuple,
}
use fall2026_18749_project.Protocol.{text, error, client_reply}
use fall2026_18749_project.Protocol.Validate.{item}
use fall2026_18749_project.Protocol.Build.{build_client_request}
use fall2026_18749_project.Access.{payload_item}

-- `v == w`, for a `w` that is None, a Boolean, a number or a text, as the fields of a request are.
unfoldable pub same_value : Value → Value → Bool
same_value v (str s) = eq_str v s
same_value v (int n) = eq_int v n
same_value v (bool true) = eq_int v (pos 1)
same_value v (bool false) = eq_int v (pos 0)
same_value none_value none_value = true
same_value _ _ = false

-- One field of the test of the identifiers.
unfoldable pub check_field : Fields → Fields → String → Result (Unit {0})
check_field answer sent field =
    Result.◌>>=◌ (item sent field)
      λ v. guard (same_value (get answer field) v) (protocol_error foreign_reply)

unfoldable pub check_fields : Fields → Fields → List String → Result (Unit {0})
check_fields answer sent [] = ok tt
check_fields answer sent (field ∷ rest) =
    Result.◌>>=◌ (check_field answer sent field) λ _. check_fields answer sent rest

abbrev pub identity_fields : List String
identity_fields = "client_id" ∷ "replica_id" ∷ "request_num" ∷ "request_id" ∷ []

unfoldable pub validate_reply : Fields → Fields → Result (Unit {0})
validate_reply answer sent = Result.◌>>=◌ (item answer "type") λ kind.
    if eq_str kind (text error)
    then (Result.◌>>=◌ (payload_item answer "detail")
        λ detail. err (protocol_error (server_error detail)))
    else (Result.◌>>=◌ (guard (eq_str kind (text client_reply)) (protocol_error not_a_reply))
        λ _. check_fields answer sent identity_fields)

pub record Client : Type 0 where
  pub client_id : String
  pub replica_id : String
  pub next_request_num : ℕ
  pub connected : Bool
  pub outbox : List Fields
  pub log : List Line

-- `closing`: the writer of the last request is being closed.
pub record Answers : Type 0 where
  pub closing : Bool
  pub connect : Result (Unit {0})
  pub write : Result (Unit {0})
  pub read : Result Fields

unfoldable pub drop_connection : Exec Client (Unit {0})
drop_connection = modify (λ s. record s { connected = false })

unfoldable pub connect : Answers → Exec Client (Unit {0})
unfolding drop_connection
connect a = do
  is_open ← gets (λ s. s.connected)
  if is_open && not a.closing
      then pure tt
      else (do drop_connection; lift a.connect; modify (λ s. record s { connected = true }))

unfoldable pub is_caught : Exn → Bool
is_caught (protocol_error r) = true
is_caught eof_error = true
is_caught timeout_error = true
is_caught connection_error = true
is_caught os_error = true
is_caught _ = false

-- The body of the `try`.
unfoldable pub exchange : Answers → Fields → Exec Client Fields
exchange a sent = do
  lift a.write
  modify (λ s. record s { outbox = s.outbox ++ sent ∷ [] })
  answer ← lift a.read
  lift (validate_reply answer sent)
  pure answer

-- What follows it: the `except` block, or the lines after.
unfoldable pub settle : Result Fields → Exec Client Fields
unfolding drop_connection is_caught
settle (err e) = if is_caught e then (do drop_connection; raise e) else raise e
settle (ok answer) = do
  t ← lift (message_tuple answer reply)
  modify (λ s. record s { log = s.log ++ received t ∷ [] })
  modify (λ s. record s { next_request_num = s.next_request_num + 1 })
  pure answer

-- The lines before the `try`.
unfoldable pub prepare : Answers → Exec Client Fields
unfolding connect
prepare a = do
  connect a
  client_id ← gets (λ s. s.client_id)
  replica_id ← gets (λ s. s.replica_id)
  number ← gets (λ s. s.next_request_num)
  sent ← lift (build_client_request client_id replica_id (pos number))
  t ← lift (message_tuple sent request)
  modify (λ s. record s { log = s.log ++ sending t ∷ [] })
  pure sent

unfoldable pub send_increment : Answers → Exec Client Fields
unfolding prepare exchange settle
send_increment a = do sent ← prepare a; outcome ← attempt (exchange a sent); settle outcome

-- `__init__`
abbrev pub start : String → String → Client
start client_id replica_id = record {
  client_id = client_id;
  replica_id = replica_id;
  next_request_num = 1;
  connected = false;
  outbox = [];
  log = [];
}
