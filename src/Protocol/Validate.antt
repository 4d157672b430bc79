-- ===== src/Protocol/Validate.antt =====
-- `validate_message` of src/ft_system/common/protocol.py. The payload is a copy that `validated`
-- refers to, so a write to it is a write to the payload of `validated`.
use Prim.Native.String.{◌++◌}
use fall2026_18749_project.Prelude.{
  ◌≡◌, arith, String, Bool, true, false, not, Option, none, some, ◌==◌, if◌then◌else◌, ◌||◌,
}
use fall2026_18749_project.Text.{show}
use fall2026_18749_project.Value.{
  ℤ, pos, negsuc, Value, bool, int, str, dict, Fields, lookup, get, set, eq_int, eq_str,
}
use fall2026_18749_project.Result.{
  Result, ok, err, protocol_error, wrong_version, wrong_request_id, request_route, reply_route,
  healthy_not_boolean, not_to_gfd, guard, ◌>>=◌, ◌>>◌, key_error,
}
use fall2026_18749_project.Protocol.{
  MessageType, client_request, client_reply, heartbeat, heartbeat_ack, error, register, membership,
  text, protocol_version, message_type, require_mapping, require_string, require_positive_int,
  require_non_negative_int,
}

-- `str` of an integer
unfoldable pub show_ℤ : ℤ → String
show_ℤ (pos n) = show n
show_ℤ (negsuc n) = "-" ++ show (Prim.Native.Nat.suc n)

-- f"{client_id}:{request_num}"
unfoldable pub request_id_of : String → ℤ → String
request_id_of client_id request_num = client_id ++ ":" ++ show_ℤ request_num

-- `m[k]`
unfoldable pub item : Fields → String → Result Value
item m k = elim (lookup m k) [ none ↦ err (key_error k) | some v ↦ ok v ]

pub item-lookup : (m : Fields) (k : String) {v : Value} → lookup m k ≡ some v → item m k ≡ ok v
unfolding item
item-lookup m k h = ground arith

-- Where a request and where a reply must come from and go to.
unfoldable pub validate_route : Bool → Value → Value → String → String → Result (Unit {0})
validate_route is_request source destination client_id replica_id =
    if is_request
    then (if not (eq_str source client_id) || not (eq_str destination replica_id)
        then err (protocol_error request_route)
        else ok tt)
    else if not (eq_str source replica_id) || not (eq_str destination client_id)
    then err (protocol_error reply_route)
    else ok tt

unfoldable pub validate_request_identity : Fields → Result (Unit {0})
validate_request_identity message = do
  client_id ← require_string (get message "client_id") "client_id"
  replica_id ← require_string (get message "replica_id") "replica_id"
  request_num ← require_positive_int (get message "request_num") "request_num"
  request_id ← require_string (get message "request_id") "request_id"
  let expected = request_id_of client_id request_num
  guard (request_id == expected) (protocol_error (wrong_request_id expected request_id))
  kind ← item message "type"
  source ← item message "source"
  destination ← item message "destination"
  validate_route (eq_str kind (text client_request)) source destination client_id replica_id

unfoldable pub is_bool : Value → Bool
is_bool (bool b) = true
is_bool _ = false

unfoldable pub validate_report : Fields → Fields → Result Fields
unfolding is_bool
validate_report validated payload = do
  replica_id ← require_string (get payload "replica_id") "replica_id"
  let payload = set payload "replica_id" (str replica_id)
  let validated = set validated "payload" (dict payload)
  guard (is_bool (get payload "healthy")) (protocol_error healthy_not_boolean)
  destination ← item validated "destination"
  guard (eq_str destination "GFD") (protocol_error not_to_gfd)
  ok validated

-- `if "request_id" in validated`
unfoldable pub validate_error_id : Option Value → Fields → Result Fields
validate_error_id none validated = ok validated
validate_error_id (some v) validated = do
  request_id ← require_string v "request_id"
  ok (set validated "request_id" (str request_id))

-- The chain of `if message_type in …`.
unfoldable pub validate_kind : MessageType → Fields → Fields → Result Fields
unfolding validate_report validate_error_id
validate_kind client_request validated payload = do
  validate_request_identity validated
  operation ← require_string (get payload "operation") "operation"
  ok (set validated "payload" (dict (set payload "operation" (str operation))))
validate_kind client_reply validated payload = do
  validate_request_identity validated
  client_value ← require_non_negative_int (get payload "client_value") "client_value"
  ok (set validated "payload" (dict (set payload "client_value" (int client_value))))
validate_kind heartbeat validated payload = do
  count ← require_positive_int (get validated "heartbeat_count") "heartbeat_count"
  ok (set validated "heartbeat_count" (int count))
validate_kind heartbeat_ack validated payload = do
  count ← require_positive_int (get validated "heartbeat_count") "heartbeat_count"
  ok (set validated "heartbeat_count" (int count))
validate_kind register validated payload = validate_report validated payload
validate_kind membership validated payload = validate_report validated payload
validate_kind error validated payload = do
  code ← require_string (get payload "code") "code"
  let payload = set payload "code" (str code)
  detail ← require_string (get payload "detail") "detail"
  let validated = set validated "payload" (dict (set payload "detail" (str detail)))
  validate_error_id (lookup validated "request_id") validated

unfoldable pub validate_message : Value → Result Fields
validate_message message = do
  validated ← require_mapping message "message"
  guard (eq_int (get validated "version") protocol_version) (protocol_error wrong_version)
  raw_type ← require_string (get validated "type") "type"
  kind ← message_type raw_type
  let validated = set validated "type" (str (text kind))
  source ← require_string (get validated "source") "source"
  let validated = set validated "source" (str source)
  destination ← require_string (get validated "destination") "destination"
  let validated = set validated "destination" (str destination)
  payload ← require_mapping (get validated "payload") "payload"
  let validated = set validated "payload" (dict payload)
  validate_kind kind validated payload
