-- ===== src/Protocol/Build.antt =====
-- The functions `build_*` of src/ft_system/common/protocol.py. Each makes a dict and validates it.
use fall2026_18749_project.Prelude.{String, Bool, Option, none, some, if◌then◌else◌}
use fall2026_18749_project.Value.{ℤ, Value, bool, int, str, dict, Fields, empty, entry, set, eq_str}
use fall2026_18749_project.Result.{
  Result, protocol_error, not_a_request, not_a_heartbeat, guard, ◌>>=◌, ◌>>◌,
}
use fall2026_18749_project.Protocol.{
  MessageType, client_request, client_reply, heartbeat, heartbeat_ack, error, register, membership,
  text, protocol_version,
}
use fall2026_18749_project.Protocol.Validate.{request_id_of, item, validate_message}

-- The part of the dict literals that the builders of all messages write alike.
abbrev pub header : MessageType → Value → Value → Fields → Fields
header kind source destination rest =
    entry "version" (int protocol_version) (
      entry "type" (str (text kind)) (entry "source" source (entry "destination" destination rest)))

abbrev pub identity_fields : Value → Value → Value → Value → Fields → Fields
identity_fields client_id replica_id request_num request_id payload = entry "client_id" client_id (
    entry "replica_id" replica_id (
      entry "request_num" request_num
        (entry "request_id" request_id (entry "payload" (dict payload) empty))))

abbrev pub request_fields : String → String → ℤ → Fields
request_fields client_id replica_id request_num =
    header client_request (str client_id) (str replica_id) (
      identity_fields (str client_id) (str replica_id) (int request_num)
        (str (request_id_of client_id request_num)) (entry "operation" (str "increment") empty))

unfoldable pub build_client_request : String → String → ℤ → Result Fields
build_client_request client_id replica_id request_num =
    validate_message (dict (request_fields client_id replica_id request_num))

abbrev pub reply_fields : Value → Value → Value → Value → ℤ → Fields
reply_fields replica_id client_id request_num request_id client_value =
    header client_reply replica_id client_id (
      identity_fields client_id replica_id request_num request_id
        (entry "client_value" (int client_value) empty))

unfoldable pub build_client_reply : Fields → ℤ → Result Fields
build_client_reply request client_value = do
  validated ← validate_message (dict request)
  kind ← item validated "type"
  guard (eq_str kind (text client_request)) (protocol_error not_a_request)
  replica_id ← item validated "replica_id"
  client_id ← item validated "client_id"
  request_num ← item validated "request_num"
  request_id ← item validated "request_id"
  validate_message (dict (reply_fields replica_id client_id request_num request_id client_value))

abbrev pub heartbeat_fields : MessageType → Value → Value → Value → Fields
heartbeat_fields kind source destination count =
    header kind source destination
      (entry "heartbeat_count" count (entry "payload" (dict empty) empty))

unfoldable pub build_heartbeat : String → String → ℤ → Result Fields
build_heartbeat lfd_id replica_id heartbeat_count =
    validate_message
      (dict (heartbeat_fields heartbeat (str lfd_id) (str replica_id) (int heartbeat_count)))

unfoldable pub build_heartbeat_ack : Fields → Result Fields
build_heartbeat_ack beat = do
  validated ← validate_message (dict beat)
  kind ← item validated "type"
  guard (eq_str kind (text heartbeat)) (protocol_error not_a_heartbeat)
  destination ← item validated "destination"
  source ← item validated "source"
  count ← item validated "heartbeat_count"
  validate_message (dict (heartbeat_fields heartbeat_ack destination source count))

abbrev pub error_fields : Value → Value → String → String → Fields
error_fields source destination code detail =
    header error source destination
      (entry "payload" (dict (entry "code" (str code) (entry "detail" (str detail) empty))) empty)

-- `request_id` may be any value: a caller passes on what a message holds.
unfoldable pub build_error : Value → Value → String → String → Option Value → Result Fields
build_error source destination code detail none =
    validate_message (dict (error_fields source destination code detail))
build_error source destination code detail (some request_id) =
    validate_message
      (dict (set (error_fields source destination code detail) "request_id" request_id))

abbrev pub report_fields : MessageType → String → String → Bool → Fields
report_fields kind lfd_id replica_id healthy = header kind (str lfd_id) (str "GFD") (
    entry "payload"
      (dict (entry "replica_id" (str replica_id) (entry "healthy" (bool healthy) empty))) empty)

-- The last argument is the keyword `register`.
unfoldable pub build_membership : String → String → Bool → Bool → Result Fields
build_membership lfd_id replica_id healthy is_register =
    validate_message (
      dict (report_fields (if is_register then register else membership) lfd_id replica_id healthy))
