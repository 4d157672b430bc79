-- ===== src/Gfd/Checks.antt =====
-- The tests that `_handle` and `_validate_report` of src/ft_system/gfd/app.py make of a message.
use fall2026_18749_project.Prelude.{
  ◌≡◌, arith, String, Bool, true, false, not, ◌&&◌, Option, none, some, Table, find, if◌then◌else◌,
}
use fall2026_18749_project.Value.{ℤ, Fields, get, eq_str, eq_int}
use fall2026_18749_project.Result.{
  Result, ok, err, protocol_error, key_error, foreign_report, expected_registration,
  already_registered, unexpected_reply, expected_membership, guard, ◌>>=◌, ◌>>◌,
}
use fall2026_18749_project.Protocol.{text, register, membership, heartbeat_ack}
use fall2026_18749_project.Protocol.Validate.{item}
use fall2026_18749_project.Access.{text_item, payload_item, as_mapping, as_bool}

-- `d[k]`
unfoldable pub at : {V : Type 0} → Table V → String → Result V
at d k = elim (find d k) [ none ↦ err (key_error k) | some v ↦ ok v ]

pub at-find : {V : Type 0} (d : Table V) (k : String) {v : V} → find d k ≡ some v → at d k ≡ ok v
unfolding at
at-find d k h = ground arith

abbrev pub is_some : {V : Type 0} → Option V → Bool
is_some none = false
is_some (some v) = true

unfoldable pub validate_report : Table String → Fields → String → Result (Unit {0})
validate_report servers message lfd_id = do
  source ← item message "source"
  guard (eq_str source lfd_id) (protocol_error foreign_report)
  destination ← item message "destination"
  guard (eq_str destination "GFD") (protocol_error foreign_report)
  v ← item message "payload"
  payload ← as_mapping v
  replica ← at servers lfd_id
  guard (eq_str (get payload "replica_id") replica) (protocol_error foreign_report)

-- `message["payload"]["healthy"]`
unfoldable pub healthy_of : Fields → Result Bool
healthy_of message = do v ← payload_item message "healthy"; as_bool v

-- The first message of a connection: who registers, and the health that it reports.
unfoldable pub check_registration : Table String → (String → Bool) → Fields → Result (String × Bool)
check_registration servers has_session message = do
  candidate ← text_item message "source"
  kind ← item message "type"
  guard (eq_str kind (text register) && is_some (find servers candidate))
      (protocol_error expected_registration)
  validate_report servers message candidate
  guard (not (has_session candidate)) (protocol_error already_registered)
  healthy ← healthy_of message
  ok (candidate, healthy)

-- A membership event between two heartbeats.
unfoldable pub check_event : Table String → String → Fields → Result Bool
check_event servers lfd_id message = do
  kind ← item message "type"
  guard (eq_str kind (text membership)) (protocol_error expected_membership)
  validate_report servers message lfd_id
  healthy_of message

is_ack : String → ℤ → Fields → Result (Option Bool)
is_ack lfd_id count message = do
  kind ← item message "type"
  guard (eq_str kind (text heartbeat_ack)) (protocol_error unexpected_reply)
  source ← item message "source"
  guard (eq_str source lfd_id) (protocol_error unexpected_reply)
  destination ← item message "destination"
  guard (eq_str destination "GFD") (protocol_error unexpected_reply)
  received ← item message "heartbeat_count"
  guard (eq_int received count) (protocol_error unexpected_reply)
  ok none

reported : Table String → String → Fields → Result (Option Bool)
reported servers lfd_id message = do
  validate_report servers message lfd_id
  healthy ← healthy_of message
  ok (some healthy)

-- A message while the answer to heartbeat `count` is due: an event, or (`none`) the answer.
unfoldable pub check_reply : Table String → String → ℤ → Fields → Result (Option Bool)
unfolding is_ack reported
check_reply servers lfd_id count message = do
  kind ← item message "type"
  if eq_str kind (text membership)
      then reported servers lfd_id message
      else is_ack lfd_id count message
