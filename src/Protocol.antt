-- ===== src/Protocol.antt =====
-- src/ft_system/common/protocol.py: the message types and the checks of single fields. The
-- validation of messages, their construction and what a valid message is are in the modules below.
pub mod Validate
pub mod Build
pub mod WellFormed
pub mod Passed
pub mod Sound
pub mod Complete
pub mod Built
use fall2026_18749_project.Prelude.{
  ℕ, zero, suc, String, ◌≡◌, refl, ap, Bool, true, false, Option, none, some, arith, ◌==◌, eq_iff,
  if◌then◌else◌,
}
use fall2026_18749_project.Text.{is_blank}
use fall2026_18749_project.Value.{
  ℤ, pos, negsuc, Value, none_value, bool, int, float, str, list, dict, Fields,
}
use fall2026_18749_project.Result.{
  Result, ok, err, protocol_error, not_an_object, not_a_string, not_positive, not_non_negative,
  unknown_message_type,
}

abbrev pub protocol_version : ℤ
protocol_version = pos 1

pub data MessageType : Type 0 where
  client_request client_reply heartbeat heartbeat_ack error register membership : MessageType

-- The text of an enum member, which is what stands in a message.
abbrev pub text : MessageType → String
text client_request = "client_request"
text client_reply = "client_reply"
text heartbeat = "heartbeat"
text heartbeat_ack = "heartbeat_ack"
text error = "error"
text register = "register"
text membership = "membership"

-- `MessageType(raw)`, which raises ValueError for any other text.
unfoldable pub message_type : String → Result MessageType
message_type raw =
    if raw == text client_request
    then ok client_request
    else if raw == text client_reply
    then ok client_reply
    else if raw == text heartbeat
    then ok heartbeat
    else if raw == text heartbeat_ack
    then ok heartbeat_ack
    else if raw == text error
    then ok error
    else if raw == text register
    then ok register
    else if raw == text membership
    then ok membership
    else err (protocol_error (unknown_message_type raw))

unfoldable pub require_mapping : Value → String → Result Fields
require_mapping (dict m) field = ok m
require_mapping _ field = err (protocol_error (not_an_object field))

unfoldable pub require_string : Value → String → Result String
require_string (str s) field =
    if is_blank s then err (protocol_error (not_a_string field)) else ok s
require_string _ field = err (protocol_error (not_a_string field))

unfoldable pub require_positive_int : Value → String → Result ℤ
require_positive_int (int (pos (suc n))) field = ok (pos (suc n))
require_positive_int _ field = err (protocol_error (not_positive field))

unfoldable pub require_non_negative_int : Value → String → Result ℤ
require_non_negative_int (int (pos n)) field = ok (pos n)
require_non_negative_int _ field = err (protocol_error (not_non_negative field))

-- What the checks accept.
pub message_type-text : (k : MessageType) → message_type (text k) ≡ ok k
unfolding message_type
message_type-text client_request = refl
message_type-text _ = refl

pub message_type-eq-ok : (raw : String) (k : MessageType) → message_type raw ≡ ok k → raw ≡ text k
unfolding message_type
message_type-eq-ok raw k h = ground (
  arith,
  eq_iff raw (text client_request),
  eq_iff raw (text client_reply),
  eq_iff raw (text heartbeat),
  eq_iff raw (text heartbeat_ack),
  eq_iff raw (text error),
  eq_iff raw (text register),
  eq_iff raw (text membership),
)

pub require_mapping-eq-ok :
    (v : Value) (field : String) (m : Fields) → require_mapping v field ≡ ok m → v ≡ dict m
unfolding require_mapping
require_mapping-eq-ok (dict m) field p h = cc
require_mapping-eq-ok _ field p h = cc

pub require_string-eq-ok :
    (v : Value) (field s : String)
    → require_string v field ≡ ok s
    → (v ≡ str s) × (is_blank s ≡ false)
unfolding require_string
require_string-eq-ok (str t) field s h = ground arith
require_string-eq-ok _ field s h = cc

pub require_positive_int-eq-ok :
    (v : Value) (field : String) (i : ℤ)
    → require_positive_int v field ≡ ok i
    → (n : ℕ) × (v ≡ int (pos (suc n))) × (i ≡ pos (suc n))
unfolding require_positive_int
require_positive_int-eq-ok (int (pos (suc n))) field i h = (n, refl, cc)
require_positive_int-eq-ok _ field i h = cc

pub require_non_negative_int-eq-ok :
    (v : Value) (field : String) (i : ℤ)
    → require_non_negative_int v field ≡ ok i
    → (n : ℕ) × (v ≡ int (pos n)) × (i ≡ pos n)
unfolding require_non_negative_int
require_non_negative_int-eq-ok (int (pos n)) field i h = (n, refl, cc)
require_non_negative_int-eq-ok _ field i h = cc
