-- ===== src/Protocol/Complete.antt =====
-- `validate_message` on a valid message, kind by kind.
use fall2026_18749_project.Prelude.{ℕ, suc, String, ◌≡◌, refl, Bool, false, eq_refl, inl, inr}
use fall2026_18749_project.Text.{is_blank}
use fall2026_18749_project.Value.{
  pos, int, str, dict, Fields, lookup, get, set, eq_str, get-lookup, set_same,
}
use fall2026_18749_project.Result.{ok}
use fall2026_18749_project.Protocol.{
  MessageType, client_request, client_reply, heartbeat, heartbeat_ack, register, membership, text,
  require_mapping, require_string, require_positive_int, require_non_negative_int,
  message_type-text,
}
use fall2026_18749_project.Protocol.Validate.{
  request_id_of, item-lookup, validate_route, validate_request_identity, validate_kind,
  validate_message, validate_error_id,
}
use fall2026_18749_project.Protocol.WellFormed.{
  ErrorId, HasText, Envelope, Identity, IsRequest, IsReply, IsBeat, IsReport, IsError, IsValid,
  valid_request, valid_reply, valid_heartbeat, valid_ack, valid_register, valid_membership,
  valid_error,
}

require_string-HasText :
    {m : Fields} {k s : String} (field : String)
    → HasText m k s
    → require_string (get m k) field ≡ ok s
unfolding require_string
require_string-HasText field h = rw (get-lookup _ _ h.held, h.not_blank)

require_string_of_HasText :
    {m : Fields} {k s : String} (field : String)
    → HasText m k s
    → require_string (str s) field ≡ ok s
unfolding require_string
require_string_of_HasText field h = rw h.not_blank

set-HasText : {m : Fields} {k s : String} → HasText m k s → set m k (str s) ≡ m
set-HasText {m} {k} {s} h = set_same m k (str s) h.held

text_not_blank : (k : MessageType) → is_blank (text k) ≡ false
unfolding is_blank
text_not_blank client_request = refl
text_not_blank _ = refl

type-HasText :
    {m : Fields} {kind : MessageType} {s d : String} {p : Fields}
    → Envelope m kind s d p
    → HasText m "type" (text kind)
type-HasText {kind = kind} e = record { held = e.type; not_blank = text_not_blank kind }

pub validate_message-Envelope :
    {m : Fields} {kind : MessageType} {source destination : String} {payload : Fields}
    → Envelope m kind source destination payload
    → validate_message (dict m) ≡ validate_kind kind m payload
unfolding validate_message require_mapping
validate_message-Envelope {m} {kind} {source} {destination} {payload} e = simp (
  e.version,
  require_string-HasText "type" (type-HasText e),
  message_type-text kind,
  set-HasText (type-HasText e),
  require_string-HasText "source" e.source_text,
  set-HasText e.source_text,
  require_string-HasText "destination" e.destination_text,
  set-HasText e.destination_text,
  get-lookup m "payload" e.payload_held,
  set_same m "payload" (dict payload) e.payload_held,
)

module _ {m p : Fields} {client replica : String} {n : ℕ} (i : Identity m client replica n) where
  identity_passes :
      (kind : MessageType) {source destination : String}
      → Envelope m kind source destination p
      → validate_route
          (eq_str (str (text kind)) (text client_request))
          (str source)
          (str destination)
          client
          replica
        ≡ ok tt
      → validate_request_identity m ≡ ok tt
  unfolding validate_request_identity require_positive_int
  identity_passes kind e route = simp (
    require_string-HasText "client_id" i.client_text,
    require_string-HasText "replica_id" i.replica_text,
    get-lookup m "request_num" i.number_held,
    require_string-HasText "request_id" i.id_text,
    eq_refl (request_id_of client (pos (suc n))),
    item-lookup m "type" e.type,
    item-lookup m "source" e.source_text.held,
    item-lookup m "destination" e.destination_text.held,
    route,
  )

-- A report's fields other than those of the envelope.
pub validate_message-IsReport :
    (kind : MessageType) {m : Fields} {s r : String} {h : Bool}
    → ((v p : Fields) → validate_kind kind v p ≡ validate_kind register v p)
    → IsReport kind m s r h
    → validate_message (dict m) ≡ ok m
unfolding validate_kind eq_str
validate_message-IsReport kind {m} {s} {r} {h} same q = simp (
  validate_message-Envelope q.envelope,
  same,
  require_string-HasText "replica_id" q.replica_text,
  set-HasText q.replica_text,
  set_same m "payload" (dict q.payload) q.envelope.payload_held,
  get-lookup q.payload "healthy" q.healthy_held,
  item-lookup m "destination" q.envelope.destination_text.held,
  eq_refl "GFD",
)

pub validate_message-IsBeat :
    (kind : MessageType) {m : Fields} {s d : String} {n : ℕ}
    → ((v p : Fields) → validate_kind kind v p ≡ validate_kind heartbeat v p)
    → IsBeat kind m s d n
    → validate_message (dict m) ≡ ok m
unfolding validate_kind require_positive_int
validate_message-IsBeat kind {m} {n = n} same q = simp (
  validate_message-Envelope q.envelope,
  same,
  get-lookup m "heartbeat_count" q.count_held,
  set_same m "heartbeat_count" (int (pos (suc n))) q.count_held,
)

pub validate_message-IsReply :
    {m : Fields} {c r : String} {n v : ℕ} → IsReply m c r n v → validate_message (dict m) ≡ ok m
unfolding validate_kind eq_str validate_route require_non_negative_int
validate_message-IsReply {m} {c} {r} {v = v} q = simp (
  validate_message-Envelope q.envelope,
  identity_passes q.identity client_reply q.envelope (simp (eq_refl c, eq_refl r)),
  get-lookup q.payload "client_value" q.value_held,
  set_same q.payload "client_value" (int (pos v)) q.value_held,
  set_same m "payload" (dict q.payload) q.envelope.payload_held,
)

validate_error_id-ErrorId :
    (m : Fields) → ErrorId m → validate_error_id (lookup m "request_id") m ≡ ok m
unfolding validate_error_id
validate_error_id-ErrorId m (inl h) = rw h
validate_error_id-ErrorId m (inr (s, h)) =
    simp (h.held, require_string_of_HasText "request_id" h, set-HasText h)

pub validate_message-IsError :
    {m : Fields} {s d c t : String} → IsError m s d c t → validate_message (dict m) ≡ ok m
unfolding validate_kind
validate_message-IsError {m} q = simp (
  validate_message-Envelope q.envelope,
  require_string-HasText "code" q.code_text,
  set-HasText q.code_text,
  require_string-HasText "detail" q.detail_text,
  set-HasText q.detail_text,
  set_same m "payload" (dict q.payload) q.envelope.payload_held,
  validate_error_id-ErrorId m q.id_held,
)

pub validate_message-IsRequest :
    {m : Fields} {c r o : String} {n : ℕ} → IsRequest m c r o n → validate_message (dict m) ≡ ok m
unfolding validate_kind eq_str validate_route
validate_message-IsRequest {m} {c} {r} {o} {n} q = simp (
  validate_message-Envelope q.envelope,
  identity_passes q.identity client_request q.envelope (simp (eq_refl c, eq_refl r)),
  require_string-HasText "operation" q.operation_text,
  set-HasText q.operation_text,
  set_same m "payload" (dict q.payload) q.envelope.payload_held,
)

-- Every valid message passes `validate_message` and comes back unchanged.
pub validate_message-IsValid : (m : Fields) → IsValid m → validate_message (dict m) ≡ ok m
unfolding validate_kind
validate_message-IsValid m (valid_request c r o n q) = validate_message-IsRequest q
validate_message-IsValid m (valid_reply c r n v q) = validate_message-IsReply q
validate_message-IsValid m (valid_heartbeat s d n q) =
    validate_message-IsBeat heartbeat (λ v p. refl) q
validate_message-IsValid m (valid_ack s d n q) =
    validate_message-IsBeat heartbeat_ack (λ v p. refl) q
validate_message-IsValid m (valid_register s r h q) =
    validate_message-IsReport register (λ v p. refl) q
validate_message-IsValid m (valid_membership s r h q) =
    validate_message-IsReport membership (λ v p. refl) q
validate_message-IsValid m (valid_error s d c t q) = validate_message-IsError q
