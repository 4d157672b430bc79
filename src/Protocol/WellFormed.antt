-- ===== src/Protocol/WellFormed.antt =====
-- What a valid message is, independently of the order of the checks in `validate_message`.
use fall2026_18749_project.Prelude.{ℕ, suc, String, ◌≡◌, Bool, true, false, none, some, ◌⊎◌}
use fall2026_18749_project.Text.{is_blank}
use fall2026_18749_project.Value.{pos, bool, int, str, dict, Fields, lookup, get, eq_int}
use fall2026_18749_project.Protocol.{
  MessageType, client_request, client_reply, heartbeat, heartbeat_ack, error, register, membership,
  text, protocol_version,
}
use fall2026_18749_project.Protocol.Validate.{request_id_of}

-- `m` holds this text under `k`, and it is not blank.
pub record HasText (m : Fields) (k s : String) : Type 0 where
  pub held : lookup m k ≡ some (str s)
  pub not_blank : is_blank s ≡ false

-- What all messages have.
pub record Envelope (m : Fields) (kind : MessageType) (source destination : String)
    (payload : Fields) : Type 0 where
  pub version : eq_int (get m "version") protocol_version ≡ true
  pub type : lookup m "type" ≡ some (str (text kind))
  pub source_text : HasText m "source" source
  pub destination_text : HasText m "destination" destination
  pub payload_held : lookup m "payload" ≡ some (dict payload)

-- The fields that name a request, in a request and in its reply. The number is `n` + 1.
pub record Identity (m : Fields) (client replica : String) (n : ℕ) : Type 0 where
  pub client_text : HasText m "client_id" client
  pub replica_text : HasText m "replica_id" replica
  pub number_held : lookup m "request_num" ≡ some (int (pos (suc n)))
  pub id_text : HasText m "request_id" (request_id_of client (pos (suc n)))

pub record IsRequest (m : Fields) (client replica operation : String) (n : ℕ) : Type 0 where
  pub payload : Fields
  pub envelope : Envelope m client_request client replica payload
  pub identity : Identity m client replica n
  pub operation_text : HasText payload "operation" operation

pub record IsReply (m : Fields) (client replica : String) (n v : ℕ) : Type 0 where
  pub payload : Fields
  pub envelope : Envelope m client_reply replica client payload
  pub identity : Identity m client replica n
  pub value_held : lookup payload "client_value" ≡ some (int (pos v))

-- A heartbeat or its acknowledgement, with the number `n` + 1.
pub record IsBeat (kind : MessageType) (m : Fields) (source destination : String) (n : ℕ)
    : Type 0 where
  pub payload : Fields
  pub envelope : Envelope m kind source destination payload
  pub count_held : lookup m "heartbeat_count" ≡ some (int (pos (suc n)))

-- A registration or a membership event.
pub record IsReport (kind : MessageType) (m : Fields) (source replica : String) (healthy : Bool)
    : Type 0 where
  pub payload : Fields
  pub envelope : Envelope m kind source "GFD" payload
  pub replica_text : HasText payload "replica_id" replica
  pub healthy_held : lookup payload "healthy" ≡ some (bool healthy)

abbrev pub ErrorId : Fields → Type 0
ErrorId m = (lookup m "request_id" ≡ none) ⊎ ((s : String) × HasText m "request_id" s)

pub record IsError (m : Fields) (source destination code detail : String) : Type 0 where
  pub payload : Fields
  pub envelope : Envelope m error source destination payload
  pub code_text : HasText payload "code" code
  pub detail_text : HasText payload "detail" detail
  pub id_held : ErrorId m

pub data IsValid (m : Fields) : Type 0 where
  valid_request : (c r o : String) (n : ℕ) → IsRequest m c r o n → IsValid m
  valid_reply : (c r : String) (n v : ℕ) → IsReply m c r n v → IsValid m
  valid_heartbeat : (s d : String) (n : ℕ) → IsBeat heartbeat m s d n → IsValid m
  valid_ack : (s d : String) (n : ℕ) → IsBeat heartbeat_ack m s d n → IsValid m
  valid_register : (s r : String) (h : Bool) → IsReport register m s r h → IsValid m
  valid_membership : (s r : String) (h : Bool) → IsReport membership m s r h → IsValid m
  valid_error : (s d c t : String) → IsError m s d c t → IsValid m
