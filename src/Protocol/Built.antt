-- ===== src/Protocol/Built.antt =====
-- What the builders return: a valid message, whenever their arguments are.
use fall2026_18749_project.Prelude.{
  ℕ, suc, String, ◌≡◌, refl, Bool, true, false, some, inr, if◌then◌else◌,
}
use fall2026_18749_project.Text.{is_blank, is_blank-append}
use fall2026_18749_project.Value.{
  ℤ, pos, int, str, dict, Fields, empty, entry, lookup, get, set, eq_int, eq_str,
}
use fall2026_18749_project.Result.{ok}
use fall2026_18749_project.Protocol.{
  MessageType, client_request, client_reply, heartbeat, heartbeat_ack, error, register, membership,
}
use fall2026_18749_project.Protocol.Validate.{request_id_of, item-lookup, validate_kind}
use fall2026_18749_project.Protocol.Build.{
  request_fields, header, identity_fields, build_client_request, build_client_reply,
  heartbeat_fields, build_heartbeat, build_heartbeat_ack, build_error, reply_fields, report_fields,
  build_membership,
}
use fall2026_18749_project.Protocol.WellFormed.{
  Envelope, Identity, IsRequest, IsReply, IsBeat, IsReport, IsError,
}
use fall2026_18749_project.Protocol.Complete.{
  validate_message-IsRequest, validate_message-IsReply, validate_message-IsBeat,
  validate_message-IsReport, validate_message-IsError,
}

pub request_id_not_blank :
    (c : String) (i : ℤ) → is_blank c ≡ false → is_blank (request_id_of c i) ≡ false
unfolding request_id_of
request_id_not_blank c i h = is_blank-append c _ h

-- A dict of the common shape has the envelope, whatever stands behind it.
header-Envelope :
    (kind : MessageType) {s d : String} {rest p : Fields}
    → is_blank s ≡ false
    → is_blank d ≡ false
    → lookup rest "payload" ≡ some (dict p)
    → Envelope (header kind (str s) (str d) rest) kind s d p
unfolding lookup get eq_int
header-Envelope kind s_text d_text held = record {
  version = refl;
  type = refl;
  source_text = record { held = refl; not_blank = s_text };
  destination_text = record { held = refl; not_blank = d_text };
  payload_held = held;
}

abbrev pub reply_to : String → String → ℕ → ℕ → Fields
reply_to c r n v =
    reply_fields (str r) (str c) (int (pos (suc n))) (str (request_id_of c (pos (suc n)))) (pos v)

module _ {c r : String} (c_text : is_blank c ≡ false) (r_text : is_blank r ≡ false) (n : ℕ) where
  -- The same fields identify a request and its reply.
  header-Identity :
      (kind : MessageType) (s d : String) (p : Fields)
      → Identity
          (header kind (str s) (str d) (
            identity_fields
              (str c)
              (str r)
              (int (pos (suc n)))
              (str (request_id_of c (pos (suc n))))
              p))
          c
          r
          n
  unfolding lookup
  header-Identity kind s d p = record {
    client_text = record { held = refl; not_blank = c_text };
    replica_text = record { held = refl; not_blank = r_text };
    number_held = refl;
    id_text = record { held = refl; not_blank = request_id_not_blank c (pos (suc n)) c_text };
  }

  pub request_fields-IsRequest : IsRequest (request_fields c r (pos (suc n))) c r "increment" n
  unfolding lookup is_blank
  request_fields-IsRequest = record {
    payload = _;
    envelope = header-Envelope client_request c_text r_text refl;
    identity = header-Identity client_request c r _;
    operation_text = record { held = refl; not_blank = refl };
  }

  -- The request built is the literal.
  pub build_client_request_lem :
      build_client_request c r (pos (suc n)) ≡ ok (request_fields c r (pos (suc n)))
  unfolding build_client_request
  build_client_request_lem = validate_message-IsRequest request_fields-IsRequest

  pub reply_to-IsReply : (v : ℕ) → IsReply (reply_to c r n v) c r n v
  unfolding lookup
  reply_to-IsReply v = record {
    payload = _;
    envelope = header-Envelope client_reply r_text c_text refl;
    identity = header-Identity client_reply r c _;
    value_held = refl;
  }

module _ {s d : String} (s_text : is_blank s ≡ false) (d_text : is_blank d ≡ false) where
  pub heartbeat_fields-IsBeat :
      (kind : MessageType) (n : ℕ)
      → IsBeat kind (heartbeat_fields kind (str s) (str d) (int (pos (suc n)))) s d n
  unfolding lookup
  heartbeat_fields-IsBeat kind n = record {
    payload = empty;
    envelope = header-Envelope kind s_text d_text refl;
    count_held = refl;
  }

  pub build_heartbeat_lem :
      (n : ℕ)
      → build_heartbeat s d (pos (suc n))
        ≡ ok (heartbeat_fields heartbeat (str s) (str d) (int (pos (suc n))))
  unfolding build_heartbeat
  build_heartbeat_lem n =
      validate_message-IsBeat heartbeat (λ v p. refl) (heartbeat_fields-IsBeat heartbeat n)

-- The request id that an error answers is the last entry.
abbrev pub answer_fields : String → String → String → String → String → Fields
answer_fields s d code detail id = header error (str s) (str d) (
    entry "payload" (dict (entry "code" (str code) (entry "detail" (str detail) empty)))
      (entry "request_id" (str id) empty))

module _ (s d code detail id : String) (s_text : is_blank s ≡ false) (d_text : is_blank d ≡ false)
    (code_text : is_blank code ≡ false) (detail_text : is_blank detail ≡ false)
    (id_text : is_blank id ≡ false) where
  pub answer_fields-IsError : IsError (answer_fields s d code detail id) s d code detail
  unfolding lookup
  answer_fields-IsError = record {
    payload = _;
    envelope = header-Envelope error s_text d_text refl;
    code_text = record { held = refl; not_blank = code_text };
    detail_text = record { held = refl; not_blank = detail_text };
    id_held = inr (id, record { held = refl; not_blank = id_text });
  }

  pub build_error_lem :
      build_error (str s) (str d) code detail (some (str id))
      ≡ ok (answer_fields s d code detail id)
  unfolding build_error set
  build_error_lem = validate_message-IsError answer_fields-IsError

-- For a valid request and any counter value `build_client_reply` succeeds: the reply goes back to
-- the client with the request's identifiers and that value.
pub build_client_reply_lem :
    {m : Fields} {c r o : String} {n : ℕ} (q : IsRequest m c r o n) (v : ℕ)
    → build_client_reply m (pos v) ≡ ok (reply_to c r n v)
unfolding build_client_reply eq_str
build_client_reply_lem {m} {c} {r} {n = n} q v = simp (
  validate_message-IsRequest q,
  item-lookup m "type" q.envelope.type,
  item-lookup m "replica_id" q.identity.replica_text.held,
  item-lookup m "client_id" q.identity.client_text.held,
  item-lookup m "request_num" q.identity.number_held,
  item-lookup m "request_id" q.identity.id_text.held,
  validate_message-IsReply
      (reply_to-IsReply q.identity.client_text.not_blank q.identity.replica_text.not_blank n v),
)

ack_checked_alike : (v p : Fields) → validate_kind heartbeat_ack v p ≡ validate_kind heartbeat v p
unfolding validate_kind
ack_checked_alike v p = refl

-- For a valid heartbeat `build_heartbeat_ack` succeeds: the acknowledgement goes from its
-- destination back to its source and carries its number.
pub build_heartbeat_ack_lem :
    {m : Fields} {s d : String} {n : ℕ}
    → IsBeat heartbeat m s d n
    → build_heartbeat_ack m
      ≡ ok (heartbeat_fields heartbeat_ack (str d) (str s) (int (pos (suc n))))
unfolding build_heartbeat_ack eq_str
build_heartbeat_ack_lem {m} {n = n} q = simp (
  validate_message-IsBeat heartbeat (λ v p. refl) q,
  item-lookup m "type" q.envelope.type,
  item-lookup m "destination" q.envelope.destination_text.held,
  item-lookup m "source" q.envelope.source_text.held,
  item-lookup m "heartbeat_count" q.count_held,
  validate_message-IsBeat heartbeat_ack ack_checked_alike (
      heartbeat_fields-IsBeat q.envelope.destination_text.not_blank q.envelope.source_text.not_blank
        heartbeat_ack n),
)

-- A report is built for any identifiers that are not blank.
pub report_fields-IsReport :
    (kind : MessageType) {lfd replica : String} (healthy : Bool)
    → is_blank lfd ≡ false
    → is_blank replica ≡ false
    → IsReport kind (report_fields kind lfd replica healthy) lfd replica healthy
unfolding lookup is_blank
report_fields-IsReport kind healthy l_text r_text = record {
  payload = _;
  envelope = header-Envelope kind l_text refl refl;
  replica_text = record { held = refl; not_blank = r_text };
  healthy_held = refl;
}

pub build_membership_lem :
    (lfd replica : String) (healthy is_register : Bool)
    → is_blank lfd ≡ false
    → is_blank replica ≡ false
    → build_membership lfd replica healthy is_register
      ≡ ok (report_fields (if is_register then register else membership) lfd replica healthy)
unfolding build_membership validate_kind
build_membership_lem lfd replica healthy true l r =
    validate_message-IsReport register (λ v p. refl) (report_fields-IsReport register healthy l r)
build_membership_lem lfd replica healthy false l r =
    validate_message-IsReport membership (λ v p. refl)
      (report_fields-IsReport membership healthy l r)
