-- ===== src/Protocol/Sound.antt =====
-- What `validate_message` lets pass, kind by kind.
use fall2026_18749_project.Prelude.{
  ℕ, suc, String, ◌≡◌, refl, Bool, true, Option, none, some, eq_iff, inl, inr, ◌==◌,
}
use fall2026_18749_project.Value.{
  pos, Value, none_value, bool, int, str, dict, Fields, lookup, get, set, eq_str, lookup-get,
  set_same,
}
use fall2026_18749_project.Result.{after_bind, after_guard, Result, ok}
use fall2026_18749_project.Protocol.{
  MessageType, client_request, client_reply, heartbeat, heartbeat_ack, error, register, membership,
  require_string, require_non_negative_int, require_string-eq-ok, require_non_negative_int-eq-ok,
}
use fall2026_18749_project.Protocol.Validate.{
  validate_request_identity, validate_kind, validate_message, is_bool, validate_report,
  validate_error_id,
}
use fall2026_18749_project.Protocol.WellFormed.{
  ErrorId, Envelope, IsBeat, IsReport, IsValid, valid_request, valid_reply, valid_heartbeat,
  valid_ack, valid_register, valid_membership, valid_error,
}
use fall2026_18749_project.Protocol.Passed.{
  set-HasText, after_text, after_positive, after_item, passed, route_request, route_reply,
  identified,
}

abbrev Unchanged : Fields → Fields → Type 0
Unchanged m w = (w ≡ m) × IsValid m

-- The write that ends a check of the payload changes nothing.
kept :
    {m p p' w : Fields}
    → lookup m "payload" ≡ some (dict p)
    → p' ≡ p
    → ◌≡◌ {A = Result Fields} (ok (set m "payload" (dict p'))) (ok w)
    → w ≡ m
kept {m} {p} held same h = cc (set_same m "payload" (dict p) held)

request_checked :
    {m p w : Fields} {s d : String}
    → Envelope m client_request s d p
    → validate_kind client_request m p ≡ ok w
    → Unchanged m w
unfolding validate_kind eq_str
request_checked {m} {p} {w} {s} {d} e h =
    after_bind (validate_request_identity m) _ h λ u identity h.
      after_text p "operation" "operation" _ h λ o o_text h.
        let (c, r, n, i, route) = identified e identity in
        let (sc, dr) = route_request s d c r route in
        (
          kept e.payload_held (set-HasText o_text) h,
          valid_request c r o n (record {
            payload = p;
            envelope = rw (sc, dr) at e;
            identity = i;
            operation_text = o_text;
          }),
        )

reply_checked :
    {m p w : Fields} {s d : String}
    → Envelope m client_reply s d p
    → validate_kind client_reply m p ≡ ok w
    → Unchanged m w
unfolding validate_kind eq_str
reply_checked {m} {p} {w} {s} {d} e h = after_bind (validate_request_identity m) _ h λ u identity h.
    after_bind (require_non_negative_int (get p "client_value") "client_value") _ h λ i is_value h.
      let (c, r, n, ident, route) = identified e identity in
      let (sr, dc) = route_reply s d c r route in
      let (v, got, iv) =
        require_non_negative_int-eq-ok (get p "client_value") "client_value" i is_value in
      let held = lookup-get p "client_value" (λ (q : int (pos v) ≡ none_value). cc) got in
      (
        kept e.payload_held (rw iv (set_same p "client_value" (int (pos v)) held)) h,
        valid_reply c r n v (record {
          payload = p;
          envelope = rw (sr, dc) at e;
          identity = ident;
          value_held = held;
        }),
      )

IsBeat-checked :
    {m p w : Fields} (kind : MessageType) {s d : String}
    → Envelope m kind s d p
    → validate_kind heartbeat m p ≡ ok w
    → (w ≡ m) × (n : ℕ) × IsBeat kind m s d n
unfolding validate_kind
IsBeat-checked {m} {p} {w} kind e h =
    after_positive m "heartbeat_count" "heartbeat_count" _ h λ n held h. (
      cc (set_same m "heartbeat_count" (int (pos (suc n))) held),
      n,
      record { payload = p; envelope = e; count_held = held },
    )

bool_of_is_bool : (v : Value) → is_bool v ≡ true → (b : Bool) × (v ≡ bool b)
unfolding is_bool
bool_of_is_bool (bool b) h = (b, refl)
bool_of_is_bool _ h = cc

IsReport-checked :
    {m p w : Fields} (kind : MessageType) {s d : String}
    → Envelope m kind s d p
    → validate_report m p ≡ ok w
    → (w ≡ m) × (r : String) × (b : Bool) × IsReport kind m s r b
unfolding validate_report eq_str
IsReport-checked {m} {p} {w} kind {s} {d} e h =
    after_text p "replica_id" "replica_id" _ h λ r r_text h.
      let h' = rw (set-HasText r_text, set_same m "payload" (dict p) e.payload_held) at h in
      after_guard (is_bool (get p "healthy")) _ _ h' λ is h.
        let (b, got) = bool_of_is_bool (get p "healthy") is in
        after_guard (d == "GFD") _ _
          (after_item m "destination" (str d) _ e.destination_text.held h)
          λ to h. (
            cc,
            r,
            b,
            record {
              payload = p;
              envelope = rw ((eq_iff d "GFD").0 to) at e;
              replica_text = r_text;
              healthy_held = lookup-get p "healthy" (λ (q : bool b ≡ none_value). cc) got;
            },
          )

ErrorId-checked :
    (m : Fields) (o : Option Value) (w : Fields)
    → lookup m "request_id" ≡ o
    → validate_error_id o m ≡ ok w
    → (w ≡ m) × ErrorId m
unfolding validate_error_id
ErrorId-checked m none w e h = (cc, inl e)
ErrorId-checked m (some v) w e h = after_bind (require_string v "request_id") _ h λ s is h.
    let (vs, n) = require_string-eq-ok v "request_id" s is in
    let held = rw vs at e in
    (cc (set_same m "request_id" (str s) held), inr (s, record { held = held; not_blank = n }))

error_checked :
    {m p w : Fields} {s d : String}
    → Envelope m error s d p
    → validate_kind error m p ≡ ok w
    → Unchanged m w
unfolding validate_kind
error_checked {m} {p} {w} {s} {d} e h = after_text p "code" "code" _ h λ c c_text h.
    after_text p "detail" "detail" _ (rw (set-HasText c_text) at h) λ t t_text h.
      let h' = rw (set-HasText t_text, set_same m "payload" (dict p) e.payload_held) at h in
      let (same, id) = ErrorId-checked m (lookup m "request_id") w refl h' in
      (
        same,
        valid_error s d c t (record {
          payload = p;
          envelope = e;
          code_text = c_text;
          detail_text = t_text;
          id_held = id;
        }),
      )

kind_checked :
    (kind : MessageType) {m p w : Fields} {s d : String}
    → Envelope m kind s d p
    → validate_kind kind m p ≡ ok w
    → Unchanged m w
unfolding validate_kind
kind_checked client_request e h = request_checked e h
kind_checked client_reply e h = reply_checked e h
kind_checked heartbeat {s = s} {d = d} e h =
    let (same, n, b) = IsBeat-checked heartbeat e h in (same, valid_heartbeat s d n b)
kind_checked heartbeat_ack {s = s} {d = d} e h =
    let (same, n, b) = IsBeat-checked heartbeat_ack e h in (same, valid_ack s d n b)
kind_checked register {s = s} e h =
    let (same, r, b, q) = IsReport-checked register e h in (same, valid_register s r b q)
kind_checked membership {s = s} e h =
    let (same, r, b, q) = IsReport-checked membership e h in (same, valid_membership s r b q)
kind_checked error e h = error_checked e h

-- What `validate_message` returns is its argument unchanged, and is a valid message: it satisfies a
-- description of the seven kinds of messages that does not follow the order of the checks.
pub validate_message_sound :
    (v : Value) (w : Fields) → validate_message v ≡ ok w → (v ≡ dict w) × IsValid w
validate_message_sound v w h =
    let (m, is_dict, q) = passed v w h in
    let (same, valid) = kind_checked q.kind q.envelope q.rest in (rw same is_dict, rw same valid)
