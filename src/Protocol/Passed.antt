-- ===== src/Protocol/Passed.antt =====
-- What a message has gone through once `validate_message` has returned: the envelope and the route.
use fall2026_18749_project.Prelude.{
  ℕ, suc, String, ◌≡◌, subst, true, false, some, arith, eq_iff, ◌==◌,
}
use fall2026_18749_project.Value.{
  ℤ, pos, Value, none_value, int, str, dict, Fields, lookup, get, set, eq_int, eq_str, lookup-get,
  set_same,
}
use fall2026_18749_project.Result.{after_bind, after_guard, Result, ok, ◌>>=◌}
use fall2026_18749_project.Protocol.{
  MessageType, client_request, text, protocol_version, message_type, require_mapping,
  require_string, require_positive_int, message_type-eq-ok, require_mapping-eq-ok,
  require_string-eq-ok, require_positive_int-eq-ok,
}
use fall2026_18749_project.Protocol.Validate.{
  item-lookup, request_id_of, item, validate_route, validate_request_identity, validate_kind,
  validate_message,
}
use fall2026_18749_project.Protocol.WellFormed.{HasText, Envelope, Identity}

-- A field that passes as a text is held, and to write it back changes nothing.
pub HasText-of-get :
    (m : Fields) (k field s : String) → require_string (get m k) field ≡ ok s → HasText m k s
HasText-of-get m k field s h =
    let (e, n) = require_string-eq-ok (get m k) field s h in
    record { held = lookup-get m k (λ (q : str s ≡ none_value). cc) e; not_blank = n }

pub set-HasText : {m : Fields} {k s : String} → HasText m k s → set m k (str s) ≡ m
set-HasText {m} {k} {s} h = set_same m k (str s) h.held

module _ {B : Type 0} {b : B} {C : Type 0} where
  pub after_text :
      (m : Fields) (k field : String) (f : String → Result B)
      → (require_string (get m k) field >>= f) ≡ ok b
      → ((s : String) → HasText m k s → f s ≡ ok b → C)
      → C
  after_text m k field f h next =
      after_bind (require_string (get m k) field) f h
        (λ s e rest. next s (HasText-of-get m k field s e) rest)

  after_mapping :
      (m : Fields) (k field : String) (f : Fields → Result B)
      → (require_mapping (get m k) field >>= f) ≡ ok b
      → ((p : Fields) → lookup m k ≡ some (dict p) → f p ≡ ok b → C)
      → C
  after_mapping m k field f h next = after_bind (require_mapping (get m k) field) f h (λ p e rest.
      next p
        (lookup-get m k (λ (q : dict p ≡ none_value). cc)
          (require_mapping-eq-ok (get m k) field p e))
        rest)

  pub after_positive :
      (m : Fields) (k field : String) (f : ℤ → Result B)
      → (require_positive_int (get m k) field >>= f) ≡ ok b
      → ((n : ℕ) → lookup m k ≡ some (int (pos (suc n))) → f (pos (suc n)) ≡ ok b → C)
      → C
  after_positive m k field f h next =
      after_bind (require_positive_int (get m k) field) f h (λ i e rest.
        let (n, held, is) = require_positive_int-eq-ok (get m k) field i e in
        next n (lookup-get m k (λ (q : int (pos (suc n)) ≡ none_value). cc) held) (rw is at rest))

pub after_item :
    {B : Type 0} {b : B} (m : Fields) (k : String) (v : Value) (f : Value → Result B)
    → lookup m k ≡ some v
    → (item m k >>= f) ≡ ok b
    → f v ≡ ok b
after_item m k v f e h = rw (item-lookup m k e) at h

-- What a successful validation has gone through.
pub record Passed (m w : Fields) : Type 0 where
  pub kind : MessageType
  pub source : String
  pub destination : String
  pub payload : Fields
  pub envelope : Envelope m kind source destination payload
  pub rest : validate_kind kind m payload ≡ ok w

type-HasText :
    {m : Fields} {raw : String} (kind : MessageType)
    → message_type raw ≡ ok kind
    → HasText m "type" raw
    → HasText m "type" (text kind)
type-HasText {m} {raw} kind is_kind h =
    subst (HasText m "type") (message_type-eq-ok raw kind is_kind) h

pub passed :
    (v : Value) (w : Fields) → validate_message v ≡ ok w → (m : Fields) × (v ≡ dict m) × Passed m w
unfolding validate_message
passed v w h = after_bind (require_mapping v "message") _ h λ m is_dict h.
    after_guard (eq_int (get m "version") protocol_version) _ _ h λ version h.
      after_text m "type" "type" _ h λ raw raw_text h.
        after_bind (message_type raw) _ h λ kind is_kind h.
          let kind_text = type-HasText kind is_kind raw_text in
          after_text m "source" "source" _ (rw (set-HasText kind_text) at h) λ source source_text h.
            after_text m "destination" "destination" _ (rw (set-HasText source_text) at h)
              λ destination destination_text h.
                after_mapping m "payload" "payload" _ (rw (set-HasText destination_text) at h)
                  λ payload held h. (
                    m,
                    require_mapping-eq-ok v "message" m is_dict,
                    record {
                      kind = kind;
                      source = source;
                      destination = destination;
                      payload = payload;
                      envelope = record {
                        version = version;
                        type = kind_text.held;
                        source_text = source_text;
                        destination_text = destination_text;
                        payload_held = held;
                      };
                      rest = rw (set_same m "payload" (dict payload) held) at h;
                    },
                  )

pub route_request :
    (s d c r : String) → validate_route true (str s) (str d) c r ≡ ok tt → (s ≡ c) × (d ≡ r)
unfolding validate_route eq_str
route_request s d c r h = ground (arith, eq_iff s c, eq_iff d r)

pub route_reply :
    (s d c r : String) → validate_route false (str s) (str d) c r ≡ ok tt → (s ≡ r) × (d ≡ c)
unfolding validate_route eq_str
route_reply s d c r h = ground (arith, eq_iff s r, eq_iff d c)

-- The identity of a message that passed, and where it must come from and go to.
pub identified :
    {m p : Fields} {kind : MessageType} {s d : String} {u : Unit {0}}
    → Envelope m kind s d p
    → validate_request_identity m ≡ ok u
    → (c : String) × (r : String) × (n : ℕ) × Identity m c r n
      × (validate_route (eq_str (str (text kind)) (text client_request)) (str s) (str d) c r
          ≡ ok tt)
unfolding validate_request_identity
identified {m} {kind = kind} {s} {d} e h = after_text m "client_id" "client_id" _ h λ c c_text h.
    after_text m "replica_id" "replica_id" _ h λ r r_text h.
      after_positive m "request_num" "request_num" _ h λ n number h.
        after_text m "request_id" "request_id" _ h λ id id_text h.
          after_guard (id == request_id_of c (pos (suc n))) _ _ h λ same h. (
            c,
            r,
            n,
            record {
              client_text = c_text;
              replica_text = r_text;
              number_held = number;
              id_text = subst (HasText m "request_id") ((eq_iff _ _).0 same) id_text;
            },
            after_item m "destination" (str d) _ e.destination_text.held (
                after_item m "source" (str s) _ e.source_text.held
                  (after_item m "type" (str (text kind)) _ e.type h)),
          )
