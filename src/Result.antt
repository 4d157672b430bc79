-- ===== src/Result.antt =====
-- Exceptions, and functions that may raise one.
use fall2026_18749_project.Prelude.{
  String, Bool, true, false, ◌≡◌, refl, ◌⊎◌, inl, inr, if◌then◌else◌,
}
use fall2026_18749_project.Value.{Value}

-- Why a `ProtocolError` was raised: one constructor for each `raise` of the program.
pub data Reason : Type 0 where
  not_an_object not_a_string not_positive not_non_negative : (field : String) → Reason
  wrong_request_id : (expected got : String) → Reason
  request_route reply_route wrong_version healthy_not_boolean not_to_gfd : Reason
  unknown_message_type : String → Reason
  not_a_request not_a_heartbeat : Reason
  too_long invalid_json : Reason
  server_error : Value → Reason
  not_a_reply foreign_reply : Reason
  outside_sequence unexpected_number : Reason
  not_an_ack ack_source ack_destination ack_count : Reason
  expected_heartbeat : Reason
  foreign_report expected_registration already_registered unexpected_reply : Reason
  expected_membership : Reason

pub data Exn : Type 0 where
  protocol_error : Reason → Exn
  state_machine_error : String → Exn
  config_error : String → Exn
  value_error : String → Exn
  runtime_error : String → Exn
  key_error : String → Exn
  argument_error : String → Exn
  cancelled : Exn
  type_error index_error overflow_error eof_error timeout_error connection_error os_error : Exn

pub data Result {ℓ} (A : Type ℓ) : Type ℓ where
  ok : A → Result A
  err : Exn → Result A

-- `if not test: raise e`
abbrev pub guard : Bool → Exn → Result (Unit {0})
guard test e = if test then ok tt else err e

-- What follows a call: it runs on the value, and an exception goes past it.
infixl 5 ◌>>=◌
abbrev pub ◌>>=◌ {ℓ κ} : {A : Type ℓ} {B : Type κ} → Result A → (A → Result B) → Result B
ok value >>= next = next value
err raised >>= next = err raised

infixl 5 ◌>>◌
abbrev pub ◌>>◌ {κ} : {B : Type κ} → Result (Unit {0}) → Result B → Result B
check >> rest = check >>= λ u. rest

pub guard-eq-ok : (b : Bool) (e : Exn) {u : Unit {0}} → guard b e ≡ ok u → b ≡ true
guard-eq-ok true e h = refl
guard-eq-ok false e h = cc

pub Result-cases {ℓ} :
    {A : Type ℓ} (r : Result A) → ((a : A) × (r ≡ ok a)) ⊎ ((e : Exn) × (r ≡ err e))
Result-cases (ok a) = inl (a, refl)
Result-cases (err e) = inr (e, refl)

-- Steps back through a chain that returned: what its first part has checked, and the rest.
module _ {A B : Type 0} {b : B} {C : Type 0} where
  pub after_bind :
      (r : Result A) (f : A → Result B)
      → (r >>= f) ≡ ok b
      → ((a : A) → r ≡ ok a → f a ≡ ok b → C)
      → C
  after_bind (ok a) f h next = next a refl h
  after_bind (err e) f h next = cc

module _ {B : Type 0} {b : B} {C : Type 0} where
  pub after_guard :
      (t : Bool) (e : Exn) (k : Result B)
      → (guard t e >>= λ _. k) ≡ ok b
      → (t ≡ true → k ≡ ok b → C)
      → C
  after_guard t e k h next =
      after_bind (guard t e) (λ _. k) h (λ u g rest. next (guard-eq-ok t e g) rest)
