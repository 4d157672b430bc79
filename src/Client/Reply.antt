-- ===== src/Client/Reply.antt =====
-- Which messages `_validate_reply` accepts.
use fall2026_18749_project.Prelude.{
  ℕ, suc, String, ◌≡◌, refl, ◌≢◌, subst, true, false, arith, eq_iff, ◌==◌, Bool-cases, inl, inr,
}
use fall2026_18749_project.Value.{pos, Value, int, str, Fields, lookup, get-lookup, eq_str, eq_int}
use fall2026_18749_project.Result.{
  Result, ok, err, guard, ◌>>=◌, after_bind, guard-eq-ok, protocol_error, server_error,
}
use fall2026_18749_project.Protocol.{MessageType, client_reply, error, text}
use fall2026_18749_project.Protocol.Validate.{item, item-lookup}
use fall2026_18749_project.Protocol.Build.{request_fields}
use fall2026_18749_project.Protocol.WellFormed.{
  Envelope, Identity, IsReply, IsValid, valid_request, valid_reply, valid_heartbeat, valid_ack,
  valid_register, valid_membership, valid_error,
}
use fall2026_18749_project.Client.{
  validate_reply, check_field, check_fields, same_value, identity_fields,
}

number_eq : (a b : ℕ) → eq_int (int (pos (suc a))) (pos (suc b)) ≡ true → a ≡ b
unfolding eq_int
number_eq a b h = ground arith

never_ok :
    (r : Result Value) {u : Unit {0}}
    → (◌>>=◌ {B = Unit {0}} r λ d. err (protocol_error (server_error d))) ≢ ok u
never_ok (ok v) h = cc
never_ok (err e) h = cc

-- A reply whose four identifiers are read.
module _ {m : Fields} {c' r' : String} {n' : ℕ} (q : Identity m c' r' n') where
  fields_agree :
      (c r : String) (n : ℕ) (u : Unit {0})
      → check_fields m (request_fields c r (pos (suc n))) identity_fields ≡ ok u
      → (c' ≡ c) × (r' ≡ r) × (n' ≡ n)
  unfolding check_fields check_field same_value item lookup eq_str eq_int
  fields_agree c r n u h =
      let h = rw (get-lookup m "client_id" q.client_text.held) at h in
      let h = rw (get-lookup m "replica_id" q.replica_text.held) at h in
      let h = rw (get-lookup m "request_num" q.number_held) at h in
      let h = rw (get-lookup m "request_id" q.id_text.held) at h in
      after_bind (guard (c' == c) _) _ h λ u e h. after_bind (guard (r' == r) _) _ h λ u g h.
        after_bind (guard (eq_int (int (pos (suc n'))) (pos (suc n))) _) _ h λ u k _. (
          (eq_iff c' c).0 (guard-eq-ok _ _ e),
          (eq_iff r' r).0 (guard-eq-ok _ _ g),
          number_eq n' n (guard-eq-ok _ _ k),
        )

-- A message of another kind is refused.
kind_refused :
    {m p : Fields} {kind : MessageType} {s d : String}
    → Envelope m kind s d p
    → eq_str (str (text kind)) (text client_reply) ≡ false
    → (sent : Fields) (u : Unit {0}) → validate_reply m sent ≢ ok u
unfolding validate_reply
kind_refused {m} {kind = kind} e other sent u h =
    let h = rw (item-lookup m "type" e.type) at h in
    elim (Bool-cases (eq_str (str (text kind)) (text error))) [
      | inl is_error ↦ never_ok _ (rw is_error at h)
      | inr not_error ↦ let h = rw not_error at h in let h = rw other at h in cc
    ]

IsReply-accepted :
    {m : Fields} {c' r' : String} {n' v : ℕ}
    → IsReply m c' r' n' v
    → (c r : String) (n : ℕ) (u : Unit {0})
    → validate_reply m (request_fields c r (pos (suc n))) ≡ ok u
    → IsReply m c r n v
unfolding validate_reply eq_str
IsReply-accepted {m} {c'} {r'} {n'} {v} q c r n u h =
    let h = rw (item-lookup m "type" q.envelope.type) at h in
    let (same_client, same_replica, same_number) = fields_agree q.identity c r n u h in
    subst (λ (x : String). IsReply m x r n v) same_client
      (subst (λ (y : String). IsReply m c' y n v) same_replica
        (subst (λ (z : ℕ). IsReply m c' r' z v) same_number q))

pub accepted-IsReply :
    (m : Fields)
    → IsValid m
    → (c r : String) (n : ℕ) (u : Unit {0})
    → validate_reply m (request_fields c r (pos (suc n))) ≡ ok u
    → (v : ℕ) × IsReply m c r n v
unfolding eq_str
accepted-IsReply m (valid_reply c' r' n' v q) c r n u h = (v, IsReply-accepted q c r n u h)
accepted-IsReply m (valid_request c' r' o n' q) c r n u h =
    absurd (kind_refused q.envelope refl _ u h)
accepted-IsReply m (valid_heartbeat s d k q) c r n u h = absurd (kind_refused q.envelope refl _ u h)
accepted-IsReply m (valid_ack s d k q) c r n u h = absurd (kind_refused q.envelope refl _ u h)
accepted-IsReply m (valid_register s x b q) c r n u h = absurd (kind_refused q.envelope refl _ u h)
accepted-IsReply m (valid_membership s x b q) c r n u h =
    absurd (kind_refused q.envelope refl _ u h)
accepted-IsReply m (valid_error s d x t q) c r n u h = absurd (kind_refused q.envelope refl _ u h)
