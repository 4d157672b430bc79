-- ===== src/Client/Accepts.antt =====
-- A reply to the request is accepted, and the names of a client never change.
use fall2026_18749_project.Prelude.{
  ℕ, suc, String, ◌≡◌, false, arith, eq_refl, nat_eq_refl, inl, inr,
}
use fall2026_18749_project.Text.{is_blank}
use fall2026_18749_project.Value.{pos, Fields, lookup, get-lookup, eq_str, eq_int}
use fall2026_18749_project.Result.{Result, ok, err, Result-cases}
use fall2026_18749_project.Logger.{reply, needed, message_tuple, message_tuple_lem}
use fall2026_18749_project.Protocol.Validate.{item, item-lookup}
use fall2026_18749_project.Protocol.Build.{request_fields}
use fall2026_18749_project.Protocol.Built.{build_client_request_lem}
use fall2026_18749_project.Protocol.WellFormed.{IsReply}
use fall2026_18749_project.Client.{
  Client, Answers, validate_reply, check_field, check_fields, same_value, connect, prepare,
  exchange, settle, send_increment,
}

pub validate_reply-IsReply :
    {m : Fields} {c r : String} {n v : ℕ}
    → IsReply m c r n v
    → validate_reply m (request_fields c r (pos (suc n))) ≡ ok tt
unfolding validate_reply check_fields check_field same_value item lookup eq_str eq_int
validate_reply-IsReply {m} {c} {r} {n} q = simp (
  item-lookup m "type" q.envelope.type,
  get-lookup m "client_id" q.identity.client_text.held,
  get-lookup m "replica_id" q.identity.replica_text.held,
  get-lookup m "request_num" q.identity.number_held,
  get-lookup m "request_id" q.identity.id_text.held,
  eq_refl,
  nat_eq_refl,
)

-- The names of the client and of its replica.
abbrev pub SameNames : Client → Client → Type 0
SameNames s t = (t.client_id ≡ s.client_id) × (t.replica_id ≡ s.replica_id)

prepare-SameNames : (a : Answers) (s : Client) → SameNames s (prepare a s).1
unfolding prepare
prepare-SameNames a s = ground arith

exchange-SameNames : (a : Answers) (m : Fields) (s : Client) → SameNames s (exchange a m s).1
unfolding exchange
exchange-SameNames a m s = ground arith

settle-SameNames : (r : Result Fields) (s : Client) → SameNames s (settle r s).1
unfolding settle
settle-SameNames (ok m) s = ground arith
settle-SameNames (err e) s = ground arith

pub send_increment-SameNames : (a : Answers) (s : Client) → SameNames s (send_increment a s).1
unfolding send_increment
send_increment-SameNames a s = elim (Result-cases (prepare a s).0) [
  | inl (m, p) ↦
      let t = (prepare a s).1 in
      rw p (
        ground (
          arith,
          prepare-SameNames a s,
          exchange-SameNames a m t,
          settle-SameNames (exchange a m t).0 (exchange a m t).1,
        ))
  | inr (e, p) ↦ rw p (prepare-SameNames a s)
]

exchange_answered :
    (a : Answers) (sent m : Fields) (s : Client)
    → a.write ≡ ok tt
    → a.read ≡ ok m
    → validate_reply m sent ≡ ok tt
    → (exchange a sent s).0 ≡ ok m
unfolding exchange
exchange_answered a sent m s w r v = ground arith

module _ (a : Answers) (s : Client) (n : ℕ) (number : s.next_request_num ≡ suc n)
    (client_text : is_blank s.client_id ≡ false) (replica_text : is_blank s.replica_id ≡ false)
    (open_ok : a.connect ≡ ok tt) where
  prepare_lem : (prepare a s).0 ≡ ok (request_fields s.client_id s.replica_id (pos (suc n)))
  unfolding prepare connect message_tuple needed lookup
  prepare_lem = ground (arith, build_client_request_lem client_text replica_text n)

  pub send_increment_answered :
      {m : Fields} {v : ℕ}
      → a.write ≡ ok tt
      → a.read ≡ ok m
      → IsReply m s.client_id s.replica_id n v
      → (send_increment a s).0 ≡ ok m
  unfolding send_increment settle
  send_increment_answered {m} w r q =
      let sent = request_fields s.client_id s.replica_id (pos (suc n)) in
      rw (
        prepare_lem,
        exchange_answered a sent m (prepare a s).1 w r (validate_reply-IsReply q),
        message_tuple_lem m reply q.identity.client_text.held q.identity.replica_text.held
            q.identity.number_held,
      )
