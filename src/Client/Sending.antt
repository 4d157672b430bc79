-- ===== src/Client/Sending.antt =====
-- When the number of the next request moves.
use fall2026_18749_project.Prelude.{ℕ, ◌+◌, ◌≡◌, suc, subst, ap, ◌∙◌, false, arith, inl, inr}
use fall2026_18749_project.Value.{pos, Fields}
use fall2026_18749_project.Result.{Exn, Result, ok, err, Result-cases}
use fall2026_18749_project.Text.{is_blank}
use fall2026_18749_project.Protocol.WellFormed.{IsValid, IsReply}
use fall2026_18749_project.Protocol.Built.{build_client_request_lem}
use fall2026_18749_project.Client.Reply.{accepted-IsReply}
use fall2026_18749_project.Protocol.Build.{request_fields, build_client_request}
use fall2026_18749_project.Client.{
  Client, Answers, prepare, exchange, settle, send_increment, validate_reply,
}

settle_ok :
    (r : Result Fields) (s : Client) (m : Fields)
    → (settle r s).0 ≡ ok m
    → (r ≡ ok m) × ((settle r s).1.next_request_num ≡ s.next_request_num + 1)
unfolding settle
settle_ok (ok answer) s m h = ground arith
settle_ok (err e) s m h = ground arith

settle_err :
    (r : Result Fields) (s : Client) (e : Exn)
    → (settle r s).0 ≡ err e
    → (settle r s).1.next_request_num ≡ s.next_request_num
unfolding settle
settle_err (ok answer) s m h = ground arith
settle_err (err e) s m h = ground arith

exchange_ok :
    (a : Answers) (sent : Fields) (s : Client) (m : Fields)
    → (exchange a sent s).0 ≡ ok m
    → (a.read ≡ ok m) × (validate_reply m sent ≡ ok tt)
unfolding exchange
exchange_ok a sent s m h = ground arith

exchange_number :
    (a : Answers) (sent : Fields) (s : Client)
    → (exchange a sent s).1.next_request_num ≡ s.next_request_num
unfolding exchange
exchange_number a sent s = ground arith

prepare_number : (a : Answers) (s : Client) → (prepare a s).1.next_request_num ≡ s.next_request_num
unfolding prepare
prepare_number a s = ground arith

prepare_ok :
    (a : Answers) (s : Client) (m : Fields)
    → (prepare a s).0 ≡ ok m
    → build_client_request s.client_id s.replica_id (pos s.next_request_num) ≡ ok m
unfolding prepare
prepare_ok a s m h = ground arith

-- What a call that returned has gone through.
pub record Returned (a : Answers) (s t : Client) (m : Fields) : Type 0 where
  pub sent : Fields
  pub built : build_client_request s.client_id s.replica_id (pos s.next_request_num) ≡ ok sent
  pub was_read : a.read ≡ ok m
  pub matches : validate_reply m sent ≡ ok tt
  pub number : t.next_request_num ≡ s.next_request_num + 1

-- When `send_increment` raises an exception, the number of the next request stays what it was.
pub send_increment_failed :
    (a : Answers) (s : Client) (e : Exn)
    → (send_increment a s).0 ≡ err e
    → (send_increment a s).1.next_request_num ≡ s.next_request_num
unfolding send_increment
send_increment_failed a s e h = elim (Result-cases (prepare a s).0) [
  | inl (sent, p) ↦ ground (
    arith,
    prepare_number a s,
    exchange_number a sent (prepare a s).1,
    settle_err (exchange a sent (prepare a s).1).0 (exchange a sent (prepare a s).1).1 e,
  )
  | inr (x, p) ↦ ground (arith, prepare_number a s)
]

pub send_increment_ok :
    (a : Answers) (s : Client) (m : Fields)
    → (send_increment a s).0 ≡ ok m
    → Returned a s (send_increment a s).1 m
unfolding send_increment
send_increment_ok a s m h = elim (Result-cases (prepare a s).0) [
  | inl (sent, p) ↦
      let t = (prepare a s).1 in
      let h = rw p at h in
      let (settled, number) = settle_ok (exchange a sent t).0 (exchange a sent t).1 m h in
      let (was_read, matches) = exchange_ok a sent t m settled in
      record {
        sent = sent;
        built = prepare_ok a s sent p;
        was_read = was_read;
        matches = matches;
        number =
            rw p (number ∙ ap (λ (k : ℕ). k + 1) (exchange_number a sent t ∙ prepare_number a s));
      }
  | inr (x, p) ↦ absurd (let h = rw p at h in cc)
]

-- When `send_increment` returns a message that is valid, for a client and a replica whose names are
-- not blank and the next request number n + 1, then the message is the replica's reply to this
-- client's request n + 1, and the next request number has gone up by one.
pub send_increment-IsReply :
    (a : Answers) (s : Client) (m : Fields) (n : ℕ)
    → s.next_request_num ≡ suc n
    → is_blank s.client_id ≡ false
    → is_blank s.replica_id ≡ false
    → IsValid m
    → (send_increment a s).0 ≡ ok m
    → ((v : ℕ) × IsReply m s.client_id s.replica_id n v)
      × ((send_increment a s).1.next_request_num ≡ s.next_request_num + 1)
send_increment-IsReply a s m n number client_text replica_text valid h =
    let r = send_increment_ok a s m h in
    let built : build_client_request s.client_id s.replica_id (pos (suc n)) ≡ ok r.sent =
      rw number at r.built in
    let same : r.sent ≡ request_fields s.client_id s.replica_id (pos (suc n)) =
      cc (build_client_request_lem client_text replica_text n) in
    (
      accepted-IsReply m valid s.client_id s.replica_id n tt
          (subst (λ (f : Fields). validate_reply m f ≡ ok tt) same r.matches),
      r.number,
    )
