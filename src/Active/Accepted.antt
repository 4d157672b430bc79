-- ===== src/Active/Accepted.antt =====
-- What a message has passed when the client of all replicas counts it as a reply.
use fall2026_18749_project.Prelude.{
  ℕ, suc, String, ◌≡◌, refl, sym, Bool, true, false, ◌&&◌, leb, arith,
}
use fall2026_18749_project.Text.{is_blank}
use fall2026_18749_project.Value.{ℤ, pos, int, Value, finite, Fields, lookup}
use fall2026_18749_project.Result.{ok, after_bind, after_guard}
use fall2026_18749_project.Config.{leb_float}
use fall2026_18749_project.Protocol.{require_positive_int-eq-ok}
use fall2026_18749_project.Protocol.Build.{request_fields}
use fall2026_18749_project.Protocol.Built.{build_client_request_lem}
use fall2026_18749_project.Protocol.WellFormed.{IsReply, IsValid}
use fall2026_18749_project.Client.{validate_reply}
use fall2026_18749_project.Client.Reply.{accepted-IsReply}
use fall2026_18749_project.Active.{ReplicaConnection}
use fall2026_18749_project.Active.Receiving.{check_number, number_of, natural, or_zero, accept}

-- The number of a positive integer, and its test.
pub record Checked (c : ReplicaConnection) (v : Value) (i : ℤ) : Type 0 where
  pub n : ℕ
  pub value_held : v ≡ int (pos (suc n))
  pub number : i ≡ pos (suc n)
  pub not_before : leb c.last_received (suc n) ≡ true
  pub was_sent : leb (suc n) c.last_sent ≡ true

in_order : (a b : ℕ) → leb_float (finite (pos a) 0) (finite (pos b) 0) ≡ true → leb a b ≡ true
unfolding leb_float
in_order a b h = ground arith

and_true : {a b : Bool} → (a && b) ≡ true → (a ≡ true) × (b ≡ true)
and_true {a = true} h = (refl, h)
and_true {a = false} h = cc

module _ (c : ReplicaConnection) where
  check_number-Checked : (v : Value) (i : ℤ) → check_number c v ≡ ok i → Checked c v i
  unfolding check_number number_of
  check_number-Checked v i h = after_bind (number_of v) _ h λ x e h.
      after_guard
        ((leb_float (finite (pos c.last_received) 0) x && leb_float x (finite (pos c.last_sent) 0))
          && leb_float (finite (pos 1) 0) x)
        _ _ h
        λ t h.
          let (n, is, number) = require_positive_int-eq-ok v "request_num" i h in
          let e : finite (pos (suc n)) 0 ≡ x = let e = rw is at e in cc in
          let t = rw (sym e) at t in
          record {
            n = n;
            value_held = is;
            number = number;
            not_before = in_order c.last_received (suc n) (and_true (and_true t).0).0;
            was_sent = in_order (suc n) c.last_sent (and_true (and_true t).0).1;
          }

-- The number, the reply, and that the number has been sent and is not below the last one received.
pub record Accepted (client replica : String) (c : ReplicaConnection) (m : Fields) (k : ℕ)
    : Type 0 where
  pub n : ℕ
  pub v : ℕ
  pub number : k ≡ suc n
  pub is_reply : IsReply m client replica n v
  pub not_before : leb c.last_received k ≡ true
  pub was_sent : leb k c.last_sent ≡ true

module _ {client replica : String} (client_text : is_blank client ≡ false)
    (replica_text : is_blank replica ≡ false) (c : ReplicaConnection) where
  pub accept-Accepted :
      (m : Fields) (k : ℕ)
      → IsValid m
      → accept client replica c m ≡ ok k
      → Accepted client replica c m k
  unfolding accept natural
  accept-Accepted m k valid h =
      after_bind (check_number c (or_zero (lookup m "request_num"))) _ h λ i e h.
        let q = check_number-Checked c _ i e in
        let h = rw (q.number, build_client_request_lem client_text replica_text q.n) at h in
        after_bind (validate_reply m (request_fields client replica (pos (suc q.n)))) _ h λ u g h.
          let (v, reply) = accepted-IsReply m valid client replica q.n u g in
          let same : suc q.n ≡ k = cc in
          record {
            n = q.n;
            v = v;
            number = sym same;
            is_reply = reply;
            not_before = rw (sym same) q.not_before;
            was_sent = rw (sym same) q.was_sent;
          }
