-- ===== src/Server/ExactlyOnce.antt =====
-- A client that numbers its increments 1, 2, 3, … and repeats a number until it has the reply.
use fall2026_18749_project.Prelude.{
  ℕ, suc, ◌+◌, ◌⊎◌, inl, inr, String, ◌≡◌, refl, sym, ap, true, Option, none, some, find, find-put,
  arith, eq_refl, Option-cases, subst,
}
use fall2026_18749_project.Value.{pos, Fields}
use fall2026_18749_project.Result.{ok}
use fall2026_18749_project.Protocol.WellFormed.{IsRequest, IsReply}
use fall2026_18749_project.Protocol.Built.{reply_to, reply_to-IsReply}
use fall2026_18749_project.Server.{Stored, Listener, process}
use fall2026_18749_project.Server.Process.{is_fresh, done, stored_for}
use fall2026_18749_project.Server.Replies.{noted, process_increment, process_replay}
use fall2026_18749_project.Server.Cases.{IsStored, IsConsistent}
use fall2026_18749_project.Server.Invariant.{some_cancel}

-- The counter of `c` is `k`, and `k` is the number of its last answered request.
pub record InStep (s : Listener) (c : String) (k : ℕ) : Type 0 where
  pub known : find s.counters c ≡ some k
  pub at_start : find s.last_replies c ≡ none → k ≡ 0
  pub answered : (p : Stored) → find s.last_replies c ≡ some p → p.number ≡ pos k

-- The answer to the request with the number `n` + 1.
pub record Answered (m : Fields) (c : String) (n : ℕ) (s : Listener) : Type 0 where
  pub answer : Fields
  pub replica : String
  pub result : (process m s).0 ≡ ok answer
  pub is_reply : IsReply answer c replica n (suc n)
  pub in_step : InStep (process m s).1 c (suc n)
  pub stored : (p : Stored) × (find (process m s).1.last_replies c ≡ some p) × (p.answer ≡ answer)

module _ {m : Fields} {c r : String} {n : ℕ} (q : IsRequest m c r "increment" n)
    (s : Listener) where
  next_is_fresh : InStep s c n → is_fresh (find s.last_replies c) n ≡ true
  next_is_fresh h = elim (Option-cases (find s.last_replies c)) [
    | inl never ↦ rw never refl
    | inr (p, last) ↦ rw (last, h.answered p last) (ground arith)
  ]

  done-InStep : InStep (done q (noted q s) n) c (suc n)
  done-InStep = record {
    known = rw (find-put, eq_refl c) (ap some one_more);
    at_start = λ h. cc (rw (find-put, eq_refl c) at h);
    answered =
        λ p h. ap (λ (x : Stored). x.number) (sym (some_cancel (rw (find-put, eq_refl c) at h)));
  }
    where
      one_more : n + 1 ≡ suc n
      one_more = omega arith

  next-Answered : InStep s c n → Answered m c n s
  next-Answered h =
      let result = process_increment q s (next_is_fresh h) refl h.known in
      let one_more : n + 1 ≡ suc n = omega arith in
      record {
        answer = reply_to c r n (n + 1);
        replica = r;
        result = rw result refl;
        is_reply =
            subst (λ (k : ℕ). IsReply (reply_to c r n (n + 1)) c r n k) one_more
              (reply_to-IsReply q.identity.client_text.not_blank q.identity.replica_text.not_blank n
                (n + 1));
        in_step = rw result done-InStep;
        stored = (stored_for q n, rw (result, find-put, eq_refl c) refl, refl);
      }

  -- What was stored for the last number is the reply that holds that number.
  stored-IsReply :
      (p : Stored) {k : Option ℕ} (t : IsStored c p k)
      → p.number ≡ pos (suc n)
      → k ≡ some (suc n)
      → IsReply p.answer c t.replica n (suc n)
  stored-IsReply p t number known =
      let same_n : t.n ≡ n = ground (arith, t.number) in
      let same_value : t.value ≡ suc n = ground (arith, t.is_counter) in
      subst (λ (k : ℕ). IsReply p.answer c t.replica k (suc n)) same_n
        (subst (λ (v : ℕ). IsReply p.answer c t.replica t.n v) same_value t.is_reply)

  retry-Answered : IsConsistent s → InStep s c (suc n) → Answered m c n s
  retry-Answered inv h = elim (Option-cases (find s.last_replies c)) [
    | inl never ↦ absurd (omega (arith, h.at_start never))
    | inr (p, last) ↦
        let t = inv.stored c p last in
        let reply_held = stored-IsReply p t (h.answered p last) h.known in
        let result = process_replay q s p last (h.answered p last) t.operation reply_held in
        record {
          answer = p.answer;
          replica = t.replica;
          result = rw result refl;
          is_reply = reply_held;
          in_step =
              rw result (record { known = h.known; at_start = h.at_start; answered = h.answered });
          stored = (p, rw result last, refl);
        }
  ]

  -- For a consistent listener in which the counter of a client equals the number of its last
  -- answered request, call it k: the client's valid increment numbered k + 1, or k again when k is
  -- at least 1, is answered by `_process` with a reply whose client_value is the request's own
  -- number, and afterwards the counter equals that number.
  pub exactly_once : IsConsistent s → InStep s c n ⊎ InStep s c (suc n) → Answered m c n s
  exactly_once inv (inl next) = next-Answered next
  exactly_once inv (inr again) = retry-Answered inv again
