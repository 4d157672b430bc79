-- ===== src/Server/Invariant.antt =====
-- The consistency of a listener along calls of `_process`.
use fall2026_18749_project.Prelude.{
  ℕ, ◌+◌, inl, inr, String, ◌≡◌, refl, subst, true, some, find-put, ◌==◌, eq_iff, Bool-cases,
}
use fall2026_18749_project.Value.{Fields}
use fall2026_18749_project.Result.{ok}
use fall2026_18749_project.Protocol.WellFormed.{IsRequest}
use fall2026_18749_project.Protocol.Built.{reply_to, reply_to-IsReply}
use fall2026_18749_project.Server.{Stored, Listener, process}
use fall2026_18749_project.Server.Process.{done, stored_for}
use fall2026_18749_project.Server.Replies.{noted}
use fall2026_18749_project.Server.Cases.{IsStored, IsConsistent, Kept, process_cases}

pub some_cancel : {x y : Stored} → some x ≡ some y → x ≡ y
some_cancel e = cc

module _ {m : Fields} {c r o : String} {n : ℕ} (q : IsRequest m c r o n) (s : Listener)
    (inv : IsConsistent s) where
  accepted_stored : (k : ℕ) → o ≡ "increment" → IsStored c (stored_for q k) (some (k + 1))
  accepted_stored k is = record {
    replica = r;
    n = n;
    value = k + 1;
    number = refl;
    operation = is;
    is_reply =
        reply_to-IsReply q.identity.client_text.not_blank q.identity.replica_text.not_blank n
          (k + 1);
    is_counter = refl;
  }

  own_stored :
      (k : ℕ) (c' : String) (p : Stored)
      → o ≡ "increment"
      → (c == c') ≡ true
      → some (stored_for q k) ≡ some p
      → IsStored c' p (some (k + 1))
  own_stored k c' p is same e =
      subst (λ (x : String). IsStored x p (some (k + 1))) ((eq_iff c c').0 same)
        (subst (λ (x : Stored). IsStored c x (some (k + 1))) (some_cancel e) (accepted_stored k is))

  done-IsConsistent : (k : ℕ) → o ≡ "increment" → IsConsistent (done q (noted q s) k)
  done-IsConsistent k is = record {
    replica_text = inv.replica_text;
    stored = λ c' p h. rw find-put (elim (Bool-cases (c == c')) [
      | inl same ↦ rw same (own_stored k c' p is same (rw (find-put, same) at h))
      | inr other ↦ rw other (inv.stored c' p (rw (find-put, other) at h))
    ]);
    unanswered = λ c' k' h known. elim (Bool-cases (c == c')) [
      | inl same ↦ cc (rw (find-put, same) at h)
      | inr other ↦ inv.unanswered c' k' (rw (find-put, other) at h) (rw (find-put, other) at known)
    ];
  }

  kept-IsConsistent : (t : Kept q s) → IsConsistent t.next
  kept-IsConsistent t = record {
    replica_text = rw t.same_id inv.replica_text;
    stored = λ c' p h. rw t.same_counters (inv.stored c' p (rw t.same_replies at h));
    unanswered =
        λ c' k h known. inv.unanswered c' k (rw t.same_replies at h) (rw t.same_counters at known);
  }

  -- A valid request leaves a consistent listener consistent: every stored reply is a valid reply to
  -- an increment of its client and holds the value of the client's counter, and a client without a
  -- stored reply has the counter 0.
  pub process-IsConsistent : IsConsistent (process m s).1
  process-IsConsistent = elim (process_cases q s inv) [
    | inl t ↦ rw t.result (done-IsConsistent t.k t.operation)
    | inr t ↦ rw t.result (kept-IsConsistent t)
  ]

  -- In a consistent state `_process` returns an answer to every valid request: no exception leaves
  -- it.
  pub process_total : (a : Fields) × ((process m s).0 ≡ ok a)
  process_total = elim (process_cases q s inv) [
    | inl t ↦ (reply_to c r n (t.k + 1), rw t.result refl)
    | inr t ↦ (t.answer, rw t.result refl)
  ]
