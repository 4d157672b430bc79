-- ===== src/Server/Cases.antt =====
-- What a listener's state has between two requests, and the two ways in which `_process` can go.
use fall2026_18749_project.Prelude.{
  ℕ, suc, ◌+◌, ◌∙◌, ◌⊎◌, inl, inr, String, ◌≡◌, refl, sym, ap, subst, Bool, true, false, ◌&&◌,
  Option, none, some, find, ◌==◌, arith, eq_iff, Bool-cases, Option-cases,
}
use fall2026_18749_project.Text.{is_blank}
use fall2026_18749_project.Value.{ℤ, pos, leb_ℤ, eq_ℤ, Fields}
use fall2026_18749_project.Result.{ok}
use fall2026_18749_project.Protocol.WellFormed.{IsRequest, IsReply}
use fall2026_18749_project.Protocol.Built.{reply_to}
use fall2026_18749_project.Server.{Stored, Listener, process}
use fall2026_18749_project.Server.Process.{is_fresh, done}
use fall2026_18749_project.Server.Replies.{
  noted, process_increment, process_unknown, process_unsupported, process_replay, process_stale,
}

-- A stored reply is that of the client's latest increment: it holds the value of the counter.
pub record IsStored (c : String) (p : Stored) (counter : Option ℕ) : Type 0 where
  pub replica : String
  pub n : ℕ
  pub value : ℕ
  pub number : p.number ≡ pos (suc n)
  pub operation : p.operation ≡ "increment"
  pub is_reply : IsReply p.answer c replica n value
  pub is_counter : counter ≡ some value

pub record IsConsistent (s : Listener) : Type 0 where
  pub replica_text : is_blank s.replica_id ≡ false
  pub stored :
      (c : String) (p : Stored) → find s.last_replies c ≡ some p → IsStored c p (find s.counters c)
  pub unanswered :
      (c : String) (k : ℕ) → find s.last_replies c ≡ none → find s.counters c ≡ some k → k ≡ 0

pub and_false : (b : Bool) → (b && false) ≡ false
and_false true = refl
and_false false = refl

same_request :
    (a b : ℕ) (x y : String) (i : ℤ)
    → i ≡ pos (suc b)
    → (eq_ℤ (pos (suc a)) i && x == y) ≡ true
    → (a ≡ b) × (x ≡ y)
same_request a b x y i is h = ground (arith, eq_iff x y)

module _ {m : Fields} {c r o : String} {n : ℕ} (q : IsRequest m c r o n) (s : Listener) where
  -- The request is new and can be carried out: the counter goes up by one.
  pub record Accepted : Type 0 where
    pub k : ℕ
    pub operation : o ≡ "increment"
    pub fresh : is_fresh (find s.last_replies c) n ≡ true
    pub known : find s.counters c ≡ some k
    pub result : process m s ≡ (ok (reply_to c r n (k + 1)), done q (noted q s) k)

  -- The answer changes nothing but the log.
  pub record Kept : Type 0 where
    pub answer : Fields
    pub next : Listener
    pub result : process m s ≡ (ok answer, next)
    pub same_id : next.replica_id ≡ s.replica_id
    pub same_counters : next.counters ≡ s.counters
    pub same_replies : next.last_replies ≡ s.last_replies
    pub reason :
        (find s.counters c ≡ none)
        ⊎ ((o == "increment" && is_fresh (find s.last_replies c) n) ≡ false)

  fresh_cases :
      is_blank s.replica_id ≡ false → is_fresh (find s.last_replies c) n ≡ true → Accepted ⊎ Kept
  fresh_cases text fresh = elim (Option-cases (find s.counters c)) [
    | inl unknown ↦ inr (record {
      answer = _;
      next = _;
      result = process_unknown q s fresh text unknown;
      same_id = refl;
      same_counters = refl;
      same_replies = refl;
      reason = inl unknown;
    })
    | inr (k, known) ↦ elim (Bool-cases (o == "increment")) [
      | inl is ↦
          let e = (eq_iff o "increment").0 is in
          inl (record {
            k = k;
            operation = e;
            fresh = fresh;
            known = known;
            result = process_increment q s fresh e known;
          })
      | inr other ↦ inr (record {
        answer = _;
        next = _;
        result = process_unsupported q s fresh text (λ e. cc ((eq_iff o "increment").1 e)) known;
        same_id = refl;
        same_counters = refl;
        same_replies = refl;
        reason = inr (rw other refl);
      })
    ]
  ]

  seen_reason :
      (p : Stored)
      → find s.last_replies c ≡ some p
      → leb_ℤ (pos (suc n)) p.number ≡ true
      → (o == "increment" && is_fresh (find s.last_replies c) n) ≡ false
  seen_reason p last seen = rw last (rw seen (and_false (o == "increment")))

  seen_cases :
      IsConsistent s
      → (p : Stored) → find s.last_replies c ≡ some p
      → leb_ℤ (pos (suc n)) p.number ≡ true
      → Kept
  seen_cases inv p last seen = elim (Bool-cases (eq_ℤ (pos (suc n)) p.number && o == p.operation)) [
    | inl same ↦
        let stored = inv.stored c p last in
        let (nn, oo) = same_request n stored.n o p.operation p.number stored.number same in
        record {
          answer = _;
          next = _;
          result =
              process_replay q s p last (stored.number ∙ ap (λ (k : ℕ). pos (suc k)) (sym nn))
                (sym oo)
                (subst (λ (k : ℕ). IsReply p.answer c stored.replica k stored.value) (sym nn)
                  stored.is_reply);
          same_id = refl;
          same_counters = refl;
          same_replies = refl;
          reason = inr (seen_reason p last seen);
        }
    | inr other ↦ record {
      answer = _;
      next = _;
      result = process_stale q s p last inv.replica_text seen other;
      same_id = refl;
      same_counters = refl;
      same_replies = refl;
      reason = inr (seen_reason p last seen);
    }
  ]

  pub process_cases : IsConsistent s → Accepted ⊎ Kept
  process_cases inv = elim (Option-cases (find s.last_replies c)) [
    | inl never ↦ fresh_cases inv.replica_text (rw never refl)
    | inr (p, last) ↦ elim (Bool-cases (leb_ℤ (pos (suc n)) p.number)) [
      | inl seen ↦ inr (seen_cases inv p last seen)
      | inr above ↦ fresh_cases inv.replica_text (rw last (rw above refl))
    ]
  ]
