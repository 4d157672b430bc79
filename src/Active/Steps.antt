-- ===== src/Active/Steps.antt =====
-- What the interleaved stretches do to the numbers, to the last reply and to the future of the call
-- that is under way.
use fall2026_18749_project.Prelude.{
  ℕ, suc, String, ◌≡◌, refl, sym, ◌∙◌, subst, true, false, inl, inr, Option, some, [], ◌∷◌, ◌++◌,
  leb, nat_eq, arith, Bool-cases,
}
use fall2026_18749_project.Text.{is_blank}
use fall2026_18749_project.Value.{Value, Fields, str, int, pos}
use fall2026_18749_project.Result.{Exn, Result, ok, err, Result-cases}
use fall2026_18749_project.Exec.{Exec, ◌>>◌}
use fall2026_18749_project.Logger.{message_tuple_lem, reply, received}
use fall2026_18749_project.Access.{payload_item-lookup}
use fall2026_18749_project.Protocol.WellFormed.{IsReply, IsValid}
use fall2026_18749_project.Active.{ReplicaConnection, Active, Pending, retire, prune}
use fall2026_18749_project.Active.Receiving.{
  note_received, discard_reply, deliver_reply, sort_reply, accept, take_reply, end_task,
  after_reply, receive, set_result,
}
use fall2026_18749_project.Active.Accepted.{accept-Accepted}

pub record Core : Type 0 where
  pub client_id : String
  pub next_request_num : ℕ
  pub delivered_num : ℕ
  pub last_reply : Option Fields
  pub pending : Pending

abbrev pub core : Active → Core
core s = record {
  client_id = s.client_id;
  next_request_num = s.next_request_num;
  delivered_num = s.delivered_num;
  last_reply = s.last_reply;
  pending = s.pending;
}

-- What the first reply to the request that is due changes.
abbrev pub delivering : ℕ → Fields → Core → Core
delivering number m k = record k {
  delivered_num = number;
  last_reply = some m;
  pending = set_result m k.pending;
}

pub retire-core : (replica : String) (e : Exn) (s : Active) → core (retire replica e s).1 ≡ core s
unfolding retire
retire-core replica e s = ground arith

pub end_task-core : (replica : String) (e : Exn) (s : Active) → core (end_task replica e s) ≡ core s
unfolding end_task
end_task-core replica e s = ground (arith, retire-core replica e s)

pub note_received-core :
    (replica : String) (n : ℕ) (s : Active) → core (note_received replica n s) ≡ core s
unfolding note_received
note_received-core replica n s = ground arith

discard_reply-core :
    (replica : String) (n : ℕ) (v : Value) (s : Active)
    → core (discard_reply replica n v s).1 ≡ core s
unfolding discard_reply
discard_reply-core replica n v s = ground arith

-- The effect of a message from a replica: none, or it is the reply that is due.
pub data Effect (replica : String) (m : Fields) (k l : Core) : Type 0 where
  no_effect : l ≡ k → Effect replica m k l
  delivers :
      (n v : ℕ)
      → k.next_request_num ≡ suc n
      → leb (suc n) k.delivered_num ≡ false
      → IsReply m k.client_id replica n v
      → l ≡ delivering (suc n) m k
      → Effect replica m k l

then_prune-core :
    (x : Exec Active (Unit {0})) (s : Active) → core ((do x; prune) s).1 ≡ core (x s).1
unfolding prune
then_prune-core x s = elim (Result-cases (x s).0) [
  | inl (u, h) ↦ rw h refl
  | inr (e, h) ↦ rw h refl
]

due : (a b : ℕ) → nat_eq a b ≡ true → b ≡ a
due a b h = ground arith

module _ {replica : String} {m : Fields} (n v : ℕ) (w : Value) (s : Active)
    (is_reply : IsReply m s.client_id replica n v) where
  sort_reply-Effect : Effect replica m (core s) (core (sort_reply replica (suc n) w m s).1)
  unfolding sort_reply discard_reply deliver_reply prune
  sort_reply-Effect = elim (Bool-cases (leb (suc n) s.delivered_num)) [
    | inl h ↦ rw h (
        no_effect (
          then_prune-core (discard_reply replica (suc n) w) s
          ∙ discard_reply-core replica (suc n) w s))
    | inr h ↦ elim (Bool-cases (nat_eq (suc n) s.next_request_num)) [
      | inl g ↦ rw h (rw g (delivers n v (due (suc n) s.next_request_num g) h is_reply refl))
      | inr g ↦ rw h (rw g (no_effect refl))
    ]
  ]

after_reply-core :
    (replica : String) (x : Result (Unit {0}) × Active) → core (after_reply replica x) ≡ core x.1
unfolding after_reply
after_reply-core replica (ok u, s) = refl
after_reply-core replica (err e, s) = end_task-core replica e s

module _ (replica : String) (replica_text : is_blank replica ≡ false) (c : ReplicaConnection)
    (s : Active) (client_text : is_blank s.client_id ≡ false) (m : Fields) (valid : IsValid m) where
  sorted-Effect :
      (n v : ℕ) (w : Value) (t : Active)
      → core t ≡ core s
      → IsReply m s.client_id replica n v
      → Effect replica m (core s) (core (sort_reply replica (suc n) w m t).1)
  sorted-Effect n v w t same q =
      subst (λ (x : Core). Effect replica m x (core (sort_reply replica (suc n) w m t).1)) same
        (sort_reply-Effect n v w t
          (subst (λ (x : Core). IsReply m x.client_id replica n v) (sym same) q))

  -- After the checks.
  accepted-Effect :
      (k : ℕ)
      → accept s.client_id replica c m ≡ ok k
      → Effect replica m (core s) (core (take_reply replica c m s).1)
  unfolding take_reply
  accepted-Effect k h =
      let q = accept-Accepted client_text replica_text c m k valid h in
      let t = note_received replica (suc q.n) s in
      rw
        (
          h,
          q.number,
          message_tuple_lem m reply q.is_reply.identity.client_text.held
              q.is_reply.identity.replica_text.held q.is_reply.identity.number_held,
          payload_item-lookup m q.is_reply.payload "client_value" q.is_reply.envelope.payload_held
              q.is_reply.value_held,
        )
        (sorted-Effect q.n q.v (int (pos q.v))
          (record t {
            log =
                t.log
                ++ received (record {
                  client_id = str s.client_id;
                  replica_id = str replica;
                  request_num = int (pos (suc q.n));
                  direction = reply;
                })
                  ∷ [];
          })
          (note_received-core replica (suc q.n) s) q.is_reply)

  take_reply-Effect : Effect replica m (core s) (core (take_reply replica c m s).1)
  unfolding take_reply
  take_reply-Effect = elim (Result-cases (accept s.client_id replica c m)) [
    | inl (k, h) ↦ accepted-Effect k h
    | inr (e, h) ↦ rw h (no_effect refl)
  ]

  pub receive-Effect : Effect replica m (core s) (core (receive replica c (ok m) s))
  unfolding receive
  receive-Effect =
      subst (Effect replica m (core s)) (sym (after_reply-core replica (take_reply replica c m s)))
        take_reply-Effect
