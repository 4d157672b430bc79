-- ===== src/Active/Delivery.antt =====
-- The first reply to the request that is due, and the call that waits for it.
use fall2026_18749_project.Prelude.{
  ℕ, suc, String, ◌≡◌, refl, sym, ap, ◌∙◌, subst, ◌++◌, true, false, some, [], ◌∷◌, find, leb,
  arith, nat_eq_refl,
}
use fall2026_18749_project.Text.{is_blank}
use fall2026_18749_project.Value.{int, pos, str, Fields, Value}
use fall2026_18749_project.Result.{ok}
use fall2026_18749_project.Logger.{message_tuple_lem, reply, received}
use fall2026_18749_project.Access.{payload_item-lookup}
use fall2026_18749_project.Config.{leb_float}
use fall2026_18749_project.Protocol.{require_positive_int}
use fall2026_18749_project.Protocol.Built.{build_client_request_lem}
use fall2026_18749_project.Protocol.WellFormed.{IsReply}
use fall2026_18749_project.Client.Accepts.{validate_reply-IsReply}
use fall2026_18749_project.Active.{is_empty, ReplicaConnection, Active, waiting, resolved, prune}
use fall2026_18749_project.Active.Receiving.{
  number_of, or_zero, check_number, natural, accept, note_received, deliver_reply, sort_reply,
  take_reply, after_reply, receive,
}
use fall2026_18749_project.Active.Steps.{Core, note_received-core}
use fall2026_18749_project.Active.Schedule.{
  arrived, finished, step, run, receive_at, calling, finish, hand_over,
}

module _ {client replica : String} (client_text : is_blank client ≡ false)
    (replica_text : is_blank replica ≡ false) (c : ReplicaConnection) {m : Fields} {n v : ℕ}
    (q : IsReply m client replica n v) (not_before : leb c.last_received (suc n) ≡ true)
    (was_sent : leb (suc n) c.last_sent ≡ true) where
  check_number_lem : check_number c (int (pos (suc n))) ≡ ok (pos (suc n))
  unfolding check_number number_of leb_float require_positive_int
  check_number_lem = ground arith

  pub accept-IsReply : accept client replica c m ≡ ok (suc n)
  unfolding accept or_zero natural
  accept-IsReply = simp (
    q.identity.number_held,
    check_number_lem,
    build_client_request_lem client_text replica_text n,
    validate_reply-IsReply q,
  )

-- What the branch for a due reply leaves.
module _ (replica : String) (n : ℕ) (w : Value) (m : Fields) (t : Active)
    (number : t.next_request_num ≡ suc n) (new : leb (suc n) t.delivered_num ≡ false)
    (open_call : t.pending ≡ waiting) where
  sort_reply-due :
      ((sort_reply replica (suc n) w m t).0 ≡ ok tt)
      × ((sort_reply replica (suc n) w m t).1.pending ≡ resolved m)
      × ((sort_reply replica (suc n) w m t).1.unwritten ≡ t.unwritten)
  unfolding sort_reply deliver_reply prune
  sort_reply-due = simp (new, number, nat_eq_refl, open_call) (refl, refl, refl)

note_received-unwritten :
    (replica : String) (n : ℕ) (s : Active) → (note_received replica n s).unwritten ≡ s.unwritten
unfolding note_received
note_received-unwritten replica n s = ground arith

module _ {replica : String} (replica_text : is_blank replica ≡ false) (s : Active)
    (c : ReplicaConnection) (client_text : is_blank s.client_id ≡ false) {m : Fields} {n v : ℕ}
    (q : IsReply m s.client_id replica n v) (not_before : leb c.last_received (suc n) ≡ true)
    (was_sent : leb (suc n) c.last_sent ≡ true) (number : s.next_request_num ≡ suc n)
    (new : leb (suc n) s.delivered_num ≡ false) (open_call : s.pending ≡ waiting) where
  receive-resolved :
      ((receive replica c (ok m) s).pending ≡ resolved m)
      × ((receive replica c (ok m) s).unwritten ≡ s.unwritten)
  unfolding receive take_reply after_reply
  receive-resolved =
      let t = note_received replica (suc n) s in
      let same = note_received-core replica (suc n) s in
      let (returned, held, left) =
        sort_reply-due replica n (int (pos v)) m
          (record t {
            log =
                t.log
                ++ received (record {
                  client_id = str s.client_id;
                  replica_id = str replica;
                  request_num = int (pos (suc n));
                  direction = reply;
                })
                  ∷ [];
          })
          (ap (λ (k : Core). k.next_request_num) same ∙ number)
          (subst (λ (k : Core). leb (suc n) k.delivered_num ≡ false) (sym same) new)
          (ap (λ (k : Core). k.pending) same ∙ open_call) in
      rw
        (
          accept-IsReply client_text replica_text c q not_before was_sent,
          message_tuple_lem m reply q.identity.client_text.held q.identity.replica_text.held
              q.identity.number_held,
          payload_item-lookup m q.payload "client_value" q.envelope.payload_held q.value_held,
          returned,
        )
        (held, left ∙ note_received-unwritten replica (suc n) s)

  -- While a call that has written all its requests waits for the reply to request n + 1, which has
  -- not been delivered yet, a valid reply to it, from a replica whose name is not blank, on a
  -- running connection on which the number has been sent and no higher one received, ends the call:
  -- it returns this reply.
  pub first_reply_returned :
      find s.all_connections replica ≡ some c
      → c.ended ≡ false
      → s.unwritten ≡ []
      → (run (arrived replica (ok m) ∷ finished ∷ []) s).0 ≡ some m ∷ []
  unfolding run step receive_at calling finish hand_over is_empty
  first_reply_returned found running written =
      simp (found, running, receive-resolved.0, receive-resolved.1, written)
