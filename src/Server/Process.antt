-- ===== src/Server/Process.antt =====
-- What `_process` does with a valid request, on every branch.
use fall2026_18749_project.Prelude.{
  ℕ, suc, ◌+◌, String, ◌≡◌, refl, Bool, true, false, not, ◌&&◌, Option, none, some, [], ◌∷◌, find,
  put, ◌==◌, if◌then◌else◌, arith, nat_eq_refl, leb_refl, eq_refl,
}
use mathlib.Core.List.{◌++◌ as append, append_assoc}
use fall2026_18749_project.Text.{contains, is_blank}
use fall2026_18749_project.Value.{pos, leb_ℤ, eq_ℤ, int, str, Fields}
use fall2026_18749_project.Result.{ok, err, state_machine_error}
use fall2026_18749_project.Logger.{
  Direction, request, reply, before, after, Line, Tuple, received, sending, state, error, event,
  replaying, raised, message_tuple, message_tuple_lem,
}
use fall2026_18749_project.Protocol.Validate.{item-lookup, request_id_of}
use fall2026_18749_project.Protocol.WellFormed.{IsReply, IsRequest}
use fall2026_18749_project.Protocol.Build.{build_error}
use fall2026_18749_project.Protocol.Built.{
  reply_to, reply_to-IsReply, answer_fields, build_error_lem, build_client_reply_lem,
}
use fall2026_18749_project.Access.{
  as_text, text_item-lookup, number_item-lookup, payload_item-lookup,
}
use fall2026_18749_project.StateMachine
use fall2026_18749_project.StateMachine.{apply_increment, apply_unknown, apply_unsupported}
use fall2026_18749_project.Server.{Stored, Listener, error_code, answer_by, execute, process}

is_blank-if :
    (b : Bool) (x y : String)
    → is_blank x ≡ false
    → is_blank y ≡ false
    → is_blank (if b then x else y) ≡ false
is_blank-if true x y h k = h
is_blank-if false x y h k = k

error_code_text : (t : String) → is_blank (error_code t) ≡ false
unfolding error_code is_blank
error_code_text t = is_blank-if (contains t "unsupported operation") _ _ refl refl

-- No reply to this client stands at the number `n` + 1 or above.
abbrev pub is_fresh : Option Stored → ℕ → Bool
is_fresh none n = true
is_fresh (some p) n = not (leb_ℤ (pos (suc n)) p.number)

-- The line of a request or reply in the log.
abbrev pub tuple : String → String → ℕ → Direction → Tuple
tuple c r n d = record {
  client_id = str c;
  replica_id = str r;
  request_num = int (pos (suc n));
  direction = d;
}

abbrev pub log_of : Listener → Line → Listener
log_of s l = record s { log = append s.log (l ∷ []) }

module _ {m : Fields} {c r o : String} {n : ℕ} (q : IsRequest m c r o n) where
  pub logged : (d : Direction) → message_tuple m d ≡ ok (tuple c r n d)
  logged d =
      message_tuple_lem m d q.identity.client_text.held q.identity.replica_text.held
        q.identity.number_held

  pub process-answer_by :
      (s : Listener)
      → process m s
        ≡ answer_by m c
            (pos (suc n))
            o
            (find s.last_replies c)
            (log_of s (received (tuple c r n request)))
  unfolding process as_text
  process-answer_by s = simp (
    logged request,
    text_item-lookup m "client_id" q.identity.client_text.held,
    number_item-lookup m "request_num" q.identity.number_held,
    payload_item-lookup m q.payload "operation" q.envelope.payload_held q.operation_text.held,
  )

  -- An increment that is carried out: the reply, the counter, the stored reply and the log.
  abbrev reply_for : ℕ → Fields
  reply_for k = reply_to c r n (k + 1)

  abbrev pub stored_for : ℕ → Stored
  stored_for k = record { number = pos (suc n); operation = o; answer = reply_for k }

  abbrev pub done : Listener → ℕ → Listener
  done s k = record s {
    counters = put s.counters c (k + 1);
    last_replies = put s.last_replies c (stored_for k);
    log = append s.log (
        state s.replica_id s.counters before (tuple c r n request)
        ∷ state s.replica_id (put s.counters c (k + 1)) after (tuple c r n request)
        ∷ sending (tuple c r n reply)
        ∷ []);
  }

  pub reply_logged : (v : ℕ) → message_tuple (reply_to c r n v) reply ≡ ok (tuple c r n reply)
  reply_logged v =
      let i =
        (reply_to-IsReply q.identity.client_text.not_blank q.identity.replica_text.not_blank n
          v).identity in
      message_tuple_lem _ reply i.client_text.held i.replica_text.held i.number_held

  pub execute_increment :
      (s : Listener) (k : ℕ)
      → o ≡ "increment"
      → find s.counters c ≡ some k
      → execute m c (pos (suc n)) o s ≡ (ok (reply_for k), done s k)
  unfolding execute
  execute_increment s k is known = simp (
    logged request,
    is,
    apply_increment c s.counters k known,
    build_client_reply_lem q (k + 1),
    reply_logged (k + 1),
    append_assoc,
  )

  -- A refusal: the error names the client, the reason and the request.
  abbrev pub refusal : Listener → String → String → Fields
  refusal s code detail = answer_fields s.replica_id c code detail (request_id_of c (pos (suc n)))

  abbrev pub refused : Listener → String → Listener
  refused s t = record s {
    log = append s.log (
        state s.replica_id s.counters before (tuple c r n request)
        ∷ error s.replica_id (raised (state_machine_error t))
        ∷ []);
  }

  refusal_built :
      (s : Listener) (code t : String)
      → is_blank s.replica_id ≡ false
      → is_blank code ≡ false
      → is_blank t ≡ false
      → build_error (str s.replica_id) (str c) code t (some (str (request_id_of c (pos (suc n)))))
        ≡ ok (refusal s code t)
  refusal_built s code t replica_text code_text t_text =
      build_error_lem s.replica_id c code t _ replica_text q.identity.client_text.not_blank
        code_text t_text q.identity.id_text.not_blank

  -- The state machine raised: an error goes back, and only the log has changed.
  pub execute_error :
      (s : Listener) (t : String)
      → is_blank s.replica_id ≡ false
      → is_blank t ≡ false
      → StateMachine.apply c o s.counters ≡ (err (state_machine_error t), s.counters)
      → execute m c (pos (suc n)) o s ≡ (ok (refusal s (error_code t) t), refused s t)
  unfolding execute
  execute_error s t replica_text t_text raises = simp (
    logged request,
    raises,
    item-lookup m "request_id" q.identity.id_text.held,
    refusal_built s (error_code t) t replica_text (error_code_text t) t_text,
    append_assoc,
  )

  pub answer_by_fresh :
      (s : Listener) (p : Option Stored)
      → is_fresh p n ≡ true
      → answer_by m c (pos (suc n)) o p s ≡ execute m c (pos (suc n)) o s
  unfolding answer_by
  answer_by_fresh s none h = refl
  answer_by_fresh s (some p) h = ground arith

  pub answer_by_replay :
      (s : Listener) (p : Stored) {r' : String} {v : ℕ}
      → p.number ≡ pos (suc n)
      → p.operation ≡ o
      → IsReply p.answer c r' n v
      → answer_by m c (pos (suc n)) o (some p) s ≡ (
        ok p.answer,
        record s {
          log = append s.log (
              event (replaying s.replica_id (str (request_id_of c (pos (suc n)))))
              ∷ sending (tuple c r' n reply)
              ∷ []);
        },
      )
  unfolding answer_by
  answer_by_replay s p number operation is_reply = simp (
    number,
    operation,
    leb_refl (suc n),
    nat_eq_refl (suc n),
    eq_refl o,
    item-lookup m "request_id" q.identity.id_text.held,
    message_tuple_lem p.answer reply is_reply.identity.client_text.held
        is_reply.identity.replica_text.held is_reply.identity.number_held,
    append_assoc,
  )

  pub answer_by_stale :
      (s : Listener) (p : Stored)
      → is_blank s.replica_id ≡ false
      → leb_ℤ (pos (suc n)) p.number ≡ true
      → (eq_ℤ (pos (suc n)) p.number && o == p.operation) ≡ false
      → answer_by m c (pos (suc n)) o (some p) s ≡ (
        ok (
            refusal s "stale_request"
              "request number is stale or was reused for another operation"),
        s,
      )
  unfolding answer_by is_blank
  answer_by_stale s p replica_text stale other = simp (
    stale,
    other,
    item-lookup m "request_id" q.identity.id_text.held,
    refusal_built s "stale_request" "request number is stale or was reused for another operation"
        replica_text refl refl,
  )
