-- ===== src/Server/Replies.antt =====
-- The answer of `_process` to a valid request, branch by branch.
use Prim.Native.String.{◌++◌}
use mathlib.Core.List.{◌++◌ as append}
use fall2026_18749_project.Prelude.{
  ℕ, suc, ◌∙◌, ◌+◌, String, ◌≡◌, ◌≢◌, refl, true, false, ◌&&◌, none, some, [], ◌∷◌, find, ◌==◌,
  eq_of_ne,
}
use fall2026_18749_project.Text.{is_blank, is_blank-append}
use fall2026_18749_project.Value.{pos, leb_ℤ, eq_ℤ, str, Fields}
use fall2026_18749_project.Result.{ok}
use fall2026_18749_project.Logger.{request, reply, received, sending, event, replaying}
use fall2026_18749_project.Protocol.Validate.{request_id_of}
use fall2026_18749_project.Protocol.WellFormed.{IsRequest, IsReply}
use fall2026_18749_project.Protocol.Built.{reply_to}
use fall2026_18749_project.StateMachine.{apply_unknown, apply_unsupported}
use fall2026_18749_project.Server.{Stored, Listener, error_code, process}
use fall2026_18749_project.Server.Process.{
  is_fresh, tuple, log_of, done, refusal, refused, process-answer_by, execute_increment,
  execute_error, answer_by_fresh, answer_by_replay, answer_by_stale,
}

module _ {m : Fields} {c r o : String} {n : ℕ} (q : IsRequest m c r o n) (s : Listener) where
  -- The listener once the request is in the log.
  abbrev pub noted : Listener
  noted = log_of s (received (tuple c r n request))

  module _ (fresh : is_fresh (find s.last_replies c) n ≡ true) where
    pub process_increment :
        {k : ℕ}
        → o ≡ "increment"
        → find s.counters c ≡ some k
        → process m s ≡ (ok (reply_to c r n (k + 1)), done q noted k)
    process_increment {k} is known =
        process-answer_by q s
        ∙ answer_by_fresh q noted (find s.last_replies c) fresh
        ∙ execute_increment q noted k is known

    -- On a replica whose name is not blank, a valid request with a fresh number, of a client
    -- without a counter, is answered with the error of the state machine, and no counter and no
    -- stored reply changes.
    pub process_unknown :
        is_blank s.replica_id ≡ false
        → find s.counters c ≡ none
        → let t = "unknown client: " ++ c in
          process m s ≡ (ok (refusal q s (error_code t) t), refused q noted t)
    unfolding is_blank
    process_unknown replica_text unknown =
        process-answer_by q s
        ∙ answer_by_fresh q noted (find s.last_replies c) fresh
        ∙ execute_error q noted _ replica_text (is_blank-append "unknown client: " c refl)
            (apply_unknown c o s.counters unknown)

    -- On a replica whose name is not blank, a valid request of a known client with a fresh number
    -- and an operation other than increment is answered with the error of the state machine, and no
    -- counter and no stored reply changes.
    pub process_unsupported :
        {k : ℕ}
        → is_blank s.replica_id ≡ false
        → o ≢ "increment"
        → find s.counters c ≡ some k
        → let t = "unsupported operation: " ++ o in
          process m s ≡ (ok (refusal q s (error_code t) t), refused q noted t)
    unfolding is_blank
    process_unsupported {k} replica_text other known =
        process-answer_by q s
        ∙ answer_by_fresh q noted (find s.last_replies c) fresh
        ∙ execute_error q noted _ replica_text (is_blank-append "unsupported operation: " o refl)
            (apply_unsupported c o s.counters k known (eq_of_ne o "increment" other))

  module _ (p : Stored) (last : find s.last_replies c ≡ some p) where
    -- A valid request that repeats the number and the operation of the client's stored entry, whose
    -- answer is a valid reply to it, is answered with the stored reply; nothing changes but the
    -- log, by three lines.
    pub process_replay :
        {r' : String} {v : ℕ}
        → p.number ≡ pos (suc n)
        → p.operation ≡ o
        → IsReply p.answer c r' n v
        → process m s ≡ (
          ok p.answer,
          record s {
            log = append (append s.log (received (tuple c r n request) ∷ [])) (
                event (replaying s.replica_id (str (request_id_of c (pos (suc n)))))
                ∷ sending (tuple c r' n reply)
                ∷ []);
          },
        )
    process_replay number operation is_reply =
        process-answer_by q s ∙ rw last (answer_by_replay q noted p number operation is_reply)

    -- On a replica whose name is not blank, a valid request with a number up to the stored one that
    -- differs from it in the number or in the operation is answered with a stale_request error;
    -- nothing changes but the line of the request in the log.
    pub process_stale :
        is_blank s.replica_id ≡ false
        → leb_ℤ (pos (suc n)) p.number ≡ true
        → (eq_ℤ (pos (suc n)) p.number && o == p.operation) ≡ false
        → process m s ≡ (
          ok (
              refusal q s "stale_request"
                "request number is stale or was reused for another operation"),
          noted,
        )
    process_stale replica_text stale other =
        process-answer_by q s ∙ rw last (answer_by_stale q noted p replica_text stale other)
