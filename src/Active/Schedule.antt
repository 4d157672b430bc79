-- ===== src/Active/Schedule.antt =====
-- src/ft_system/client/active.py: `send_increment` from wait to wait, `close`, and the interleaving
-- of the calls, of the tasks of the connections and of the callbacks.
use fall2026_18749_project.Prelude.{
  ℕ, ◌+◌, String, Bool, true, not, ◌&&◌, ◌||◌, Option, none, some, List, [], ◌∷◌, ◌++◌, Table, find,
  put, nat_eq, if◌then◌else◌,
}
use fall2026_18749_project.Value.{pos, Fields}
use fall2026_18749_project.Result.{Exn, Result, ok, err, connection_error, timeout_error}
use fall2026_18749_project.Exec.{Exec, lift, gets, modify, ◌>>=◌, ◌>>◌}
use fall2026_18749_project.Logger.{request, sending, message_tuple}
use fall2026_18749_project.Gfd.Members.{has, discard}
use fall2026_18749_project.Protocol.Build.{build_client_request}
use fall2026_18749_project.Active.{
  is_empty, ReplicaConnection, Active, Pending, absent, waiting, resolved, open_replica, retire,
  prune, is_unavailable,
}
use fall2026_18749_project.Active.Receiving.{receive}

-- What a stretch of `send_increment` ends with: a further wait, or the end of the call.
pub data Reaction : Type 0 where
  goes_on : Reaction
  returns : Option Fields → Reaction
  raises : Exn → Reaction

-- From the lock to the broadcast.
unfoldable pub begin : Active → Reaction × Active
begin s =
    if nat_eq s.delivered_num s.next_request_num
    then (returns s.last_reply, record s { next_request_num = s.next_request_num + 1 })
    else if is_empty s.connections
    then (raises connection_error, s)
    else (
      goes_on,
      record s { pending = waiting; unsent = s.connections; unwritten = s.connections },
    )

unfoldable pub note_sent : String → ℕ → Active → Active
note_sent replica number s = elim (find s.all_connections replica) [
  | none ↦ s
  | some c ↦ record s {
    all_connections = put s.all_connections replica (record c { last_sent = number });
  }
]

-- `send` up to the write; the message is written, or the write fails later.
unfoldable pub send : String → Exec Active (Unit {0})
unfolding note_sent
send replica = do
  client_id ← gets (λ s. s.client_id)
  number ← gets (λ s. s.next_request_num)
  m ← lift (build_client_request client_id replica (pos number))
  modify (note_sent replica number)
  t ← lift (message_tuple m request)
  modify (λ s. record s { log = s.log ++ sending t ∷ []; outbox = s.outbox ++ m ∷ [] })

-- The `finally` block: the call is left with an exception.
unfoldable pub interrupt : Exn → Active → Reaction × Active
interrupt e s = (raises e, record s { pending = absent })

unfoldable pub after_send : Result (Unit {0}) × Active → Reaction × Active
unfolding interrupt
after_send (ok u, s) = (goes_on, s)
after_send (err e, s) = interrupt e s

-- A task of `gather` begins.
unfoldable pub send_at : String → Active → Reaction × Active
unfolding after_send send
send_at replica s =
    if has s.unsent replica
    then after_send (send replica (record s { unsent = discard s.unsent replica }))
    else (goes_on, s)

unfoldable pub write_failed : String → Exn → Active → Reaction × Active
unfolding interrupt
write_failed replica e s =
    if is_unavailable e then (goes_on, (retire replica e s).1) else interrupt e s

-- The write has been begun and ends.
unfoldable pub written_at : String → Result (Unit {0}) → Active → Reaction × Active
unfolding write_failed
written_at replica (ok u) s = (goes_on, record s { unwritten = discard s.unwritten replica })
written_at replica (err e) s =
    write_failed replica e (record s { unwritten = discard s.unwritten replica })

unfoldable pub end_write : String → Result (Unit {0}) → Active → Reaction × Active
unfolding written_at
end_write replica r s =
    if has s.unwritten replica && not (has s.unsent replica)
    then written_at replica r s
    else (goes_on, s)

unfoldable pub hand_over : Pending → Active → Reaction × Active
hand_over (resolved m) s =
    (returns (some m), record s { next_request_num = s.next_request_num + 1; pending = absent })
hand_over absent s = (goes_on, s)
hand_over waiting s = (goes_on, s)

-- After the broadcast: the reply is there, or it is not there in time.
unfoldable pub finish : Active → Reaction × Active
unfolding hand_over
finish s = if is_empty s.unwritten then hand_over s.pending s else (goes_on, s)

unfoldable pub time_out : Active → Reaction × Active
unfolding interrupt
time_out s = if is_empty s.unwritten then interrupt timeout_error s else (goes_on, s)

unfoldable pub end_tasks : Table ReplicaConnection → Table ReplicaConnection
end_tasks [] = []
end_tasks ((k, c) ∷ rest) = (k, record c { ended = true }) ∷ end_tasks rest

-- `close` up to the wait for the tasks, which are cancelled.
unfoldable pub close : Active → Active
close s = record s { closing = true; all_connections = end_tasks s.all_connections }

unfoldable pub all_finished : Table ReplicaConnection → Bool
all_finished [] = true
all_finished ((k, c) ∷ rest) = c.finished && all_finished rest

-- The end of `close`, when all tasks are done.
unfoldable pub clear : Active → Active
clear s = if s.closing && all_finished s.all_connections then record s { connections = [] } else s

-- The task of a connection is done: its writer is closed.
unfoldable pub finish_task : String → Active → Active
finish_task replica s = elim (find s.all_connections replica) [
  | none ↦ s
  | some c ↦ record s {
    all_connections = put s.all_connections replica (record c { finished = c.ended || c.finished });
  }
]

-- The start of `connect`.
unfoldable pub connect : Active → Active
connect s = if s.started then s else record s { started = true; unopened = s.endpoints }

-- What can happen next. `called` is the start of a call of `send_increment` that has connected,
-- `pruned` the callback of a finished task.
pub data Event : Type 0 where
  connects : Event
  opened : (replica : String) → Result (Unit {0}) → Event
  arrived : (replica : String) → Result Fields → Event
  done : (replica : String) → Event
  pruned called finished times_out closed cleared : Event
  sent : (replica : String) → Event
  written : (replica : String) → Result (Unit {0}) → Event

-- `open_replica` goes on.
unfoldable pub open_at : String → Result (Unit {0}) → Active → Active
open_at replica r s =
    if has s.unopened replica
    then (open_replica replica r (record s { unopened = discard s.unopened replica })).1
    else s

unfoldable pub receive_at : Option ReplicaConnection → String → Result Fields → Active → Active
receive_at none replica r s = s
receive_at (some c) replica r s = if c.ended then s else receive replica c r s

-- A stretch of a call that is under way: the lock admits one call at a time.
unfoldable pub calling : Pending → Reaction × Active → Active → Reaction × Active
calling absent x s = (goes_on, s)
calling waiting x s = x
calling (resolved m) x s = x

unfoldable pub idle : Pending → Reaction × Active → Active → Reaction × Active
idle absent x s = x
idle waiting x s = (goes_on, s)
idle (resolved m) x s = (goes_on, s)

-- The call goes on when `connect` has begun.
unfoldable pub begin_call : Active → Reaction × Active
begin_call s = if s.started then begin s else (goes_on, s)

-- One stretch. What is not possible in the state changes nothing.
unfoldable pub step : Event → Active → Reaction × Active
step connects s = (goes_on, connect s)
step (opened replica r) s = (goes_on, open_at replica r s)
step (arrived replica r) s = (goes_on, receive_at (find s.all_connections replica) replica r s)
step (done replica) s = (goes_on, finish_task replica s)
step pruned s = (goes_on, (prune s).1)
step called s = idle s.pending (begin_call s) s
step (sent replica) s = calling s.pending (send_at replica s) s
step (written replica r) s = calling s.pending (end_write replica r s) s
step finished s = calling s.pending (finish s) s
step times_out s = calling s.pending (time_out s) s
step closed s = (goes_on, close s)
step cleared s = (goes_on, clear s)

abbrev pub collect : Reaction → List (Option Fields) → List (Option Fields)
collect goes_on rest = rest
collect (raises e) rest = rest
collect (returns m) rest = m ∷ rest

-- A sequence of stretches: what the calls have returned, and the state at the end.
unfoldable pub run : List Event → Active → List (Option Fields) × Active
run [] s = ([], s)
run (e ∷ es) s = let (rest, t) = run es (step e s).1 in (collect (step e s).0 rest, t)
