-- ===== src/Reporter.antt =====
-- src/ft_system/lfd/reporter.py: the connection on which a detector reports the health of its
-- replica to the GFD and answers its heartbeats. The loop of `run`, its two tasks and the calls of
-- `set_health` interleave from wait to wait; a stretch that is not possible changes nothing.
pub mod Reports
pub mod Current
use fall2026_18749_project.Prelude.{
  String, Bool, true, false, not, ◌&&◌, Option, none, some, List, [], ◌∷◌, ◌++◌, if◌then◌else◌,
}
use fall2026_18749_project.Value.{Value, str, Fields, eq_str}
use fall2026_18749_project.Result.{Exn, Result, ok, err, protocol_error, expected_heartbeat, guard}
use fall2026_18749_project.Result
use fall2026_18749_project.Exec.{Exec, lift, gets, modify, ◌>>=◌, ◌>>◌}
use fall2026_18749_project.Logger.{
  Line, event, error, gfd_connection, registered_with_gfd, add_replica, delete_replica,
  server_heartbeat_received, server_heartbeat_ack_sent,
}
use fall2026_18749_project.Protocol.{heartbeat, text}
use fall2026_18749_project.Protocol.Validate.{item}
use fall2026_18749_project.Protocol.Build.{build_membership, build_heartbeat_ack}
use fall2026_18749_project.Client.{is_caught}

-- No connection; the registration is being written; the two tasks run; `run` has ended with an
-- exception that it does not catch.
pub data Session : Type 0 where
  closed registering running stopped : Session

-- `changed` is the event `_changed`; `reporting` says that `report_changes` waits for its message to
-- be written, `answering` that `answer_heartbeats` does, and for which count. `outbox` holds the
-- messages handed to `send` on this connection: the lock passes them on in this order.
pub record Reporter : Type 0 where
  pub lfd_id : String
  pub replica_id : String
  pub healthy : Bool
  pub changed : Bool
  pub session : Session
  pub reporting : Bool
  pub answering : Option Value
  pub outbox : List Fields
  pub log : List Line

-- `__init__`
unfoldable pub make : String → String → Reporter
make lfd_id replica_id = record {
  lfd_id = lfd_id;
  replica_id = replica_id;
  healthy = false;
  changed = false;
  session = closed;
  reporting = false;
  answering = none;
  outbox = [];
  log = [];
}

abbrev pub same_health : Bool → Bool → Bool
same_health true h = h
same_health false h = not h

-- `set_health`
unfoldable pub set_health : Bool → Reporter → Reporter
set_health healthy s = if same_health s.healthy healthy then s else record s {
  healthy = healthy;
  changed = true;
  log =
      s.log
      ++ event (
          if healthy
          then add_replica s.lfd_id s.replica_id
          else delete_replica s.lfd_id s.replica_id)
        ∷ [];
}

-- An exception leaves the body of the loop: the tasks are cancelled and the connection is closed.
unfoldable pub fail : Exn → Reporter → Reporter
fail e s =
    if is_caught e
    then record s { session = closed; log = s.log ++ error s.lfd_id (gfd_connection e) ∷ [] }
    else record s { session = stopped }

-- What follows a stretch that may raise.
unfoldable pub after : Result (Unit {0}) × Reporter → Reporter
unfolding fail
after (ok u, s) = s
after (err e, s) = fail e s

-- A report is built and handed to `send`.
unfoldable pub hand_report : Bool → Exec Reporter (Unit {0})
hand_report is_register = do
  lfd_id ← gets (λ s. s.lfd_id)
  replica_id ← gets (λ s. s.replica_id)
  healthy ← gets (λ s. s.healthy)
  m ← lift (build_membership lfd_id replica_id healthy is_register)
  modify (λ s. record s { outbox = s.outbox ++ m ∷ [] })

-- From the connection that is open to the registration.
unfoldable pub begin_session : Exec Reporter (Unit {0})
unfolding hand_report
begin_session = do
  modify (λ s. record s { changed = false; outbox = [] })
  hand_report true
  modify (λ s. record s { session = registering; reporting = false; answering = none })

-- A round of `report_changes`, up to the write.
unfoldable pub report_change : Exec Reporter (Unit {0})
unfolding hand_report
report_change = do
  modify (λ s. record s { changed = false })
  hand_report false
  modify (λ s. record s { reporting = true })

-- The heartbeat is one of the GFD to this detector: its count.
unfoldable pub check_heartbeat : String → Fields → Result Value
check_heartbeat lfd_id beat = Result.◌>>=◌ (item beat "type") λ kind.
    Result.◌>>◌ (guard (eq_str kind (text heartbeat)) (protocol_error expected_heartbeat)) (
      Result.◌>>=◌ (item beat "source") λ source.
        Result.◌>>◌ (guard (eq_str source "GFD") (protocol_error expected_heartbeat)) (
          Result.◌>>=◌ (item beat "destination") λ destination.
            Result.◌>>◌ (guard (eq_str destination lfd_id) (protocol_error expected_heartbeat))
              (item beat "heartbeat_count")))

-- A round of `answer_heartbeats`, up to the write.
unfoldable pub answer : Fields → Exec Reporter (Unit {0})
answer beat = do
  lfd_id ← gets (λ s. s.lfd_id)
  count ← lift (check_heartbeat lfd_id beat)
  modify (λ s. record s { log = s.log ++ server_heartbeat_received lfd_id (str "GFD") count ∷ [] })
  m ← lift (build_heartbeat_ack beat)
  modify (λ s. record s { outbox = s.outbox ++ m ∷ []; answering = some count })

-- What can happen next: the calls of `set_health`; the connection is opened, or not; a write is done,
-- or fails; the event wakes `report_changes`; a message is read, or the read fails.
pub data Event : Type 0 where
  health : Bool → Event
  connected registered reported answered : Result (Unit {0}) → Event
  woken : Event
  arrived : Result Fields → Event

unfoldable pub connect : Result (Unit {0}) → Reporter → Reporter
unfolding after begin_session
connect (ok u) s = after (begin_session s)
connect (err e) s = fail e s

unfoldable pub register_written : Result (Unit {0}) → Reporter → Reporter
unfolding fail
register_written (ok u) s = record s {
  session = running;
  log = s.log ++ event (registered_with_gfd s.lfd_id) ∷ [];
}
register_written (err e) s = fail e s

unfoldable pub report_written : Result (Unit {0}) → Reporter → Reporter
unfolding fail
report_written (ok u) s = record s { reporting = false }
report_written (err e) s = fail e s

unfoldable pub answer_written : Option Value → Result (Unit {0}) → Reporter → Reporter
unfolding fail
answer_written none r s = s
answer_written (some count) (ok u) s = record s {
  answering = none;
  log = s.log ++ server_heartbeat_ack_sent s.lfd_id (str "GFD") count ∷ [];
}
answer_written (some count) (err e) s = fail e s

-- The next message is read when the last answer has been written.
unfoldable pub receive : Option Value → Result Fields → Reporter → Reporter
unfolding after answer
receive none (ok m) s = after (answer m s)
receive none (err e) s = fail e s
receive (some count) r s = s

-- The stretches that are possible without a connection, during the registration, and after it.
unfoldable pub step_closed : Event → Reporter → Reporter
unfolding connect
step_closed (connected r) s = connect r s
step_closed _ s = s

unfoldable pub step_registering : Event → Reporter → Reporter
unfolding register_written
step_registering (registered r) s = register_written r s
step_registering _ s = s

unfoldable pub step_running : Event → Reporter → Reporter
unfolding report_change after report_written answer_written receive
step_running woken s = if s.changed && not s.reporting then after (report_change s) else s
step_running (reported r) s = if s.reporting then report_written r s else s
step_running (answered r) s = answer_written s.answering r s
step_running (arrived r) s = receive s.answering r s
step_running _ s = s

unfoldable pub step_in : Session → Event → Reporter → Reporter
unfolding step_closed step_registering step_running
step_in closed e s = step_closed e s
step_in registering e s = step_registering e s
step_in running e s = step_running e s
step_in stopped e s = s

unfoldable pub step : Event → Reporter → Reporter
unfolding set_health step_in
step (health h) s = set_health h s
step e s = step_in s.session e s

unfoldable pub run : List Event → Reporter → Reporter
unfolding step
run [] s = s
run (e ∷ es) s = run es (step e s)
