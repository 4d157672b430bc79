-- ===== src/Gfd.antt =====
-- src/ft_system/gfd/app.py: membership, reports and the connections of the local fault detectors.
-- A handler runs without interruption from one wait to the next. Such a stretch is one call of
-- `handle`, at the place where the handler of the connection `writer` waits.
pub mod Members
pub mod Checks
pub mod Updates
pub mod Effects
pub mod Stretches
pub mod System
pub mod Invariant
pub mod Safety
pub mod Reports
pub mod Shutdown
pub mod Serving
use fall2026_18749_project.Prelude.{
  ℕ, suc, ◌+◌, String, Bool, true, false, not, ◌&&◌, ◌||◌, Option, none, some, List, [], ◌∷◌, ◌++◌,
  Table, find, put, remove, any, ◌==◌, nat_eq, if◌then◌else◌,
}
use fall2026_18749_project.Value.{ℤ, pos, Value, str, bool, Fields, get, eq_str, eq_int}
use fall2026_18749_project.Result.{
  Exn, Result, ok, err, protocol_error, key_error, eof_error, timeout_error, connection_error,
  os_error, state_machine_error, config_error, value_error, runtime_error, type_error,
  foreign_report, expected_registration, already_registered, unexpected_reply, expected_membership,
  guard,
}
use fall2026_18749_project.Result
use fall2026_18749_project.Exec.{Exec, pure, raise, lift, gets, modify, ◌>>=◌, ◌>>◌}
use fall2026_18749_project.Logger.{
  Line, event, add_replica, delete_replica, registered, heartbeat_sent, heartbeat_ack, error,
  unregistered_lfd, registered_lfd,
}
use fall2026_18749_project.Logger
use fall2026_18749_project.Protocol.{text}
use fall2026_18749_project.Protocol
use fall2026_18749_project.Protocol.Validate.{item}
use fall2026_18749_project.Protocol.Build.{build_heartbeat}
use fall2026_18749_project.Access.{text_item, payload_item, as_mapping, as_bool}
use fall2026_18749_project.Gfd.Checks.{at, is_some, check_registration, check_event, check_reply}
use fall2026_18749_project.Gfd.Members.{has, add, discard, sorted}

-- A connection is named by the number of its writer. `outbox` holds the messages written.
pub record Gfd : Type 0 where
  pub lfd_servers : Table String
  pub members : List String
  pub sessions : Table ℕ
  pub log : List Line
  pub outbox : List (ℕ × Fields)

write_line : Line → Exec Gfd (Unit {0})
write_line l = modify (λ s. record s { log = s.log ++ l ∷ [] })

eq_bool : Bool → Bool → Bool
eq_bool true b = b
eq_bool false b = not b

change_member : String → String → Bool → Exec Gfd (Unit {0})
unfolding write_line
change_member lfd_id replica true = do
  write_line (event (add_replica lfd_id replica))
  modify (λ s. record s { members = add s.members replica })
change_member lfd_id replica false = do
  write_line (event (delete_replica lfd_id replica))
  modify (λ s. record s { members = discard s.members replica })

unfoldable pub update : String → Bool → Exec Gfd (Unit {0})
unfolding eq_bool change_member write_line
update lfd_id healthy = do
  servers ← gets (λ s. s.lfd_servers)
  replica ← lift (at servers lfd_id)
  members ← gets (λ s. s.members)
  if eq_bool healthy (has members replica) then pure tt else do
    change_member lfd_id replica healthy
    members ← gets (λ s. s.members)
    write_line (Logger.membership (sorted members))

-- Where the handler of a connection waits. `awaiting` is the loop that reads until the answer to
-- heartbeat `count` comes, `resting` the loop until the next heartbeat is due.
pub data Phase : Type 0 where
  absent opened closed : Phase
  awaiting resting : (lfd_id : String) (count : ℕ) → Phase

-- What a wait ends with: a valid message, an exception of a read or write, or the time limit.
pub data Input : Type 0 where
  arrived : Fields → Input
  failed : Exn → Input
  deadline : Input

-- The exceptions that `_handle` catches.
is_caught : Exn → Bool
is_caught (protocol_error r) = true
is_caught eof_error = true
is_caught timeout_error = true
is_caught connection_error = true
is_caught os_error = true
is_caught _ = false

unfoldable pub report_failure : Option String → Exn → Exec Gfd (Unit {0})
unfolding write_line is_caught
report_failure none e =
    if is_caught e then write_line (error "GFD" (unregistered_lfd e)) else pure tt
report_failure (some lfd_id) e =
    if is_caught e then write_line (error "GFD" (registered_lfd lfd_id e)) else pure tt

-- `self._sessions.get(lfd_id) is writer`
owns : ℕ → Option ℕ → Bool
owns writer none = false
owns writer (some w) = nat_eq w writer

-- The `finally` block.
unfoldable pub clean_up : ℕ → Option String → Exec Gfd (Unit {0})
unfolding owns
clean_up writer none = pure tt
clean_up writer (some lfd_id) = do
  session ← gets (λ s. find s.sessions lfd_id)
  if owns writer session
      then (do modify (λ s. record s { sessions = remove s.sessions lfd_id }); update lfd_id false)
      else pure tt

unfoldable pub leave : ℕ → Option String → Exn → Gfd → Phase × Gfd
leave writer lfd_id e s = (closed, (clean_up writer lfd_id (report_failure lfd_id e s).1).1)

-- The end of a stretch: the next wait, or the way out with what was raised.
unfoldable pub settle : ℕ → String → Result Phase × Gfd → Phase × Gfd
settle writer lfd_id (ok p, s) = (p, s)
settle writer lfd_id (err e, s) = leave writer (some lfd_id) e s

unfoldable pub send_heartbeat : ℕ → String → ℕ → Exec Gfd Phase
unfolding write_line
send_heartbeat writer lfd_id count = do
  write_line (heartbeat_sent "GFD" lfd_id (pos count))
  message ← lift (build_heartbeat "GFD" lfd_id (pos count))
  modify (λ s. record s { outbox = s.outbox ++ (writer, message) ∷ [] })
  pure (awaiting lfd_id count)

-- From the session on, up to the first heartbeat.
unfoldable pub enter : ℕ → String → Bool → Exec Gfd Phase
unfolding write_line
enter writer lfd_id healthy = do
  modify (λ s. record s { sessions = put s.sessions lfd_id writer })
  write_line (event (registered lfd_id))
  update lfd_id healthy
  send_heartbeat writer lfd_id 1

admit_connection : ℕ → Result (String × Bool) → Gfd → Phase × Gfd
admit_connection writer (err e) s = leave writer none e s
admit_connection writer (ok (lfd_id, healthy)) s =
    settle writer lfd_id (enter writer lfd_id healthy s)

unfoldable pub register_connection : ℕ → Fields → Gfd → Phase × Gfd
unfolding admit_connection
register_connection writer message s =
    admit_connection writer
      (check_registration s.lfd_servers (λ lfd. is_some (find s.sessions lfd)) message) s

-- A message while the answer to a heartbeat is due.
unfoldable pub await_reply : String → ℕ → Fields → Exec Gfd Phase
unfolding write_line
await_reply lfd_id count message = do
  servers ← gets (λ s. s.lfd_servers)
  reading ← lift (check_reply servers lfd_id (pos count) message)
  elim reading [
    | some healthy ↦ do update lfd_id healthy; pure (awaiting lfd_id count)
    | none ↦ do write_line (heartbeat_ack "GFD" lfd_id (pos count)); pure (resting lfd_id count)
  ]

-- A message between two heartbeats.
unfoldable pub rest_event : String → ℕ → Fields → Exec Gfd Phase
rest_event lfd_id count message = do
  servers ← gets (λ s. s.lfd_servers)
  healthy ← lift (check_event servers lfd_id message)
  update lfd_id healthy
  pure (resting lfd_id count)

unfoldable pub is_timeout : Exn → Bool
is_timeout timeout_error = true
is_timeout _ = false

-- The next heartbeat is sent when its time has come, and after a TimeoutError of the read as well.
unfoldable pub handle : ℕ → Phase → Input → Gfd → Phase × Gfd
handle writer opened (arrived m) s = register_connection writer m s
handle writer opened (failed e) s = leave writer none e s
handle writer opened deadline s = leave writer none timeout_error s
handle writer (awaiting lfd_id count) (arrived m) s =
    settle writer lfd_id (await_reply lfd_id count m s)
handle writer (awaiting lfd_id count) (failed e) s = leave writer (some lfd_id) e s
handle writer (awaiting lfd_id count) deadline s = leave writer (some lfd_id) timeout_error s
handle writer (resting lfd_id count) (arrived m) s =
    settle writer lfd_id (rest_event lfd_id count m s)
handle writer (resting lfd_id count) (failed e) s =
    if is_timeout e
    then settle writer lfd_id (send_heartbeat writer lfd_id (count + 1) s)
    else leave writer (some lfd_id) e s
handle writer (resting lfd_id count) deadline s =
    settle writer lfd_id (send_heartbeat writer lfd_id (count + 1) s)
handle writer absent i s = (absent, s)
handle writer closed i s = (closed, s)
