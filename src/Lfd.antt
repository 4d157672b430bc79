-- ===== src/Lfd.antt =====
-- src/ft_system/lfd/app.py: the heartbeat loop of a local fault detector. What the network answers
-- in one round of the loop is given by `Answers`; `stop` may be called while the round waits.
pub mod Rounds
pub mod Health
pub mod Outcomes
pub mod Stopped
pub mod Signalled
use fall2026_18749_project.Prelude.{
  ℕ, suc, ◌+◌, String, Bool, true, false, not, ◌&&◌, ◌||◌, Option, none, some, List, [], ◌∷◌, ◌++◌,
  nat_eq, if◌then◌else◌,
}
use fall2026_18749_project.Value.{ℤ, pos, Value, str, int, Fields, eq_str, eq_int}
use fall2026_18749_project.Result.{
  Exn, Result, ok, err, protocol_error, eof_error, timeout_error, connection_error, os_error,
  not_an_ack, ack_source, ack_destination, ack_count, guard,
}
use fall2026_18749_project.Result
use fall2026_18749_project.Exec.{Exec, pure, raise, lift, gets, attempt, modify, ◌>>=◌, ◌>>◌}
use fall2026_18749_project.Logger.{
  Line, heartbeat_sent, heartbeat_ack, heartbeat_failed, server_failed, server_recovered,
}
use fall2026_18749_project.Protocol.{text}
use fall2026_18749_project.Protocol
use fall2026_18749_project.Protocol.Validate.{item}
use fall2026_18749_project.Protocol.Build.{build_heartbeat}
use fall2026_18749_project.Backoff
use fall2026_18749_project.Backoff.{Backoff}

-- `reports` holds the arguments that `on_health_change` was called with, the latest last.
pub record Lfd : Type 0 where
  pub lfd_id : String
  pub replica_id : String
  pub heartbeat_count : ℕ
  pub healthy : Bool
  pub ever_healthy : Bool
  pub connected : Bool
  pub backoff : Backoff
  pub has_callback : Bool
  pub reports : List Bool
  pub outbox : List Fields
  pub log : List Line

-- `__init__`. The bounds are in the unit of `Backoff`.
unfoldable pub make : String → String → ℕ → ℕ → Bool → Result Lfd
make lfd_id replica_id initial_backoff max_backoff has_callback =
    Result.◌>>=◌ (Backoff.make initial_backoff max_backoff) λ backoff. ok (record {
      lfd_id = lfd_id;
      replica_id = replica_id;
      heartbeat_count = 1;
      healthy = false;
      ever_healthy = false;
      connected = false;
      backoff = backoff;
      has_callback = has_callback;
      reports = [];
      outbox = [];
      log = [];
    })

-- `closing`: the writer of the last round is being closed. `stopped` and `stopped_waiting`: the stop
-- event is set when the round has failed, and during the wait that ends it.
pub record Answers : Type 0 where
  pub closing : Bool
  pub connect : Result (Unit {0})
  pub write : Result (Unit {0})
  pub read : Result Fields
  pub stopped : Bool
  pub stopped_waiting : Bool

unfoldable pub write_line : Line → Exec Lfd (Unit {0})
write_line l = modify (λ s. record s { log = s.log ++ l ∷ [] })

unfoldable pub drop_connection : Exec Lfd (Unit {0})
drop_connection = modify (λ s. record s { connected = false })

notify : Bool → Exec Lfd (Unit {0})
notify healthy =
    modify
      (λ s. record s { reports = if s.has_callback then s.reports ++ healthy ∷ [] else s.reports })

unfoldable pub connect : Answers → Exec Lfd (Unit {0})
unfolding drop_connection
connect a = do
  is_open ← gets (λ s. s.connected)
  if is_open && not a.closing
      then pure tt
      else (do drop_connection; lift a.connect; modify (λ s. record s { connected = true }))

unfoldable pub validate_ack : String → String → ℕ → Fields → Result (Unit {0})
validate_ack replica_id lfd_id sent_count ack = Result.◌>>=◌ (item ack "type") λ kind.
    Result.◌>>=◌ (guard (eq_str kind (text Protocol.heartbeat_ack)) (protocol_error not_an_ack))
      λ _. Result.◌>>=◌ (item ack "source") λ source.
        Result.◌>>=◌ (guard (eq_str source replica_id) (protocol_error ack_source)) λ _.
          Result.◌>>=◌ (item ack "destination") λ destination.
            Result.◌>>=◌ (guard (eq_str destination lfd_id) (protocol_error ack_destination)) λ _.
              Result.◌>>=◌ (item ack "heartbeat_count")
                λ count. guard (eq_int count (pos sent_count)) (protocol_error ack_count)

-- The lines of `_heartbeat_once` after a valid answer.
unfoldable pub mark_healthy : Exec Lfd (Unit {0})
unfolding write_line notify
mark_healthy = do
  recovering ← gets (λ s. s.ever_healthy && not s.healthy)
  changed ← gets (λ s. not s.healthy)
  modify (λ s. record s { healthy = true })
  if changed then notify true else pure tt
  modify (λ s. record s { ever_healthy = true; backoff = Backoff.reset s.backoff })
  replica_id ← gets (λ s. s.replica_id)
  if recovering then write_line (server_recovered replica_id) else pure tt

-- `_heartbeat_once` up to a valid answer.
unfoldable pub exchange : Answers → Exec Lfd (Unit {0})
unfolding connect write_line
exchange a = do
  connect a
  sent_count ← gets (λ s. s.heartbeat_count)
  lfd_id ← gets (λ s. s.lfd_id)
  replica_id ← gets (λ s. s.replica_id)
  heartbeat ← lift (build_heartbeat lfd_id replica_id (pos sent_count))
  write_line (heartbeat_sent lfd_id replica_id (pos sent_count))
  lift a.write
  modify (λ s. record s {
    heartbeat_count = s.heartbeat_count + 1;
    outbox = s.outbox ++ heartbeat ∷ [];
  })
  ack ← lift a.read
  lift (validate_ack replica_id lfd_id sent_count ack)
  write_line (heartbeat_ack lfd_id replica_id (pos sent_count))

unfoldable pub heartbeat_once : Answers → Exec Lfd (Unit {0})
heartbeat_once a = do exchange a; mark_healthy

unfoldable pub mark_failed : Exec Lfd (Unit {0})
unfolding write_line notify
mark_failed = do
  was_healthy ← gets (λ s. s.healthy)
  modify (λ s. record s { healthy = false })
  replica_id ← gets (λ s. s.replica_id)
  if was_healthy then (do notify false; write_line (server_failed replica_id)) else pure tt

unfoldable pub is_caught : Exn → Bool
is_caught (protocol_error r) = true
is_caught eof_error = true
is_caught timeout_error = true
is_caught connection_error = true
is_caught os_error = true
is_caught _ = false

-- How a round of `run` ends: with a wait before the next round, at a stop, or by an exception that
-- the loop does not catch.
pub data Ending : Type 0 where
  waits : (delay : Option ℕ) → Ending
  stops : Ending
  raises : Exn → Ending

unfoldable pub end_of : Answers → Option ℕ → Ending
end_of a delay = if a.stopped_waiting then stops else waits delay

-- The `except` block. `none` as a delay stands for `heartbeat_freq`.
unfoldable pub fail_round : (ℕ → ℕ → ℕ) → Answers → ℕ → Exn → Lfd → Ending × Lfd
unfolding end_of write_line drop_connection
fail_round max_exponent a attempted_count e s =
    let dropped = (drop_connection s).1 in
    if a.stopped
    then (stops, dropped)
    else (let noted =
          if dropped.healthy
          then (write_line
              (heartbeat_failed dropped.lfd_id dropped.replica_id (pos attempted_count) e)
              dropped).1
          else dropped in
        let marked = (mark_failed noted).1 in
        let (delay, backoff) = Backoff.next_delay max_exponent marked.backoff in
        (end_of a (some delay), record marked { backoff = backoff }))

unfoldable pub after_heartbeat : (ℕ → ℕ → ℕ) → Answers → ℕ → Result (Unit {0}) × Lfd → Ending × Lfd
unfolding is_caught end_of drop_connection
after_heartbeat max_exponent a attempted_count (ok u, s) = (end_of a none, s)
after_heartbeat max_exponent a attempted_count (err e, s) =
    if is_caught e
    then fail_round max_exponent a attempted_count e s
    else (raises e, (drop_connection s).1)

-- One round of `run`.
unfoldable pub round : (ℕ → ℕ → ℕ) → Answers → Lfd → Ending × Lfd
unfolding after_heartbeat
round max_exponent a s = after_heartbeat max_exponent a s.heartbeat_count (heartbeat_once a s)

unfoldable pub close_run : Ending → Lfd → Lfd
unfolding drop_connection
close_run (waits delay) s = s
close_run stops s = (drop_connection s).1
close_run (raises e) s = (drop_connection s).1

unfoldable pub goes_on : Ending → Bool
goes_on (waits delay) = true
goes_on stops = false
goes_on (raises e) = false

-- `run`, over the answers of the rounds that it makes.
unfoldable pub run : (ℕ → ℕ → ℕ) → List Answers → Lfd → Lfd
unfolding close_run goes_on
run max_exponent [] s = s
run max_exponent (a ∷ rest) s =
    let (ending, s') = round max_exponent a s in
    let later = run max_exponent rest s' in if goes_on ending then later else close_run ending s'
