-- ===== src/Server/Connection.antt =====
-- src/ft_system/server/app.py: the loops that serve one connection, `ClientListener.handle` and
-- `HeartbeatListener.handle`. What the stream answers in one round of a loop is given by `Turn`.
use fall2026_18749_project.Prelude.{
  String, Bool, true, false, Option, none, some, List, [], ◌∷◌, ◌++◌, if◌then◌else◌,
}
use fall2026_18749_project.Value.{Value, none_value, str, Fields, get, eq_str}
use fall2026_18749_project.Result.{
  Exn, Result, ok, err, protocol_error, eof_error, timeout_error, connection_error, os_error,
}
use fall2026_18749_project.Exec.{Exec, pure, raise, lift, gets, modify, ◌>>=◌, ◌>>◌}
use fall2026_18749_project.Logger.{
  Line, error, raised, connection_closed, heartbeat_closed, invalid_heartbeat_message,
  server_heartbeat_received, server_heartbeat_ack_sent,
}
use fall2026_18749_project.Protocol.{text, client_request, heartbeat}
use fall2026_18749_project.Protocol.Validate.{item}
use fall2026_18749_project.Protocol.Build.{build_error, build_heartbeat_ack}
use fall2026_18749_project.Server.{Listener, process}

-- `read` is what `read_message` returns or raises, `write` what `write_message` does.
pub record Turn : Type 0 where
  pub read : Result Fields
  pub write : Result (Unit {0})

-- A connection to the client port, with the messages written to it.
pub record Connection : Type 0 where
  pub listener : Listener
  pub sent : List Fields

-- A connection to the heartbeat port.
pub record Beats : Type 0 where
  pub replica_id : String
  pub acks : List Fields
  pub log : List Line

-- OSError and the exceptions below it.
unfoldable pub is_io : Exn → Bool
is_io connection_error = true
is_io os_error = true
is_io timeout_error = true
is_io _ = false

-- An optional argument, where None stands for a missing one.
unfoldable pub given : Value → Option Value
given none_value = none
given v = some v

unfoldable pub on_listener : {A : Type 0} → Exec Listener A → Exec Connection A
on_listener m c = ((m c.listener).0, record c { listener = (m c.listener).1 })

note : Line → Exec Connection (Unit {0})
unfolding on_listener
note l = on_listener (modify (λ s. record s { log = s.log ++ l ∷ [] }))

unfoldable pub write : Result (Unit {0}) → Fields → Exec Connection (Unit {0})
write outcome m = do lift outcome; modify (λ c. record c { sent = c.sent ++ m ∷ [] })

-- The answer to what is no request to this replica. False: the loop ends.
unfoldable pub refuse : Result (Unit {0}) → Fields → Exec Connection Bool
unfolding write given
refuse outcome m = do
  replica_id ← gets (λ c. c.listener.replica_id)
  source ← lift (item m "source")
  answer ← lift (
      build_error (str replica_id) source "invalid_client_message"
        "client port accepts only requests addressed to this replica" (given (get m "request_id")))
  write outcome answer
  pure false

unfoldable pub respond : Result (Unit {0}) → Fields → Exec Connection Bool
unfolding write on_listener
respond outcome m = do response ← on_listener (process m); write outcome response; pure true

-- A round of the loop with a message.
unfoldable pub serve_message : Result (Unit {0}) → Fields → Exec Connection Bool
unfolding refuse respond
serve_message outcome m = do
  kind ← lift (item m "type")
  destination ← lift (item m "destination")
  replica_id ← gets (λ c. c.listener.replica_id)
  if eq_str kind (text client_request)
      then (if eq_str destination replica_id then respond outcome m else refuse outcome m)
      else refuse outcome m

unfoldable pub serve_read : Result (Unit {0}) → Result Fields → Exec Connection Bool
unfolding serve_message note
serve_read outcome (ok m) = serve_message outcome m
serve_read outcome (err eof_error) = pure false
serve_read outcome (err (protocol_error r)) = do
  replica_id ← gets (λ c. c.listener.replica_id)
  note (error replica_id (raised (protocol_error r)))
  pure false
serve_read outcome (err e) = raise e

-- The way on after a round: `rest` is what the further rounds make.
unfoldable pub go_on :
    Result (Unit {0}) × Connection → Result Bool × Connection → Result (Unit {0}) × Connection
unfolding note is_io
go_on rest (ok true, c) = rest
go_on rest (ok false, c) = (ok tt, c)
go_on rest (err e, c) =
    if is_io e then note (error c.listener.replica_id (connection_closed e)) c else (err e, c)

-- `ClientListener.handle`, over the rounds that it makes.
unfoldable pub serve_client : List Turn → Exec Connection (Unit {0})
unfolding serve_read go_on
serve_client [] c = (ok tt, c)
serve_client (t ∷ rest) c =
    let r = serve_read t.write t.read c in let later = serve_client rest r.1 in go_on later r

log_beat : Line → Exec Beats (Unit {0})
log_beat l = modify (λ s. record s { log = s.log ++ l ∷ [] })

unfoldable pub acknowledge : Result (Unit {0}) → Fields → Exec Beats Bool
unfolding log_beat
acknowledge outcome m = do
  replica_id ← gets (λ s. s.replica_id)
  count ← lift (item m "heartbeat_count")
  lfd_id ← lift (item m "source")
  log_beat (server_heartbeat_received replica_id lfd_id count)
  ack ← lift (build_heartbeat_ack m)
  log_beat (server_heartbeat_ack_sent replica_id lfd_id count)
  lift outcome
  modify (λ s. record s { acks = s.acks ++ ack ∷ [] })
  pure true

refuse_beat : Exec Beats Bool
unfolding log_beat
refuse_beat = do
  replica_id ← gets (λ s. s.replica_id)
  log_beat (error replica_id invalid_heartbeat_message)
  pure false

unfoldable pub beat_message : Result (Unit {0}) → Fields → Exec Beats Bool
unfolding refuse_beat acknowledge
beat_message outcome m = do
  kind ← lift (item m "type")
  destination ← lift (item m "destination")
  replica_id ← gets (λ s. s.replica_id)
  if eq_str kind (text heartbeat)
      then (if eq_str destination replica_id then acknowledge outcome m else refuse_beat)
      else refuse_beat

unfoldable pub beat_read : Result (Unit {0}) → Result Fields → Exec Beats Bool
unfolding beat_message log_beat
beat_read outcome (ok m) = beat_message outcome m
beat_read outcome (err eof_error) = pure false
beat_read outcome (err (protocol_error r)) = do
  replica_id ← gets (λ s. s.replica_id)
  log_beat (error replica_id (raised (protocol_error r)))
  pure false
beat_read outcome (err e) = raise e

unfoldable pub beat_on : Result (Unit {0}) × Beats → Result Bool × Beats → Result (Unit {0}) × Beats
unfolding log_beat is_io
beat_on rest (ok true, s) = rest
beat_on rest (ok false, s) = (ok tt, s)
beat_on rest (err e, s) =
    if is_io e then log_beat (error s.replica_id (heartbeat_closed e)) s else (err e, s)

-- `HeartbeatListener.handle`, over the rounds that it makes.
unfoldable pub serve_heartbeats : List Turn → Exec Beats (Unit {0})
unfolding beat_read beat_on
serve_heartbeats [] s = (ok tt, s)
serve_heartbeats (t ∷ rest) s =
    let r = beat_read t.write t.read s in let later = serve_heartbeats rest r.1 in beat_on later r
