-- ===== src/Transport.antt =====
-- src/ft_system/common/transport.py, `encode_message` and `decode_message` of
-- src/ft_system/common/protocol.py, and `open_connection_with_timeout` of
-- src/ft_system/common/retry.py: messages as lines of bytes. `json` and the streams of asyncio are
-- parameters.
pub mod Same
pub mod RoundTrip
pub mod Bounds
use fall2026_18749_project.Prelude.{
  ℕ, String, Bool, true, false, not, Option, none, some, List, [], ◌∷◌, ◌++◌, leb, length,
  if◌then◌else◌,
}
use fall2026_18749_project.Value.{pos, Float, finite, Value, dict, Fields}
use fall2026_18749_project.Result.{
  Exn, Result, ok, err, protocol_error, value_error, eof_error, timeout_error, connection_error,
  os_error, too_long, invalid_json, guard, ◌>>=◌, ◌>>◌,
}
use fall2026_18749_project.Exec
use fall2026_18749_project.Exec.{Exec, lift, modify}
use fall2026_18749_project.Config.{leb_float}
use fall2026_18749_project.Protocol.Validate.{validate_message}

-- What decoding the bytes as UTF-8 and `json.loads` come to: a value, one of the two exceptions
-- `UnicodeDecodeError` and `JSONDecodeError`, or another one.
pub data Loaded : Type 0 where
  loaded : Value → Loaded
  malformed : Loaded
  fails : Exn → Loaded

-- `dumps` is `json.dumps` with the compact separators and sorted keys, encoded as UTF-8.
pub record Json : Type 1 where
  pub Byte : Type 0
  pub newline : Byte
  pub dumps : Value → Result (List Byte)
  pub loads : List Byte → Loaded

abbrev pub max_message_bytes : ℕ
max_message_bytes = 65536

-- A wait with a deadline.
pub data Waited (A : Type 0) : Type 0 where
  in_time : Result A → Waited A
  too_late : Waited A

-- `asyncio.wait_for`, behind the test of the duration.
unfoldable pub within : {A : Type 0} → Float → Waited A → Result A
within timeout w = do
  guard (not (leb_float timeout (finite (pos 0) 0))) (value_error "timeout must be positive")
  elim w [ in_time r ↦ r | too_late ↦ err timeout_error ]

-- `open_connection_with_timeout`, from what `asyncio.open_connection` comes to.
unfoldable pub open_connection_with_timeout : {A : Type 0} → Float → Waited A → Result A
unfolding within
open_connection_with_timeout timeout w = within timeout w

-- A writer, and whether it has been closed.
pub record Writer : Type 0 where
  pub closed : Bool

is_os_error : Exn → Bool
is_os_error timeout_error = true
is_os_error connection_error = true
is_os_error os_error = true
is_os_error _ = false

-- `suppress(OSError)`
suppress : Result (Unit {0}) → Result (Unit {0})
unfolding is_os_error
suppress (ok u) = ok u
suppress (err e) = if is_os_error e then ok tt else err e

-- `close_writer`, from what `wait_closed` returns or raises.
unfoldable pub close_writer : Option Writer → Result (Unit {0}) → Result (Unit {0}) × Option Writer
unfolding suppress
close_writer none closing = (ok tt, none)
close_writer (some w) closing = (suppress closing, some (record { closed = true }))

module _ (json : Json) where
  unfoldable pub encode_message : Fields → Result (List json.Byte)
  encode_message message = do
    validated ← validate_message (dict message)
    text ← json.dumps (dict validated)
    ok (text ++ json.newline ∷ [])

  unfoldable pub decoded : Loaded → Result Value
  decoded (loaded v) = ok v
  decoded malformed = err (protocol_error invalid_json)
  decoded (fails e) = err e

  unfoldable pub decode_message : List json.Byte → Result Fields
  unfolding decoded
  decode_message line = do value ← decoded (json.loads line); validate_message value

  unfoldable pub is_end : List json.Byte → Bool
  is_end [] = true
  is_end (b ∷ line) = false

  -- A `ValueError` of `readline` says that the line is longer than the limit of the stream.
  unfoldable pub line_of : Result (List json.Byte) → Result (List json.Byte)
  line_of (ok line) = ok line
  line_of (err (value_error s)) = err (protocol_error too_long)
  line_of (err e) = err e

  -- `read_message`, from what `readline` returns or raises.
  unfoldable pub read_message : Result (List json.Byte) → Result Fields
  unfolding line_of is_end
  read_message r = do
    line ← line_of r
    guard (not (is_end line)) eof_error
    guard (leb (length line) max_message_bytes) (protocol_error too_long)
    decode_message line

  -- `read_message_with_timeout`
  unfoldable pub read_message_with_timeout : Float → Waited (List json.Byte) → Result Fields
  unfolding within
  read_message_with_timeout timeout (in_time r) = within timeout (in_time (read_message r))
  read_message_with_timeout timeout too_late = within timeout too_late

  -- `write_message`: the state is what has been written, `drain` what the wait for the buffer returns
  -- or raises.
  unfoldable pub write_message : Result (Unit {0}) → Fields → Exec (List json.Byte) (Unit {0})
  write_message drain message = Exec.◌>>=◌ (lift (encode_message message)) λ line.
      Exec.◌>>◌ (lift (guard (leb (length line) max_message_bytes) (protocol_error too_long)))
        (Exec.◌>>◌ (modify (λ written. written ++ line)) (lift drain))
