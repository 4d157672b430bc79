-- ===== src/Entry/Detector.antt =====
-- src/ft_system/lfd/main.py: how `run` makes a local fault detector from the configuration.
-- `to_number` stands for `float` of a text, which may raise ValueError.
use fall2026_18749_project.Prelude.{ℕ, ◌*◌, ◌^◌, String, Bool, true, false, Option, none, some}
use fall2026_18749_project.Value.{pos, Float, finite}
use fall2026_18749_project.Result.{Result, ok, argument_error, guard, ◌>>=◌, ◌>>◌}
use fall2026_18749_project.Config.{
  ServerConfig, LfdConfig, GfdConfig, AppConfig, server, lfd, is_positive,
}
use fall2026_18749_project.Lfd
use fall2026_18749_project.Lfd.{Lfd}
use fall2026_18749_project.Reporter
use fall2026_18749_project.Reporter.{Reporter}

-- `positive_float`
unfoldable pub positive_float : (String → Result Float) → String → Result Float
positive_float to_number value = do
  parsed ← to_number value
  guard (is_positive parsed) (argument_error "value must be positive")
  ok parsed

-- The argument `--heartbeat-freq`, where it is given.
unfoldable pub parse_heartbeat_freq :
    (String → Result Float) → Option String → Result (Option Float)
parse_heartbeat_freq to_number none = ok none
parse_heartbeat_freq to_number (some text) = positive_float to_number text >>= λ x. ok (some x)

-- `HeartbeatEndpoint`
pub record HeartbeatEndpoint : Type 0 where
  pub replica_id : String
  pub host : String
  pub port : ℕ

abbrev pub value_or : Option Float → Float → Float
value_or none default = default
value_or (some x) default = x

-- `replace`, where the argument is given.
unfoldable pub with_freq : Option Float → LfdConfig → LfdConfig
with_freq freq l = record l { heartbeat_freq = value_or freq l.heartbeat_freq }

-- The duration `x` = m / 2 ^ k in the unit 1 / 2 ^ (k + j), where `y` = n / 2 ^ j.
unfoldable pub in_units : Float → Float → ℕ
in_units (finite (pos m) k) (finite n j) = m * 2 ^ j
in_units _ _ = 0

unfoldable pub reporter_for : String → String → Option GfdConfig → Option Reporter
reporter_for lfd_id replica_id none = none
reporter_for lfd_id replica_id (some g) = some (Reporter.make lfd_id replica_id)

abbrev pub is_given {ℓ} : {A : Type ℓ} → Option A → Bool
is_given none = false
is_given (some a) = true

pub record Detector : Type 0 where
  pub config : LfdConfig
  pub watched_endpoint : HeartbeatEndpoint
  pub app : Lfd
  pub reporter : Option Reporter

unfoldable pub heartbeat_endpoint : ServerConfig → HeartbeatEndpoint
heartbeat_endpoint s = record {
  replica_id = s.replica_id;
  host = s.advertised_host;
  port = s.heartbeat_port;
}

-- The `LfdApp` of a configuration.
unfoldable pub make_app : LfdConfig → String → Bool → Result Lfd
make_app l replica_id has_callback =
    Lfd.make l.lfd_id replica_id (in_units l.initial_backoff l.max_backoff)
      (in_units l.max_backoff l.initial_backoff) has_callback

-- `run`, up to the first task.
unfoldable pub make_detector : AppConfig → String → Option Float → Result Detector
make_detector c lfd_id freq = do
  configured ← lfd c lfd_id
  let config = with_freq freq configured
  s ← server c config.server_id
  let reporter = reporter_for config.lfd_id s.replica_id c.gfd
  app ← make_app config s.replica_id (is_given reporter)
  ok (record {
    config = config;
    watched_endpoint = heartbeat_endpoint s;
    app = app;
    reporter = reporter;
  })
