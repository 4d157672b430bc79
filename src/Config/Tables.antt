-- ===== src/Config/Tables.antt =====
-- src/ft_system/common/config.py: the tables of servers, clients and detectors.
use Prim.Native.String.{◌++◌}
use fall2026_18749_project.Prelude.{String, not, List, [], ◌∷◌, Table, put, nat_eq}
use fall2026_18749_project.Value.{
  ℤ, pos, Float, finite, Value, float, list, dict, Items, nil, cons, Fields, empty, entry,
}
use fall2026_18749_project.Result.{Result, ok, err, config_error, guard, ◌>>=◌, ◌>>◌}
use fall2026_18749_project.StateMachine.{distinct}
use fall2026_18749_project.Config.{
  ServerConfig, ClientConfig, LfdConfig, section, non_empty_string, port_of, positive_number,
  required, get_default, leb_float,
}

-- `isinstance(raw, Mapping)`
unfoldable pub table_of : Value → String → Result Fields
table_of (dict m) component = ok m
table_of _ component = err (config_error (component ++ " must be a table"))

-- The body of the loop of `_parse_servers`.
unfoldable pub parse_server : String → Value → Result ServerConfig
parse_server key raw = do
  replica_id ← non_empty_string (Value.str key) "replica_id"
  let component = "server " ++ replica_id
  table ← table_of raw component
  client_value ← required table "client_port" component
  client_port ← port_of client_value "client_port"
  heartbeat_value ← required table "heartbeat_port" component
  heartbeat_port ← port_of heartbeat_value "heartbeat_port"
  guard (not (nat_eq client_port heartbeat_port))
      (config_error "client_port and heartbeat_port must be distinct")
  bind_value ← required table "bind_host" component
  bind_host ← non_empty_string bind_value "bind_host"
  advertised_value ← required table "advertised_host" component
  advertised_host ← non_empty_string advertised_value "advertised_host"
  ok (record {
    replica_id = replica_id;
    bind_host = bind_host;
    advertised_host = advertised_host;
    client_port = client_port;
    heartbeat_port = heartbeat_port;
  })

unfoldable pub strings_of : Items → String → Result (List String)
strings_of nil field = ok []
strings_of (cons v vs) field = do
  s ← non_empty_string v field
  rest ← strings_of vs field
  ok (s ∷ rest)

-- `_server_ids`
unfoldable pub server_ids_of : Value → String → Result (List String)
server_ids_of (list (cons v vs)) client_id = do
  ids ← strings_of (cons v vs) ("client " ++ client_id ++ " server_ids")
  guard (distinct ids) (config_error ("client " ++ client_id ++ " server_ids must be unique"))
  ok ids
server_ids_of _ client_id =
    err (config_error ("client " ++ client_id ++ " server_ids must be a non-empty list"))

-- The body of the loop of `_parse_clients`.
unfoldable pub parse_client : (ℤ → Result Float) → String → Value → Result ClientConfig
parse_client to_float key raw = do
  client_id ← non_empty_string (Value.str key) "client_id"
  let component = "client " ++ client_id
  table ← table_of raw component
  ids_value ← required table "server_ids" component
  server_ids ← server_ids_of ids_value client_id
  connect_value ← required table "connect_timeout" component
  connect_timeout ← positive_number to_float connect_value "connect_timeout"
  read_value ← required table "read_timeout" component
  read_timeout ← positive_number to_float read_value "read_timeout"
  ok (record {
    client_id = client_id;
    server_ids = server_ids;
    connect_timeout = connect_timeout;
    read_timeout = read_timeout;
  })

-- The body of the loop of `_parse_lfds`; 0.5 and 5.0 are the defaults.
unfoldable pub parse_lfd : (ℤ → Result Float) → String → Value → Result LfdConfig
parse_lfd to_float key raw = do
  lfd_id ← non_empty_string (Value.str key) "lfd_id"
  let component = "LFD " ++ lfd_id
  table ← table_of raw component
  initial_backoff ←
      positive_number to_float (get_default table "initial_backoff" (float (finite (pos 1) 1)))
        "initial_backoff"
  max_backoff ←
      positive_number to_float (get_default table "max_backoff" (float (finite (pos 5) 0)))
        "max_backoff"
  guard (leb_float initial_backoff max_backoff)
      (config_error "initial_backoff must not exceed max_backoff")
  server_value ← required table "server_id" component
  server_id ← non_empty_string server_value "server_id"
  freq_value ← required table "heartbeat_freq" component
  heartbeat_freq ← positive_number to_float freq_value "heartbeat_freq"
  connect_value ← required table "connect_timeout" component
  connect_timeout ← positive_number to_float connect_value "connect_timeout"
  read_value ← required table "read_timeout" component
  read_timeout ← positive_number to_float read_value "read_timeout"
  ok (record {
    lfd_id = lfd_id;
    server_id = server_id;
    heartbeat_freq = heartbeat_freq;
    connect_timeout = connect_timeout;
    read_timeout = read_timeout;
    initial_backoff = initial_backoff;
    max_backoff = max_backoff;
  })

-- The loop of the three parsers: `parse` is its body, `d` the dict it fills.
unfoldable pub parse_all :
    {A : Type 0} → (String → Value → Result A) → Fields → Table A → Result (Table A)
parse_all parse empty d = ok d
parse_all parse (entry k raw rest) d = parse k raw >>= λ a. parse_all parse rest (put d k a)

unfoldable pub parse_servers : Fields → Result (Table ServerConfig)
parse_servers document = section document "server" >>= λ m. parse_all parse_server m []

unfoldable pub parse_clients : (ℤ → Result Float) → Fields → Result (Table ClientConfig)
parse_clients to_float document =
    section document "client" >>= λ m. parse_all (parse_client to_float) m []

unfoldable pub parse_lfds : (ℤ → Result Float) → Fields → Result (Table LfdConfig)
parse_lfds to_float document = section document "lfd" >>= λ m. parse_all (parse_lfd to_float) m []
