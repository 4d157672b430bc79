-- ===== src/Config/Deployment.antt =====
-- src/ft_system/common/config.py: `load_config`, from the document that `tomllib.load` has read.
use Prim.Native.String.{◌++◌}
use fall2026_18749_project.Prelude.{
  String, Bool, true, false, Option, none, some, List, [], ◌∷◌, Table, find,
}
use fall2026_18749_project.Value.{ℤ, pos, Float, finite, Value, float, Fields, lookup, get}
use fall2026_18749_project.Result.{Result, ok, config_error, guard, ◌>>=◌, ◌>>◌}
use fall2026_18749_project.Config.{
  ServerConfig, ClientConfig, LfdConfig, GfdConfig, AppConfig, section, non_empty_string, port_of,
  positive_number, get_default,
}
use fall2026_18749_project.Config.Tables.{parse_servers, parse_clients, parse_lfds}

-- `k in d`
unfoldable pub has_key {ℓ} : {V : Type ℓ} → Table V → String → Bool
has_key d k = elim (find d k) [ none ↦ false | some v ↦ true ]

unfoldable pub check_ids : Table ServerConfig → String → List String → Result (Unit {0})
check_ids servers client_id [] = ok tt
check_ids servers client_id (server_id ∷ rest) = do
  guard (has_key servers server_id)
      (config_error ("client " ++ client_id ++ " references unknown server " ++ server_id))
  check_ids servers client_id rest

unfoldable pub check_clients : Table ServerConfig → Table ClientConfig → Result (Unit {0})
check_clients servers [] = ok tt
check_clients servers ((k, c) ∷ rest) = do
  check_ids servers c.client_id c.server_ids
  check_clients servers rest

unfoldable pub check_lfds : Table ServerConfig → Table LfdConfig → Result (Unit {0})
check_lfds servers [] = ok tt
check_lfds servers ((k, l) ∷ rest) = do
  guard (has_key servers l.server_id)
      (config_error ("LFD " ++ l.lfd_id ++ " references unknown server " ++ l.server_id))
  check_lfds servers rest

unfoldable pub parse_gfd : (ℤ → Result Float) → Fields → Result GfdConfig
parse_gfd to_float document = do
  raw ← section document "gfd"
  bind_host ← non_empty_string (get raw "bind_host") "gfd.bind_host"
  advertised_host ← non_empty_string (get raw "advertised_host") "gfd.advertised_host"
  port ← port_of (get raw "port") "gfd.port"
  heartbeat_freq ←
      positive_number to_float (get_default raw "heartbeat_freq" (float (finite (pos 1) 0)))
        "gfd.heartbeat_freq"
  read_timeout ←
      positive_number to_float (get_default raw "read_timeout" (float (finite (pos 2) 0)))
        "gfd.read_timeout"
  ok (record {
    bind_host = bind_host;
    advertised_host = advertised_host;
    port = port;
    heartbeat_freq = heartbeat_freq;
    read_timeout = read_timeout;
  })

unfoldable pub gfd_given : (ℤ → Result Float) → Fields → Option Value → Result (Option GfdConfig)
gfd_given to_float document none = ok none
gfd_given to_float document (some v) = parse_gfd to_float document >>= λ g. ok (some g)

-- `if "gfd" in data`
unfoldable pub gfd_of : (ℤ → Result Float) → Fields → Result (Option GfdConfig)
gfd_of to_float document = gfd_given to_float document (lookup document "gfd")

unfoldable pub load_config : (ℤ → Result Float) → Fields → Result AppConfig
load_config to_float document = do
  servers ← parse_servers document
  clients ← parse_clients to_float document
  lfds ← parse_lfds to_float document
  check_clients servers clients
  check_lfds servers lfds
  gfd ← gfd_of to_float document
  ok (record { servers = servers; clients = clients; lfds = lfds; gfd = gfd })
