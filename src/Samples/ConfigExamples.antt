-- ===== src/Samples/ConfigExamples.antt =====
-- A concrete deployment, src/ft_system/common/config.py, and the client made for it.
use fall2026_18749_project.Prelude.{inl, ◌≡◌, refl, some, [], ◌∷◌, any, find, put}
use fall2026_18749_project.Text.{is_blank}
use fall2026_18749_project.Value.{
  ℤ, pos, Float, finite, int, str, dict, list, nil, cons, Fields, empty, entry, lookup, get,
}
use fall2026_18749_project.Result.{Result, ok}
use fall2026_18749_project.Config.Valid.{KeepsSign, OnlyOverflows}
use fall2026_18749_project.Config.{
  AppConfig, is_positive, section, required, non_empty_string, port_of, positive_number,
  get_default, leb_float, ServerConfig, ClientConfig, LfdConfig, GfdConfig,
}
use fall2026_18749_project.Config.Tables.{
  parse_servers, parse_clients, parse_lfds, parse_all, parse_server, parse_client, parse_lfd,
  table_of, server_ids_of, strings_of,
}
use fall2026_18749_project.StateMachine.{distinct}
use fall2026_18749_project.Config.Deployment.{
  load_config, check_clients, check_ids, check_lfds, has_key, gfd_of, gfd_given, parse_gfd,
}
use fall2026_18749_project.Config.Loaded.{IsDeployment, load_config-IsDeployment}
use fall2026_18749_project.Entry.{App, make_client, Serves, client_starts}

-- A deployment of one replica, one client and one detector; integers become floats exactly.
abbrev pub exact : ℤ → Result Float
exact i = ok (finite i 0)

pub exact-KeepsSign : KeepsSign exact
unfolding is_positive
exact-KeepsSign n x h = cc

abbrev ports : Fields
ports = entry "client_port" (int (pos 5000)) (
    entry "heartbeat_port" (int (pos 5001))
      (entry "bind_host" (str "0.0.0.0") (entry "advertised_host" (str "localhost") empty)))

abbrev timeouts : Fields
timeouts = entry "connect_timeout" (int (pos 2)) (entry "read_timeout" (int (pos 3)) empty)

abbrev gfd_table : Fields
gfd_table =
    entry "bind_host" (str "0.0.0.0")
      (entry "advertised_host" (str "localhost") (entry "port" (int (pos 5002)) empty))

abbrev pub document : Fields
document = entry "server" (dict (entry "S1" (dict ports) empty)) (
    entry "client"
      (dict (entry "C1" (dict (entry "server_ids" (list (cons (str "S1") nil)) timeouts)) empty))
      (entry "lfd"
        (dict (
          entry "LFD1"
            (dict (entry "server_id" (str "S1") (entry "heartbeat_freq" (int (pos 1)) timeouts)))
            empty))
        (entry "gfd" (dict gfd_table) empty)))

abbrev pub the_gfd : GfdConfig
the_gfd = record {
  bind_host = "0.0.0.0";
  advertised_host = "localhost";
  port = 5002;
  heartbeat_freq = finite (pos 1) 0;
  read_timeout = finite (pos 2) 0;
}

abbrev pub the_server : ServerConfig
the_server = record {
  replica_id = "S1";
  bind_host = "0.0.0.0";
  advertised_host = "localhost";
  client_port = 5000;
  heartbeat_port = 5001;
}

abbrev pub the_lfd : LfdConfig
the_lfd = record {
  lfd_id = "LFD1";
  server_id = "S1";
  heartbeat_freq = finite (pos 1) 0;
  connect_timeout = finite (pos 2) 0;
  read_timeout = finite (pos 3) 0;
  initial_backoff = finite (pos 1) 1;
  max_backoff = finite (pos 5) 0;
}

abbrev the_client : ClientConfig
the_client = record {
  client_id = "C1";
  server_ids = "S1" ∷ [];
  connect_timeout = finite (pos 2) 0;
  read_timeout = finite (pos 3) 0;
}

abbrev pub deployment : AppConfig
deployment = record {
  servers = ("S1", the_server) ∷ [];
  clients = ("C1", the_client) ∷ [];
  lfds = ("LFD1", the_lfd) ∷ [];
  gfd = some the_gfd;
}

loaded : load_config exact document ≡ ok deployment
unfolding load_config parse_servers parse_clients parse_lfds parse_all parse_server parse_client
    parse_lfd section table_of required non_empty_string port_of positive_number get_default
    leb_float server_ids_of strings_of distinct any check_clients check_ids check_lfds has_key
    gfd_of gfd_given parse_gfd is_blank lookup get find put is_positive
loaded = refl

load_config-IsDeployment_example : IsDeployment deployment
load_config-IsDeployment_example =
    load_config-IsDeployment exact exact-KeepsSign document deployment loaded

pub is_deployment : IsDeployment deployment
is_deployment = load_config-IsDeployment exact exact-KeepsSign document deployment loaded

client_known : find deployment.clients "C1" ≡ some the_client
unfolding find
client_known = refl

client_starts_example :
    (app : App) × (make_client deployment "C1" (pos 0) ≡ ok app)
    × Serves deployment "C1" the_client app
client_starts_example = client_starts deployment is_deployment "C1" the_client 0 client_known

pub exact-OnlyOverflows : OnlyOverflows exact
exact-OnlyOverflows i = inl (finite i 0, refl)
