-- ===== src/Config/Checked.antt =====
-- What the parsers of src/ft_system/common/config.py let pass, table by table.
use Prim.Native.String.{◌++◌}
use fall2026_18749_project.Prelude.{
  ℕ, ◌≡◌, ◌≢◌, subst, String, true, false, not, List, [], nat_eq, arith,
}
use fall2026_18749_project.Text.{is_blank}
use fall2026_18749_project.Value.{
  ℤ, Float, Value, none_value, bool, int, float, str, list, dict, Items, nil, cons, Fields, get,
}
use fall2026_18749_project.Result.{Result, ok, ◌>>=◌, after_bind, after_guard}
use fall2026_18749_project.StateMachine.{distinct}
use fall2026_18749_project.Config.{
  ServerConfig, ClientConfig, LfdConfig, GfdConfig, non_empty_string, port_of, is_positive,
  positive_number, required, leb_float, section,
}
use fall2026_18749_project.Config.Tables.{
  table_of, parse_server, strings_of, server_ids_of, parse_client, parse_lfd,
}
use fall2026_18749_project.Config.Deployment.{parse_gfd}
use fall2026_18749_project.Config.Valid.{
  KeepsSign, IsPort, IsServer, IsClient, IsDetector, IsGfd, non_empty_string-eq-ok, port_of-eq-ok,
  positive_number-eq-ok,
}

module _ {B : Type 0} {b : B} {C : Type 0} where
  after_string :
      (v : Value) (field : String) (f : String → Result B)
      → (non_empty_string v field >>= f) ≡ ok b
      → ((s : String) → v ≡ str s → is_blank s ≡ false → f s ≡ ok b → C)
      → C
  after_string v field f h next =
      after_bind (non_empty_string v field) f h (λ s e rest.
        let (same, named) = non_empty_string-eq-ok v field s e in next s same named rest)

  after_port :
      (v : Value) (field : String) (f : ℕ → Result B)
      → (port_of v field >>= f) ≡ ok b
      → ((n : ℕ) → IsPort n → f n ≡ ok b → C)
      → C
  after_port v field f h next =
      after_bind (port_of v field) f h (λ n e rest. next n (port_of-eq-ok v field n e) rest)

module _ {B : Type 0} {b : B} {C : Type 0} (to_float : ℤ → Result Float)
    (keeps : KeepsSign to_float) where
  after_number :
      (v : Value) (field : String) (f : Float → Result B)
      → (positive_number to_float v field >>= f) ≡ ok b
      → ((x : Float) → is_positive x ≡ true → f x ≡ ok b → C)
      → C
  after_number v field f h next =
      after_bind (positive_number to_float v field) f h
        (λ x e rest. next x (positive_number-eq-ok to_float keeps v field x e) rest)

pub parse_server-IsServer :
    (k : String) (raw : Value) (s : ServerConfig) → parse_server k raw ≡ ok s → IsServer k s
unfolding parse_server
parse_server-IsServer k raw s h = after_string (str k) "replica_id" _ h λ id same named h.
    after_bind (table_of raw ("server " ++ id)) _ h λ table _ h.
      after_bind (required table "client_port" ("server " ++ id)) _ h λ v _ h.
        after_port v "client_port" _ h λ p client_port h.
          after_bind (required table "heartbeat_port" ("server " ++ id)) _ h λ v _ h.
            after_port v "heartbeat_port" _ h λ q heartbeat_port h.
              after_guard (not (nat_eq p q)) _ _ h λ differ h.
                after_bind (required table "bind_host" ("server " ++ id)) _ h λ v _ h.
                  after_string v "bind_host" _ h λ bind _ bind_host h.
                    after_bind (required table "advertised_host" ("server " ++ id)) _ h λ v _ h.
                      after_string v "advertised_host" _ h λ advertised _ advertised_host h.
                        ground (arith, client_port, heartbeat_port)

strings_of-not_empty :
    (v : Value) (vs : Items) (field : String) (ids : List String)
    → strings_of (cons v vs) field ≡ ok ids
    → ids ≢ []
unfolding strings_of
strings_of-not_empty v vs field ids h =
    after_bind (non_empty_string v field) _ h
      λ s _ h. after_bind (strings_of vs field) _ h λ rest _ h. ground arith

server_ids_of-eq-ok :
    (v : Value) (client_id : String) (ids : List String)
    → server_ids_of v client_id ≡ ok ids
    → (ids ≢ []) × (distinct ids ≡ true)
unfolding server_ids_of
server_ids_of-eq-ok (list (cons v vs)) client_id ids h =
    after_bind (strings_of (cons v vs) _) _ h λ found e h.
      after_guard (distinct found) _ _ h λ unique h.
        let some_id = strings_of-not_empty v vs _ found e in
        let same : found ≡ ids = cc in
        (
          subst (λ (u : List String). u ≢ []) same some_id,
          subst (λ (u : List String). distinct u ≡ true) same unique,
        )
server_ids_of-eq-ok (list nil) client_id ids h = cc
server_ids_of-eq-ok none_value field s h = cc
server_ids_of-eq-ok (bool b) field s h = cc
server_ids_of-eq-ok (int i) field s h = cc
server_ids_of-eq-ok (str i) field s h = cc
server_ids_of-eq-ok (float x) field s h = cc
server_ids_of-eq-ok (dict m) field s h = cc

pub ok_inj : {A : Type 0} (P : A → Type 0) (a b : A) → ◌≡◌ {A = Result A} (ok a) (ok b) → P a → P b
ok_inj P a b h p = let same : a ≡ b = cc in subst P same p

module _ (to_float : ℤ → Result Float) (keeps : KeepsSign to_float) where
  pub parse_client-IsClient :
      (k : String) (raw : Value) (c : ClientConfig)
      → parse_client to_float k raw ≡ ok c
      → IsClient k c
  unfolding parse_client
  parse_client-IsClient k raw c h = after_string (str k) "client_id" _ h λ id same named h.
      after_bind (table_of raw _) _ h λ table _ h.
        after_bind (required table "server_ids" _) _ h λ v _ h.
          after_bind (server_ids_of v id) _ h λ ids found h.
            after_bind (required table "connect_timeout" _) _ h λ v _ h.
              after_number to_float keeps v "connect_timeout" _ h λ connect connect_timeout h.
                after_bind (required table "read_timeout" _) _ h λ w _ h.
                  after_number to_float keeps w "read_timeout" _ h λ read read_timeout h.
                    let (some_server, unique_servers) = server_ids_of-eq-ok _ id ids found in
                    ok_inj (IsClient k) _ c h (record {
                      key = cc;
                      named = cc;
                      some_server = some_server;
                      unique_servers = unique_servers;
                      connect_timeout = connect_timeout;
                      read_timeout = read_timeout;
                    })

  pub parse_lfd-IsDetector :
      (k : String) (raw : Value) (l : LfdConfig) → parse_lfd to_float k raw ≡ ok l → IsDetector k l
  unfolding parse_lfd
  parse_lfd-IsDetector k raw l h = after_string (str k) "lfd_id" _ h λ id same named h.
      after_bind (table_of raw _) _ h λ table _ h.
        after_number to_float keeps _ "initial_backoff" _ h λ initial initial_backoff h.
          after_number to_float keeps _ "max_backoff" _ h λ maximum max_backoff h.
            after_guard (leb_float initial maximum) _ _ h λ ordered h.
              after_bind (required table "server_id" _) _ h λ v _ h.
                after_string v "server_id" _ h λ server_id _ server_named h.
                  after_bind (required table "heartbeat_freq" _) _ h λ v _ h.
                    after_number to_float keeps v "heartbeat_freq" _ h λ freq heartbeat_freq h.
                      after_bind (required table "connect_timeout" _) _ h λ v _ h.
                        after_number to_float keeps v "connect_timeout" _ h
                          λ connect connect_timeout h.
                            after_bind (required table "read_timeout" _) _ h λ w _ h.
                              after_number to_float keeps w "read_timeout" _ h
                                λ read read_timeout h. ok_inj (IsDetector k) _ l h (record {
                                  key = cc;
                                  named = cc;
                                  ordered = ordered;
                                  heartbeat_freq = heartbeat_freq;
                                  initial_backoff = initial_backoff;
                                  max_backoff = max_backoff;
                                  connect_timeout = connect_timeout;
                                  read_timeout = read_timeout;
                                })

  pub parse_gfd-IsGfd :
      (document : Fields) (g : GfdConfig) → parse_gfd to_float document ≡ ok g → IsGfd g
  unfolding parse_gfd
  parse_gfd-IsGfd document g h = after_bind (section document "gfd") _ h λ raw _ h.
      after_string (get raw "bind_host") _ _ h λ bind _ bind_host h.
        after_string (get raw "advertised_host") _ _ h λ advertised _ advertised_host h.
          after_port (get raw "port") _ _ h λ n port h.
            after_number to_float keeps _ _ _ h λ freq heartbeat_freq h.
              after_number to_float keeps _ _ _ h λ read read_timeout h.
                ok_inj IsGfd _ g h (record {
                  bind_host = bind_host;
                  advertised_host = advertised_host;
                  port = port;
                  heartbeat_freq = heartbeat_freq;
                  read_timeout = read_timeout;
                })
