-- ===== src/Entry.antt =====
-- src/ft_system/client/main.py: how `run` makes a client from the configuration. The modules below
-- are about the other entry points.
pub mod Replica
pub mod Detector
pub mod Starting
pub mod Monitor
pub mod Agreement
pub mod Running
pub mod Watching
pub mod Detecting
use fall2026_18749_project.Prelude.{
  ℕ, String, ◌≡◌, ◌≢◌, refl, sym, ◌∙◌, subst, true, false, some, List, [], ◌∷◌, Table, find, map,
  leb, ◌==◌, eq_iff, Bool-cases, inl, inr, Option-cases, All, arith,
}
use fall2026_18749_project.Value.{ℤ, pos, leb_ℤ, Float}
use fall2026_18749_project.Result.{Result, ok, err, config_error, index_error, guard, ◌>>=◌, ◌>>◌}
use fall2026_18749_project.Config.{ServerConfig, ClientConfig, AppConfig, entry_of, server, client}
use fall2026_18749_project.Config.Deployment.{has_key}
use fall2026_18749_project.Config.Valid.{IsServer, IsClient}
use fall2026_18749_project.Config.Loaded.{Every, Known, IsDeployment}
use fall2026_18749_project.StateMachine.{distinct}
use fall2026_18749_project.Client
use fall2026_18749_project.Client.{Client}
use fall2026_18749_project.Active
use fall2026_18749_project.Active.{Active, is_empty}

-- `ServerEndpoint`
pub record Endpoint : Type 0 where
  pub replica_id : String
  pub host : String
  pub port : ℕ

unfoldable pub endpoint : ServerConfig → Endpoint
endpoint s = record { replica_id = s.replica_id; host = s.advertised_host; port = s.client_port }

-- The loop that collects `endpoints`.
unfoldable pub endpoints_of : AppConfig → List String → Result (List Endpoint)
unfolding endpoint
endpoints_of c [] = ok []
endpoints_of c (replica_id ∷ rest) = do
  s ← server c replica_id
  es ← endpoints_of c rest
  ok (endpoint s ∷ es)

-- A `ClientApp`, or an `ActiveClientApp`, with the endpoints and the timeouts that it was given.
pub data App : Type 0 where
  one : (to : Endpoint) (connect_timeout read_timeout : Float) → Client → App
  all : (to : List Endpoint) (connect_timeout read_timeout : Float) → Active → App

replicas : List Endpoint → List String
replicas es = map (λ (e : Endpoint). e.replica_id) es

-- More than one endpoint makes a client of all replicas.
unfoldable pub choose : ClientConfig → List Endpoint → Result App
unfolding replicas
choose l [] = err index_error
choose l (e ∷ []) =
    ok (one e l.connect_timeout l.read_timeout (Client.start l.client_id e.replica_id))
choose l (e ∷ f ∷ es) = do
  a ← Active.make l.client_id (replicas (e ∷ f ∷ es))
  ok (all (e ∷ f ∷ es) l.connect_timeout l.read_timeout a)

-- `run`, up to the loop.
unfoldable pub make_client : AppConfig → String → ℤ → Result App
unfolding endpoints_of choose
make_client c client_id count = do
  l ← client c client_id
  endpoints ← endpoints_of c l.server_ids
  app ← choose l endpoints
  guard (leb_ℤ (pos 0) count) (config_error "count must be non-negative")
  ok app

-- The endpoint is the one for clients of the configured server `id`.
pub record Reaches (c : AppConfig) (id : String) (e : Endpoint) : Type 0 where
  pub config : ServerConfig
  pub configured : find c.servers id ≡ some config
  pub replica_id : e.replica_id ≡ id
  pub host : e.host ≡ config.advertised_host
  pub port : e.port ≡ config.client_port

-- One endpoint for each server, in their order.
pub data ReachesAll (c : AppConfig) : List String → List Endpoint → Type 0 where
  no_more : ReachesAll c [] []
  and_more :
      {id : String} {ids : List String} {e : Endpoint} {es : List Endpoint}
      → Reaches c id e
      → ReachesAll c ids es
      → ReachesAll c (id ∷ ids) (e ∷ es)

-- The client of one server, or of two or more servers.
pub data Serves (c : AppConfig) (id : String) (l : ClientConfig) : App → Type 0 where
  serves_one :
      {server_id : String} {e : Endpoint} {s : Client}
      → l.server_ids ≡ server_id ∷ []
      → Reaches c server_id e
      → s.client_id ≡ id
      → s.replica_id ≡ server_id
      → Serves c id l (one e l.connect_timeout l.read_timeout s)
  serves_all :
      {i j : String} {ids : List String} {es : List Endpoint} {a : Active}
      → l.server_ids ≡ i ∷ j ∷ ids
      → ReachesAll c l.server_ids es
      → a.client_id ≡ id
      → a.endpoints ≡ l.server_ids
      → Serves c id l (all es l.connect_timeout l.read_timeout a)

pub Every-find :
    {V : Type 0} (P : String → V → Type 0) (d : Table V) (k : String) (v : V)
    → Every P d
    → find d k ≡ some v
    → P k v
unfolding find
Every-find P [] k v q h = cc
Every-find P ((j, w) ∷ d) k v (p, q) h = elim (Bool-cases (j == k)) [
  | inl same ↦
      let h = rw same at h in
      let is : w ≡ v = cc in subst (λ (x : String). P x v) ((eq_iff j k).0 same) (rw is at p)
  | inr other ↦ Every-find P d k v q (let h = rw other at h in h)
]

pub configured_entry :
    (servers : Table ServerConfig) (id : String)
    → Known servers id
    → (s : ServerConfig) × (find servers id ≡ some s)
unfolding has_key
configured_entry servers id h = elim (Option-cases (find servers id)) [
  | inl missing ↦ absurd (let h = rw (missing, has_key) at h in cc)
  | inr (s, found) ↦ (s, found)
]

pub server_found :
    (c : AppConfig) (id : String) (s : ServerConfig)
    → find c.servers id ≡ some s
    → server c id ≡ ok s
unfolding server entry_of
server_found c id s h = rw (h, server, entry_of) refl

client_found :
    (c : AppConfig) (id : String) (l : ClientConfig)
    → find c.clients id ≡ some l
    → client c id ≡ ok l
unfolding client entry_of
client_found c id l h = rw (h, client, entry_of) refl

endpoints_collected :
    (c : AppConfig) (ids : List String)
    → Every IsServer c.servers
    → All (λ (id : String). Known c.servers id) ids
    → (es : List Endpoint) × (endpoints_of c ids ≡ ok es) × ReachesAll c ids es
unfolding endpoints_of endpoint
endpoints_collected c [] all_servers known = ([], refl, no_more)
endpoints_collected c (id ∷ ids) all_servers (here, there) =
    let (s, found) = configured_entry c.servers id here in
    let (es, ok_rest, reach) = endpoints_collected c ids all_servers there in
    let named = (Every-find IsServer c.servers id s all_servers found).key in
    let reaches : Reaches c id (endpoint s) = record {
      config = s;
      configured = found;
      replica_id = named;
      host = refl;
      port = refl;
    } in
    (endpoint s ∷ es, rw (server_found c id s found, ok_rest) refl, and_more reaches reach)

ReachesAll-replicas :
    (c : AppConfig) (ids : List String) (es : List Endpoint)
    → ReachesAll c ids es
    → replicas es ≡ ids
unfolding replicas
ReachesAll-replicas c _ _ no_more = refl
ReachesAll-replicas c (i ∷ ids) (e ∷ es) (and_more q qs) =
    let rest = ReachesAll-replicas c ids es qs in let same = q.replica_id in cc

made :
    (id : String) (ids : List String)
    → is_empty ids ≡ false
    → distinct ids ≡ true
    → (a : Active) × (Active.make id ids ≡ ok a) × (a.client_id ≡ id) × (a.endpoints ≡ ids)
unfolding Active.make
made id ids some_server unique = (Active.initial id ids, rw (some_server, unique) refl, refl, refl)

chosen :
    (c : AppConfig) (id : String) (l : ClientConfig) (ids : List String) (es : List Endpoint)
    → l.server_ids ≡ ids
    → ReachesAll c ids es
    → l.client_id ≡ id
    → ids ≢ []
    → distinct ids ≡ true
    → (app : App) × (choose l es ≡ ok app) × Serves c id l app
unfolding choose is_empty
chosen c id l _ _ same no_more named some_server unique = absurd (some_server refl)
chosen c id l (i ∷ []) (e ∷ []) same (and_more q no_more) named some_server unique =
    (_, refl, serves_one same q named q.replica_id)
chosen c id l (i ∷ []) (e ∷ f ∷ es) same (and_more q qs) named some_server unique = elim qs [ ]
chosen c id l (i ∷ j ∷ ids) (e ∷ []) same (and_more q qs) named some_server unique = elim qs [ ]
chosen c id l (i ∷ j ∷ ids) (e ∷ f ∷ es) same (and_more q (and_more q' qs)) named some_server
      unique =
    let reach = and_more q (and_more q' qs) in
    let names = ReachesAll-replicas c (i ∷ j ∷ ids) (e ∷ f ∷ es) reach in
    let (a, is, its_name, listed) =
      made l.client_id (replicas (e ∷ f ∷ es)) refl (rw names unique) in
    (
      all (e ∷ f ∷ es) l.connect_timeout l.read_timeout a,
      rw is refl,
      serves_all {a = a} same
          (subst (λ (x : List String). ReachesAll c x (e ∷ f ∷ es)) (sym same) reach)
          (its_name ∙ named) (listed ∙ names ∙ sym same),
    )

zero_first : (n : ℕ) → leb 0 n ≡ true
zero_first n = ground arith

module _ (c : AppConfig) (deployed : IsDeployment c) where
  -- For every client of a deployment whose parts are valid, as the ones of a configuration that
  -- `load_config` accepts are, and a count that is not negative, the entry point makes a client
  -- without raising: if it has one server, a `ClientApp` for this server, and if it has two or
  -- more, an `ActiveClientApp` for exactly these in their order; each endpoint has the advertised
  -- host and the client port of its server, and the timeouts are the ones of the client.
  pub client_starts :
      (id : String) (l : ClientConfig) (n : ℕ)
      → find c.clients id ≡ some l
      → (app : App) × (make_client c id (pos n) ≡ ok app) × Serves c id l app
  unfolding make_client
  client_starts id l n found =
      let q = Every-find IsClient c.clients id l deployed.clients found in
      let known =
        Every-find (λ k l. All (λ (i : String). Known c.servers i) l.server_ids) c.clients id l
          deployed.client_servers found in
      let (es, collected, reach) = endpoints_collected c l.server_ids deployed.servers known in
      let (app, made, serves) =
        chosen c id l l.server_ids es refl reach q.key q.some_server q.unique_servers in
      (app, rw (client_found c id l found, collected, made, zero_first n) refl, serves)
