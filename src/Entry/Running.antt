-- ===== src/Entry/Running.antt =====
-- `run` and `main` of src/ft_system/server/main.py: from the configuration to the end of the process.
use Prim.Native.String.{◌++◌}
use fall2026_18749_project.Prelude.{
  some, none, ℕ, String, ◌≡◌, inl, inr, refl, List, [], ◌∷◌, map, arith, find, nat_eq_refl,
  Option-cases,
}
use fall2026_18749_project.Value.{ℤ, Float, str}
use fall2026_18749_project.Result.{
  Exn, Result, ok, err, config_error, value_error, overflow_error, after_bind, ◌>>=◌,
}
use fall2026_18749_project.Config.{ServerConfig, AppConfig, server, entry_of}
use fall2026_18749_project.Config.Valid.{KeepsSign, OnlyOverflows}
use fall2026_18749_project.Config.File.{
  Opened, parsed, unreadable, bad_toml, undecodable, read_config, load_file,
}
use fall2026_18749_project.Config.Told.{IsTold, returns, tells, overflows}
use fall2026_18749_project.Config.Errors.{Overflows, load_file-IsTold}
use fall2026_18749_project.Config.Loaded.{IsDeployment, load_config-IsDeployment}
use fall2026_18749_project.StateMachine.{init}
use fall2026_18749_project.Config.Keys.{keys}
use fall2026_18749_project.Server.LifeCycle
use fall2026_18749_project.Server.LifeCycle.{
  ServerApp, Event, starts, start, run, close, step, listen, listen_heartbeat, undo, without,
  no_socket_left,
}
use fall2026_18749_project.Entry.Replica.{Replica, make_server, server_starts}

-- How the process ends: with the status 0, with a message of the parser of the arguments, or with an
-- exception that `main` does not catch.
pub data ProcessEnd : Type 0 where
  finished : ProcessEnd
  usage_error : (message : String) → ProcessEnd
  raises : Exn → ProcessEnd

-- `main`, after `run`.
unfoldable pub outcome_of : Result (Unit {0}) → ProcessEnd
outcome_of (ok u) = finished
outcome_of (err (config_error message)) = usage_error message
outcome_of (err e) = raises e

-- After `start` the process waits for the signal, while the connections come and go, and closes.
unfoldable pub serve_until :
    List Event → Result (Unit {0}) × ServerApp → Result (Unit {0}) × ServerApp
serve_until events (ok u, s) = (ok u, close (run events s))
serve_until events (err e, s) = (err e, s)

unfoldable pub run_server :
    Result ℕ → Result ℕ → List Event → Result Replica → Result (Unit {0}) × ServerApp
unfolding serve_until
run_server client heartbeat events (ok r) = serve_until events (start client heartbeat r.app)
run_server client heartbeat events (err e) = (err e, LifeCycle.make)

unfoldable pub configured_server : (ℤ → Result Float) → String → Opened → String → Result Replica
configured_server to_float path opened server_id = do
  c ← load_file to_float path opened
  make_server c server_id

-- `main`: `client` and `heartbeat` are what `start_server` answers, `events` what comes before the
-- signal.
unfoldable pub server_main :
    (ℤ → Result Float)
    → String
    → Opened
    → String
    → Result ℕ
    → Result ℕ
    → List Event
    → ProcessEnd × ServerApp
unfolding outcome_of run_server configured_server
server_main to_float path opened server_id client heartbeat events =
    let (r, s) =
      run_server client heartbeat events (configured_server to_float path opened server_id) in
    (outcome_of r, s)

-- How the process ends, and what of the configuration and the two calls of `start_server` that
-- rests on.
pub data IsEnd (to_float : ℤ → Result Float) (path : String) (opened : Opened) (server_id : String)
    (client heartbeat : Result ℕ) : ProcessEnd → Type 0 where
  signalled :
      (c : AppConfig) (s : ServerConfig) (p q : ℕ)
      → load_file to_float path opened ≡ ok c
      → find c.servers server_id ≡ some s
      → client ≡ ok p
      → heartbeat ≡ ok q
      → IsEnd to_float path opened server_id client heartbeat finished
  no_client_socket :
      (c : AppConfig) (s : ServerConfig) (e : Exn)
      → load_file to_float path opened ≡ ok c
      → find c.servers server_id ≡ some s
      → client ≡ err e
      → IsEnd to_float path opened server_id client heartbeat (outcome_of (err e))
  no_heartbeat_socket :
      (c : AppConfig) (s : ServerConfig) (p : ℕ) (e : Exn)
      → load_file to_float path opened ≡ ok c
      → find c.servers server_id ≡ some s
      → client ≡ ok p
      → heartbeat ≡ err e
      → IsEnd to_float path opened server_id client heartbeat (outcome_of (err e))
  unknown_server :
      (c : AppConfig)
      → load_file to_float path opened ≡ ok c
      → find c.servers server_id ≡ none
      → IsEnd to_float path opened server_id client heartbeat
          (usage_error ("unknown " ++ "server" ++ " id: " ++ server_id))
  refused :
      (message : String)
      → load_file to_float path opened ≡ err (config_error message)
      → IsEnd to_float path opened server_id client heartbeat (usage_error message)
  too_large :
      Overflows to_float opened
      → load_file to_float path opened ≡ err overflow_error
      → IsEnd to_float path opened server_id client heartbeat (raises overflow_error)
  no_text :
      (message : String)
      → opened ≡ undecodable message
      → IsEnd to_float path opened server_id client heartbeat (raises (value_error message))

make_server-app :
    (c : AppConfig) (id : String) (r : Replica) → make_server c id ≡ ok r → r.app ≡ LifeCycle.make
unfolding make_server
make_server-app c id r h =
    after_bind (server c id) _ h
      λ s e h. after_bind (init (map str (keys c.clients))) _ h λ counters g h. ground arith

pub loaded_file :
    (to_float : ℤ → Result Float)
    → KeepsSign to_float
    → (path : String) (opened : Opened) (c : AppConfig) → load_file to_float path opened ≡ ok c
    → IsDeployment c
unfolding load_file read_config
loaded_file to_float keeps path (parsed d) c h = load_config-IsDeployment to_float keeps d c h
loaded_file to_float keeps path (unreadable m) c h = cc
loaded_file to_float keeps path (bad_toml m) c h = cc
loaded_file to_float keeps path (undecodable m) c h = cc

make_server-unknown :
    (c : AppConfig) (id : String)
    → find c.servers id ≡ none
    → make_server c id ≡ err (config_error ("unknown " ++ "server" ++ " id: " ++ id))
unfolding make_server server
make_server-unknown c id missing = rw (missing, entry_of) refl

module _ (to_float : ℤ → Result Float) (path : String) (opened : Opened) (server_id : String)
    (client heartbeat : Result ℕ) (events : List Event) where
  abbrev Ends : ProcessEnd × ServerApp → Type 0
  Ends x = IsEnd to_float path opened server_id client heartbeat x.0 × (x.1.listening ≡ [])

  -- From `start` on.
  started-Ends :
      (c : AppConfig) (s : ServerConfig)
      → load_file to_float path opened ≡ ok c
      → find c.servers server_id ≡ some s
      → (x y : Result ℕ) → client ≡ x
      → heartbeat ≡ y
      → let (r, t) = serve_until events (start x y LifeCycle.make) in Ends (outcome_of r, t)
  unfolding serve_until start listen listen_heartbeat undo without run step outcome_of
  started-Ends c s loaded found (ok p) (ok q) a b =
      (signalled c s p q loaded found a b, (no_socket_left (starts (ok p) (ok q) ∷ events)).1)
  started-Ends c s loaded found (ok p) (err e) a b =
      (no_heartbeat_socket c s p e loaded found a b, simp (nat_eq_refl p))
  started-Ends c s loaded found (err e) y a b = (no_client_socket c s e loaded found a, refl)

  -- From what `run` makes of the configuration on.
  made-Ends :
      (c : AppConfig) (s : ServerConfig)
      → load_file to_float path opened ≡ ok c
      → find c.servers server_id ≡ some s
      → (x : Result Replica) (r : Replica) → x ≡ ok r
      → r.app ≡ LifeCycle.make
      → let (u, t) = run_server client heartbeat events x in Ends (outcome_of u, t)
  unfolding run_server outcome_of
  made-Ends c s loaded found (ok m) r h new =
      let same : m ≡ r = cc in
      let new : m.app ≡ LifeCycle.make = rw same new in
      rw new (started-Ends c s loaded found client heartbeat refl refl)
  made-Ends c s loaded found (err e) r h new = cc

  unknown-Ends :
      (c : AppConfig)
      → load_file to_float path opened ≡ ok c
      → find c.servers server_id ≡ none
      → (x : Result Replica)
      → x ≡ err (config_error ("unknown " ++ "server" ++ " id: " ++ server_id))
      → let (u, t) = run_server client heartbeat events x in Ends (outcome_of u, t)
  unfolding run_server outcome_of
  unknown-Ends c loaded missing (ok m) h = cc
  unknown-Ends c loaded missing (err e) h =
      let is : e ≡ config_error ("unknown " ++ "server" ++ " id: " ++ server_id) = cc in
      rw is (unknown_server c loaded missing, refl)

  -- From a configuration on.
  configured-Ends :
      (c : AppConfig)
      → IsDeployment c
      → load_file to_float path opened ≡ ok c
      → let (r, t) = run_server client heartbeat events (make_server c server_id) in
        Ends (outcome_of r, t)
  configured-Ends c deployed loaded = elim (Option-cases (find c.servers server_id)) [
    | inl missing ↦
        unknown-Ends c loaded missing (make_server c server_id)
          (make_server-unknown c server_id missing)
    | inr (s, found) ↦
        let t = server_starts c deployed server_id s found in
        made-Ends c s loaded found (make_server c server_id) t.0 t.1
          (make_server-app c server_id t.0 t.1)
  ]

module _ (to_float : ℤ → Result Float) (keeps : KeepsSign to_float)
    (limits : OnlyOverflows to_float) (path : String) (opened : Opened) (server_id : String)
    (client heartbeat : Result ℕ) (events : List Event) where
  loaded-Ends :
      (x : Result AppConfig)
      → load_file to_float path opened ≡ x
      → IsTold (Overflows to_float opened) x
      → let (r, t) = run_server client heartbeat events (x >>= λ c. make_server c server_id) in
        Ends to_float path opened server_id client heartbeat events (outcome_of r, t)
  unfolding run_server outcome_of
  loaded-Ends _ h (returns c) =
      configured-Ends to_float path opened server_id client heartbeat events c
        (loaded_file to_float keeps path opened c h) h
  loaded-Ends _ h (tells m) = (refused m h, refl)
  loaded-Ends _ h (overflows o) = (too_large o h, refl)

  -- The process of a server, for any configuration file, server id, answers of the system to the
  -- two calls of `start_server`, and calls and connections before the signal. If the configuration
  -- is accepted and has this server, it ends with status 0 when both ports are bound, and else with
  -- what `main` makes of the exception of the first of the two calls that raised; if it has no such
  -- server, or `load_config` raises a ConfigError, with that message from the parser of the
  -- arguments; when the file cannot be decoded, with that exception; and with OverflowError when
  -- `load_config` raises it, and then some integer in the file is too large for a float. In every
  -- case no listening socket is open at its end - if `float` of an integer returns or raises
  -- OverflowError, and keeps the sign of positive ones.
  pub server_main-IsEnd :
      let (outcome, s) = server_main to_float path opened server_id client heartbeat events in
      IsEnd to_float path opened server_id client heartbeat outcome × (s.listening ≡ [])
  unfolding server_main configured_server run_server outcome_of
  server_main-IsEnd = elim (load_file-IsTold to_float limits path opened) [
    | inl told ↦ loaded-Ends (load_file to_float path opened) refl told
    | inr (m, is, e) ↦ rw e (no_text m is, refl)
  ]
