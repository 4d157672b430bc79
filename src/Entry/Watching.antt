-- ===== src/Entry/Watching.antt =====
-- `run` and `main` of src/ft_system/gfd/main.py: from the configuration to the end of the process.
use fall2026_18749_project.Prelude.{
  ℕ, String, ◌≡◌, refl, Option, none, some, List, [], find, Table, Option-cases, inl, inr,
}
use fall2026_18749_project.Value.{ℤ, Float}
use fall2026_18749_project.Result.{
  Exn, Result, ok, err, config_error, value_error, ◌>>=◌, overflow_error,
}
use fall2026_18749_project.Config.{LfdConfig, GfdConfig, AppConfig}
use fall2026_18749_project.Config.Valid.{KeepsSign, OnlyOverflows}
use fall2026_18749_project.Config.File.{Opened, undecodable, load_file}
use fall2026_18749_project.Config.Told.{IsTold, returns, tells, overflows}
use fall2026_18749_project.Config.Errors.{Overflows, load_file-IsTold}
use fall2026_18749_project.Config.Loaded.{IsDeployment}
use fall2026_18749_project.Gfd.Members.{has}
use fall2026_18749_project.Gfd.Shutdown.{GfdApp, start}
use fall2026_18749_project.Gfd.Serving.{Event, run, new_app, close, IsOver, close-run-IsOver}
use fall2026_18749_project.Entry.Monitor.{Monitor, servers_of, make_gfd, no_blank_lfd}
use fall2026_18749_project.Entry.Running.{
  ProcessEnd, finished, usage_error, raises, outcome_of, loaded_file,
}

-- After `start` the process waits for the signal, while the connections come and go, and closes;
-- `waited` comes in while it waits for the server.
unfoldable pub watch_until :
    List Event → List Event → Result (Unit {0}) × GfdApp → Result (Unit {0}) × GfdApp
watch_until events waited (ok u, s) = (ok u, close waited (run events s))
watch_until events waited (err e, s) = (err e, s)

-- `run`, with the app if one was made.
unfoldable pub run_gfd :
    Result ℕ → List Event → List Event → Result Monitor → Result (Unit {0}) × Option GfdApp
unfolding watch_until
run_gfd bound events waited (ok m) =
    let (r, s) = watch_until events waited (start bound m.app) in (r, some s)
run_gfd bound events waited (err e) = (err e, none)

unfoldable pub configured_gfd : (ℤ → Result Float) → String → Opened → Option Float → Result Monitor
configured_gfd to_float path opened freq = do c ← load_file to_float path opened; make_gfd c freq

-- `main`: `bound` is what `start_server` answers, `events` what comes before the signal.
unfoldable pub gfd_main :
    (ℤ → Result Float)
    → String
    → Opened
    → Option Float
    → Result ℕ
    → List Event
    → List Event
    → ProcessEnd × Option GfdApp
unfolding outcome_of run_gfd configured_gfd
gfd_main to_float path opened freq bound events waited =
    let (r, s) = run_gfd bound events waited (configured_gfd to_float path opened freq) in
    (outcome_of r, s)

-- How the process ends, what of the configuration and the call of `start_server` that rests on, and
-- what is left of the app.
pub data IsGfdEnd (to_float : ℤ → Result Float) (path : String) (opened : Opened) (bound : Result ℕ)
    : ProcessEnd × Option GfdApp → Type 0 where
  signalled :
      (c : AppConfig) (g : GfdConfig) (p : ℕ) (app : GfdApp)
      → load_file to_float path opened ≡ ok c
      → c.gfd ≡ some g
      → bound ≡ ok p
      → IsOver app
      → IsGfdEnd to_float path opened bound (finished, some app)
  no_socket :
      (c : AppConfig) (g : GfdConfig) (e : Exn) (app : GfdApp)
      → load_file to_float path opened ≡ ok c
      → c.gfd ≡ some g
      → bound ≡ err e
      → IsOver app
      → IsGfdEnd to_float path opened bound (outcome_of (err e), some app)
  no_section :
      (c : AppConfig)
      → load_file to_float path opened ≡ ok c
      → c.gfd ≡ none
      → IsGfdEnd to_float path opened bound
          (usage_error "configuration requires a gfd section", none)
  refused :
      (message : String)
      → load_file to_float path opened ≡ err (config_error message)
      → IsGfdEnd to_float path opened bound (usage_error message, none)
  too_large :
      Overflows to_float opened
      → load_file to_float path opened ≡ err overflow_error
      → IsGfdEnd to_float path opened bound (raises overflow_error, none)
  no_text :
      (message : String)
      → opened ≡ undecodable message
      → IsGfdEnd to_float path opened bound (raises (value_error message), none)

new_app-IsOver : (lfd_servers : Table String) → IsOver (new_app lfd_servers)
unfolding has find
new_app-IsOver lfd_servers = record {
  no_listener = refl;
  no_member = λ j. refl;
  no_session = λ l. refl;
  no_handler = λ v. refl;
}

-- What `run` knows before `start`.
data Prepared (lfds : Table LfdConfig) : Option GfdConfig → Result Monitor → Type 0 where
  makes :
      (g : GfdConfig) (m : Monitor)
      → m.app ≡ new_app (servers_of lfds [])
      → Prepared lfds (some g) (ok m)
  lacks : Prepared lfds none (err (config_error "configuration requires a gfd section"))

make_gfd-Prepared : (c : AppConfig) (freq : Option Float) → Prepared c.lfds c.gfd (make_gfd c freq)
unfolding make_gfd
make_gfd-Prepared c freq = elim (Option-cases c.gfd) [
  | inl missing ↦ rw missing lacks
  | inr (g, given) ↦ rw given (makes g _ refl)
]

module _ (to_float : ℤ → Result Float) (path : String) (opened : Opened) (bound : Result ℕ)
    (events waited : List Event) where
  -- From `start` on.
  started-IsGfdEnd :
      (c : AppConfig) (g : GfdConfig)
      → IsDeployment c
      → load_file to_float path opened ≡ ok c
      → c.gfd ≡ some g
      → (x : Result ℕ) → bound ≡ x
      → let (r, s) = watch_until events waited (start x (new_app (servers_of c.lfds []))) in
        IsGfdEnd to_float path opened bound (outcome_of r, some s)
  unfolding watch_until start outcome_of
  started-IsGfdEnd c g deployed loaded given (ok p) h =
      signalled c g p _ loaded given h
        (close-run-IsOver (servers_of c.lfds []) (no_blank_lfd c deployed) (ok p) events waited)
  started-IsGfdEnd c g deployed loaded given (err e) h =
      no_socket c g e _ loaded given h (new_app-IsOver (servers_of c.lfds []))

  -- From what `run` makes of a configuration on.
  prepared_end :
      (c : AppConfig)
      → IsDeployment c
      → load_file to_float path opened ≡ ok c
      → (o : Option GfdConfig) (x : Result Monitor) → Prepared c.lfds o x
      → c.gfd ≡ o
      → let (r, s) = run_gfd bound events waited x in
        IsGfdEnd to_float path opened bound (outcome_of r, s)
  unfolding run_gfd outcome_of
  prepared_end c deployed loaded _ _ (makes g m new) given =
      rw new (started-IsGfdEnd c g deployed loaded given bound refl)
  prepared_end c deployed loaded _ _ lacks missing = no_section c loaded missing

module _ (to_float : ℤ → Result Float) (keeps : KeepsSign to_float)
    (limits : OnlyOverflows to_float) (path : String) (opened : Opened) (freq : Option Float)
    (bound : Result ℕ) (events waited : List Event) where
  loaded-IsGfdEnd :
      (x : Result AppConfig)
      → load_file to_float path opened ≡ x
      → IsTold (Overflows to_float opened) x
      → let (r, s) = run_gfd bound events waited (x >>= λ c. make_gfd c freq) in
        IsGfdEnd to_float path opened bound (outcome_of r, s)
  unfolding run_gfd outcome_of
  loaded-IsGfdEnd _ h (returns c) =
      prepared_end to_float path opened bound events waited c
        (loaded_file to_float keeps path opened c h) h c.gfd (make_gfd c freq)
        (make_gfd-Prepared c freq) refl
  loaded-IsGfdEnd _ h (tells m) = refused m h
  loaded-IsGfdEnd _ h (overflows o) = too_large o h

  -- The process of the GFD, for any configuration file, heartbeat period of the command line,
  -- answer of the system to `start_server`, connections, messages, failures and deadlines before
  -- the signal, and any that come before `wait_closed` has returned. If the configuration is
  -- accepted, has a gfd section and the port is bound, it ends with status 0; if the port is not
  -- bound, with what `main` makes of that exception; and in both cases no socket listens at the
  -- end, no replica is a member, no detector has a session, and no handler runs. Otherwise no app
  -- is made: without the section, or when `load_config` raises a ConfigError, it ends with that
  -- message from the parser of the arguments, when the file cannot be decoded, with that exception,
  -- and with OverflowError when `load_config` raises it, and then some integer in the file is too
  -- large for a float - if `float` of an integer returns or raises OverflowError, and keeps the
  -- sign of positive ones.
  pub gfd_main-IsGfdEnd :
      IsGfdEnd to_float path opened bound (gfd_main to_float path opened freq bound events waited)
  unfolding gfd_main configured_gfd run_gfd outcome_of
  gfd_main-IsGfdEnd = elim (load_file-IsTold to_float limits path opened) [
    | inl told ↦ loaded-IsGfdEnd (load_file to_float path opened) refl told
    | inr (m, is, e) ↦ rw e (no_text m is)
  ]
