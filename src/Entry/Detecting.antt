-- ===== src/Entry/Detecting.antt =====
-- `run` and `main` of src/ft_system/lfd/main.py: from the arguments to the end of the process. The task
-- of the reporter, which is cancelled at the end, is in Reporter.
use Prim.Native.String.{◌++◌}
use fall2026_18749_project.Prelude.{
  ℕ, String, ◌≡◌, refl, sym, subst, false, Option, none, some, List, find, Option-cases, inl, inr,
}
use fall2026_18749_project.Value.{ℤ, Float}
use fall2026_18749_project.Result.{
  Exn, Result, ok, err, config_error, value_error, overflow_error, ◌>>=◌,
}
use fall2026_18749_project.Config.{LfdConfig, AppConfig, lfd, entry_of}
use fall2026_18749_project.Config.Valid.{KeepsSign, OnlyOverflows}
use fall2026_18749_project.Config.File.{Opened, undecodable, load_file}
use fall2026_18749_project.Config.Told.{IsTold, returns, tells, overflows}
use fall2026_18749_project.Config.Errors.{Overflows, load_file-IsTold}
use fall2026_18749_project.Config.Loaded.{IsDeployment}
use fall2026_18749_project.Lfd.{Lfd, Answers, run, is_caught}
use fall2026_18749_project.Lfd.Signalled.{
  until_stop, task_result, task_result-is_caught, run-until_stop,
}
use fall2026_18749_project.Entry.Detector.{Detector, parse_heartbeat_freq, make_detector}
use fall2026_18749_project.Entry.Starting.{detector_starts}
use fall2026_18749_project.Entry.Running.{
  ProcessEnd, finished, usage_error, raises, outcome_of, loaded_file,
}

-- From the task of the heartbeat loop on: `rounds` come before the signal, `last` is the round, or
-- the wait, in which it comes.
unfoldable pub run_lfd :
    (ℕ → ℕ → ℕ) → List Answers → Answers → Result Detector → Result (Unit {0}) × Option Lfd
run_lfd f rounds last (ok d) =
    (task_result f (until_stop rounds last) d.app, some (run f (until_stop rounds last) d.app))
run_lfd f rounds last (err e) = (err e, none)

unfoldable pub configured_lfd :
    (ℤ → Result Float) → String → Opened → String → Option Float → Result Detector
configured_lfd to_float path opened lfd_id freq = do
  c ← load_file to_float path opened
  make_detector c lfd_id freq

-- `main`, with the heartbeat period `freq` of the arguments.
unfoldable pub lfd_main :
    (ℤ → Result Float)
    → String
    → Opened
    → String
    → Option Float
    → (ℕ → ℕ → ℕ)
    → List Answers
    → Answers
    → ProcessEnd × Option Lfd
unfolding outcome_of run_lfd configured_lfd
lfd_main to_float path opened lfd_id freq f rounds last =
    let (r, s) = run_lfd f rounds last (configured_lfd to_float path opened lfd_id freq) in
    (outcome_of r, s)

-- How the process ends, what of the configuration and the heartbeat loop that rests on, and that no
-- connection is left.
pub data IsLfdEnd (to_float : ℤ → Result Float) (path : String) (opened : Opened) (lfd_id : String)
    (freq : Option Float) (f : ℕ → ℕ → ℕ) (rounds : List Answers) (last : Answers)
    : ProcessEnd × Option Lfd → Type 0 where
  signalled :
      (c : AppConfig) (l : LfdConfig) (d : Detector) (app : Lfd)
      → load_file to_float path opened ≡ ok c
      → find c.lfds lfd_id ≡ some l
      → make_detector c lfd_id freq ≡ ok d
      → task_result f (until_stop rounds last) d.app ≡ ok tt
      → app.connected ≡ false
      → IsLfdEnd to_float path opened lfd_id freq f rounds last (finished, some app)
  uncaught :
      (c : AppConfig) (l : LfdConfig) (d : Detector) (e : Exn) (app : Lfd)
      → load_file to_float path opened ≡ ok c
      → find c.lfds lfd_id ≡ some l
      → make_detector c lfd_id freq ≡ ok d
      → task_result f (until_stop rounds last) d.app ≡ err e
      → is_caught e ≡ false
      → app.connected ≡ false
      → IsLfdEnd to_float path opened lfd_id freq f rounds last (outcome_of (err e), some app)
  unknown_lfd :
      (c : AppConfig)
      → load_file to_float path opened ≡ ok c
      → find c.lfds lfd_id ≡ none
      → IsLfdEnd to_float path opened lfd_id freq f rounds last
          (usage_error ("unknown " ++ "LFD" ++ " id: " ++ lfd_id), none)
  refused :
      (message : String)
      → load_file to_float path opened ≡ err (config_error message)
      → IsLfdEnd to_float path opened lfd_id freq f rounds last (usage_error message, none)
  too_large :
      Overflows to_float opened
      → load_file to_float path opened ≡ err overflow_error
      → IsLfdEnd to_float path opened lfd_id freq f rounds last (raises overflow_error, none)
  no_text :
      (message : String)
      → opened ≡ undecodable message
      → IsLfdEnd to_float path opened lfd_id freq f rounds last (raises (value_error message), none)

-- What `run` knows before the first task.
data Prepared (c : AppConfig) (id : String) (freq : Option Float) : Result Detector → Type 0 where
  makes :
      (l : LfdConfig) (d : Detector)
      → find c.lfds id ≡ some l
      → make_detector c id freq ≡ ok d
      → Prepared c id freq (ok d)
  unknown :
      find c.lfds id ≡ none
      → Prepared c id freq (err (config_error ("unknown " ++ "LFD" ++ " id: " ++ id)))

make_detector-unknown :
    (c : AppConfig) (id : String) (freq : Option Float)
    → find c.lfds id ≡ none
    → make_detector c id freq ≡ err (config_error ("unknown " ++ "LFD" ++ " id: " ++ id))
unfolding make_detector lfd
make_detector-unknown c id freq missing = rw (missing, entry_of) refl

module _ (to_float : ℤ → Result Float) (path : String) (opened : Opened) (lfd_id : String)
    (freq : Option Float) (f : ℕ → ℕ → ℕ) (rounds : List Answers) (last : Answers) where
  -- From the tasks on.
  task-IsLfdEnd :
      (c : AppConfig) (l : LfdConfig) (d : Detector)
      → load_file to_float path opened ≡ ok c
      → find c.lfds lfd_id ≡ some l
      → make_detector c lfd_id freq ≡ ok d
      → (r : Result (Unit {0})) → task_result f (until_stop rounds last) d.app ≡ r
      → IsLfdEnd to_float path opened lfd_id freq f rounds last
          (outcome_of r, some (run f (until_stop rounds last) d.app))
  unfolding outcome_of
  task-IsLfdEnd c l d loaded found made (ok u) h =
      signalled c l d _ loaded found made h (run-until_stop f rounds last d.app)
  task-IsLfdEnd c l d loaded found made (err e) h =
      uncaught c l d e _ loaded found made h
        (task_result-is_caught f (until_stop rounds last) d.app e h)
        (run-until_stop f rounds last d.app)

  -- From what `run` makes of a configuration on.
  prepared_end :
      (c : AppConfig)
      → load_file to_float path opened ≡ ok c
      → (x : Result Detector) → Prepared c lfd_id freq x
      → let (r, s) = run_lfd f rounds last x in
        IsLfdEnd to_float path opened lfd_id freq f rounds last (outcome_of r, s)
  unfolding run_lfd outcome_of
  prepared_end c loaded _ (makes l d found made) = task-IsLfdEnd c l d loaded found made _ refl
  prepared_end c loaded _ (unknown missing) = unknown_lfd c loaded missing

module _ (to_number : String → Result Float) (text : Option String) (freq : Option Float)
    (given : parse_heartbeat_freq to_number text ≡ ok freq) where
  make_detector-Prepared :
      (c : AppConfig)
      → IsDeployment c
      → (id : String) → Prepared c id freq (make_detector c id freq)
  make_detector-Prepared c deployed id = elim (Option-cases (find c.lfds id)) [
    | inl missing ↦
        let e = make_detector-unknown c id freq missing in
        subst (Prepared c id freq) (sym e) (unknown missing)
    | inr (l, found) ↦
        let (s, d, served, made, watches) =
          detector_starts c deployed to_number text freq given id l found in
        subst (Prepared c id freq) (sym made) (makes l d found made)
  ]

  module _ (to_float : ℤ → Result Float) (keeps : KeepsSign to_float)
      (limits : OnlyOverflows to_float) (path : String) (opened : Opened) (lfd_id : String)
      (f : ℕ → ℕ → ℕ) (rounds : List Answers) (last : Answers) where
    loaded-IsLfdEnd :
        (x : Result AppConfig)
        → load_file to_float path opened ≡ x
        → IsTold (Overflows to_float opened) x
        → let (r, s) = run_lfd f rounds last (x >>= λ c. make_detector c lfd_id freq) in
          IsLfdEnd to_float path opened lfd_id freq f rounds last (outcome_of r, s)
    unfolding run_lfd outcome_of
    loaded-IsLfdEnd _ h (returns c) =
        let deployed = loaded_file to_float keeps path opened c h in
        prepared_end to_float path opened lfd_id freq f rounds last c h
          (make_detector c lfd_id freq) (make_detector-Prepared c deployed lfd_id)
    loaded-IsLfdEnd _ h (tells m) = refused m h
    loaded-IsLfdEnd _ h (overflows o) = too_large o h

    -- The process of a detector, for any configuration file, detector id, heartbeat period that
    -- `positive_float` has accepted or none, answers of the network in any rounds before the signal
    -- and in the one in which it comes. If the configuration is accepted and has this detector, the
    -- detector is made, and the process ends with status 0 when the task of the heartbeat loop
    -- returns, and else with what `main` makes of its exception, which is one that the loop does
    -- not catch; in both cases the heartbeat connection is dropped. Otherwise no app is made: if
    -- there is no such detector, or `load_config` raises a ConfigError, it ends with that message
    -- from the parser of the arguments, when the file cannot be decoded, with that exception, and
    -- with OverflowError when `load_config` raises it, and then some integer in the file is too
    -- large for a float - if `float` of an integer returns or raises OverflowError, and keeps the
    -- sign of positive ones.
    pub lfd_main-IsLfdEnd :
        IsLfdEnd to_float path opened lfd_id freq f rounds last
          (lfd_main to_float path opened lfd_id freq f rounds last)
    unfolding lfd_main configured_lfd run_lfd outcome_of
    lfd_main-IsLfdEnd = elim (load_file-IsTold to_float limits path opened) [
      | inl told ↦ loaded-IsLfdEnd (load_file to_float path opened) refl told
      | inr (m, is, e) ↦ rw e (no_text m is)
    ]
