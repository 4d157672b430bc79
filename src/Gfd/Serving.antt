-- ===== src/Gfd/Serving.antt =====
-- A `GfdApp` of src/ft_system/gfd/app.py from `start` to `close`: the connections that come, and the
-- set `_tasks` of the handlers that run.
use fall2026_18749_project.Prelude.{
  ℕ, String, ◌≡◌, refl, Bool, true, false, Option, none, some, List, [], ◌∷◌, Table, find, any,
  arith, nat_eq, Bool-cases, inl, inr, if◌then◌else◌,
}
use fall2026_18749_project.Text.{is_blank}
use fall2026_18749_project.Result.{Result, ok, err}
use fall2026_18749_project.Gfd.{
  Gfd, Phase, absent, opened, closed, awaiting, resting, Input, handle,
}
use fall2026_18749_project.Logger
use fall2026_18749_project.Gfd.Members.{has, sorted}
use fall2026_18749_project.Gfd.System.{
  set_phase, connect, input, Reach, later, initial, unconnected-Reach,
}
use fall2026_18749_project.Gfd.Shutdown.{
  GfdApp, start, deliver, cancel_handlers, is_running, Covers, cancel_handlers_empties,
}
use fall2026_18749_project.Server.LifeCycle.{without}

-- `__init__`
abbrev pub new_app : Table String → GfdApp
new_app lfd_servers = record { listener = none; tasks = []; system = initial lfd_servers }

-- A connection is accepted, or the handler of one goes on.
pub data Event : Type 0 where
  accepts : (writer : ℕ) → Event
  continues : (writer : ℕ) → Input → Event

abbrev pub is_absent : Phase → Bool
is_absent absent = true
is_absent _ = false

-- A handler begins: `self._tasks.add(task)`.
unfoldable pub begin_handler : ℕ → GfdApp → GfdApp
begin_handler w s = record s {
  tasks = w ∷ s.tasks;
  system = record s.system { phase = set_phase s.system.phase w opened };
}

-- A handler that ends takes its task out of the set.
unfoldable pub continue_handler : ℕ → Input → GfdApp → GfdApp
unfolding deliver without
continue_handler w i s = record s {
  tasks = if is_running ((deliver w i s.system).phase w) then s.tasks else without w s.tasks;
  system = deliver w i s.system;
}

unfoldable pub step : Event → GfdApp → GfdApp
unfolding begin_handler continue_handler
step (accepts w) s = if is_absent (s.system.phase w) then begin_handler w s else s
step (continues w i) s = continue_handler w i s

unfoldable pub run : List Event → GfdApp → GfdApp
unfolding step
run [] s = s
run (e ∷ es) s = run es (step e s)

-- `wait_closed`, while the handlers go on as in `waited`: since Python 3.12 it waits for the
-- connections that are open.
unfoldable pub close_server : List Event → Option ℕ → GfdApp → GfdApp
unfolding run
close_server waited none s = s
close_server waited (some port) s = record (run waited s) { listener = none }

-- `close`, where `wait_closed` returns after the stretches `waited`.
unfoldable pub close : List Event → GfdApp → GfdApp
unfolding close_server
close waited s = cancel_handlers (close_server waited s.listener s)

record IsServing (lfd_servers : Table String) (s : GfdApp) : Type 0 where
  reached : Reach lfd_servers s.system
  covers : Covers s.tasks s.system

is_absent_lem : (p : Phase) → is_absent p ≡ true → p ≡ absent
is_absent_lem absent h = refl
is_absent_lem opened h = cc
is_absent_lem closed h = cc
is_absent_lem (awaiting l n) h = cc
is_absent_lem (resting l n) h = cc

-- Only a handler that runs goes on.
handle-is_running :
    (w : ℕ) (p : Phase) (i : Input) (s : Gfd)
    → is_running (handle w p i s).0 ≡ true
    → is_running p ≡ true
unfolding handle
handle-is_running w absent i s h = h
handle-is_running w closed i s h = h
handle-is_running w opened i s h = refl
handle-is_running w (awaiting l n) i s h = refl
handle-is_running w (resting l n) i s h = refl

any-without :
    (w v : ℕ) (ws : List ℕ)
    → nat_eq v w ≡ false
    → any (λ x. nat_eq v x) ws ≡ true
    → any (λ x. nat_eq v x) (without w ws) ≡ true
unfolding any without
any-without w v [] other h = h
any-without w v (x ∷ ws) other h = ground (arith, any-without w v ws other)

module _ {lfd_servers : Table String} (w : ℕ) (s : GfdApp) (q : IsServing lfd_servers s) where
  begin_handler-IsServing : s.system.phase w ≡ absent → IsServing lfd_servers (begin_handler w s)
  unfolding begin_handler any
  begin_handler-IsServing fresh = record {
    reached = later q.reached (connect w fresh);
    covers = λ v h. ground (arith, q.covers v);
  }

  continue-Covers :
      (i : Input) (v : ℕ)
      → is_running ((deliver w i s.system).phase v) ≡ true
      → any (λ x. nat_eq v x) (continue_handler w i s).tasks ≡ true
  unfolding continue_handler deliver
  continue-Covers i v h = ground (
    arith,
    handle-is_running w (s.system.phase w) i s.system.gfd,
    q.covers v,
    q.covers w,
    any-without w v s.tasks,
  )

  continue-IsServing : (i : Input) → IsServing lfd_servers (continue_handler w i s)
  unfolding continue_handler deliver
  continue-IsServing i = record {
    reached = later q.reached (input w i);
    covers = continue-Covers i;
  }

accepts-IsServing :
    {lfd_servers : Table String} (w : ℕ) (s : GfdApp)
    → IsServing lfd_servers s
    → IsServing lfd_servers (step (accepts w) s)
unfolding step
accepts-IsServing w s q = elim (Bool-cases (is_absent (s.system.phase w))) [
  | inl e ↦ rw e (begin_handler-IsServing w s q (is_absent_lem (s.system.phase w) e))
  | inr e ↦ rw e q
]

run-IsServing :
    {lfd_servers : Table String} (es : List Event) (s : GfdApp)
    → IsServing lfd_servers s
    → IsServing lfd_servers (run es s)
unfolding run step
run-IsServing [] s q = q
run-IsServing (accepts w ∷ es) s q = run-IsServing es (step (accepts w) s) (accepts-IsServing w s q)
run-IsServing (continues w i ∷ es) s q =
    run-IsServing es (continue_handler w i s) (continue-IsServing w s q i)

start-IsServing :
    (lfd_servers : Table String) (bound : Result ℕ)
    → IsServing lfd_servers (start bound (new_app lfd_servers)).1
unfolding start
start-IsServing lfd_servers (ok port) = record {
  reached = unconnected-Reach lfd_servers (Logger.membership (sorted []) ∷ []);
  covers = λ v h. cc;
}
start-IsServing lfd_servers (err e) = record {
  reached = unconnected-Reach lfd_servers [];
  covers = λ v h. cc;
}

close_server-IsServing :
    {lfd_servers : Table String} (waited : List Event) (o : Option ℕ) (s : GfdApp)
    → IsServing lfd_servers s
    → IsServing lfd_servers (close_server waited o s)
unfolding close_server
close_server-IsServing waited none s q = q
close_server-IsServing waited (some port) s q =
    let t = run-IsServing waited s q in record { reached = t.reached; covers = t.covers }

close_server-listener :
    (waited : List Event) (o : Option ℕ) (s : GfdApp)
    → s.listener ≡ o
    → (close_server waited o s).listener ≡ none
unfolding close_server
close_server-listener waited none s e = e
close_server-listener waited (some port) s e = refl

-- Nothing of the app is left: no socket, member, session or handler.
pub record IsOver (app : GfdApp) : Type 0 where
  pub no_listener : app.listener ≡ none
  pub no_member : (j : String) → has app.system.gfd.members j ≡ false
  pub no_session : (l : String) → find app.system.gfd.sessions l ≡ none
  pub no_handler : (v : ℕ) → is_running (app.system.phase v) ≡ false

pub close-run-IsOver :
    (lfd_servers : Table String)
    (names : (l r : String) → find lfd_servers l ≡ some r → is_blank l ≡ false) (bound : Result ℕ)
    (events waited : List Event)
    → IsOver (close waited (run events (start bound (new_app lfd_servers)).1))
unfolding close cancel_handlers
close-run-IsOver lfd_servers names bound events waited =
    let s = run events (start bound (new_app lfd_servers)).1 in
    let t = close_server waited s.listener s in
    let q = run-IsServing events _ (start-IsServing lfd_servers bound) in
    let q = close_server-IsServing waited s.listener s q in
    let (members, sessions, handlers) =
      cancel_handlers_empties lfd_servers names t q.reached q.covers in
    record {
      no_listener = close_server-listener waited s.listener s refl;
      no_member = members;
      no_session = sessions;
      no_handler = handlers;
    }
