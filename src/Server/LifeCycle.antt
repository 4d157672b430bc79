-- ===== src/Server/LifeCycle.antt =====
-- `ServerApp` of src/ft_system/server/app.py: the two listening sockets and the connections. What the
-- system answers to `asyncio.start_server` is an argument: the port that the socket is bound to, or
-- an exception. `start` is one stretch: no connection comes while it waits for the second socket.
use fall2026_18749_project.Prelude.{
  ℕ, ◌≡◌, ap, ◌∙◌, nat_eq_refl, refl, String, Bool, true, false, not, ◌&&◌, ◌||◌, Option, none,
  some, List, [], ◌∷◌, ◌++◌, nat_eq, arith, if◌then◌else◌,
}
use Prim.Native.String.{◌++◌ as join}
use fall2026_18749_project.Result.{Exn, Result, ok, err, runtime_error, guard}
use fall2026_18749_project.Exec.{Exec, pure, raise, lift, gets, modify, ◌>>=◌, ◌>>◌}

-- `client_server` and `heartbeat_server` are the ports of `_client_server` and `_heartbeat_server`,
-- `listening` the ports of all sockets that are open, `writers` the writers of `_active_writers`,
-- which stand for their tasks as well, and `closed_writers` the ones that `close` has closed.
pub record ServerApp : Type 0 where
  pub client_server : Option ℕ
  pub heartbeat_server : Option ℕ
  pub listening : List ℕ
  pub writers : List ℕ
  pub closed_writers : List ℕ

-- `__init__`
abbrev pub make : ServerApp
make = record {
  client_server = none;
  heartbeat_server = none;
  listening = [];
  writers = [];
  closed_writers = [];
}

abbrev pub is_set : Option ℕ → Bool
is_set none = false
is_set (some p) = true

unfoldable pub without : ℕ → List ℕ → List ℕ
without p [] = []
without p (q ∷ ps) = let rest = without p ps in if nat_eq p q then rest else q ∷ rest

-- `_bound_port`
unfoldable pub bound_port : Option ℕ → String → Result ℕ
bound_port none name = err (runtime_error (join name " listener is not started"))
bound_port (some p) name = ok p

-- `start_server` succeeds or fails.
unfoldable pub listen : Result ℕ → Exec ServerApp ℕ
listen bound = do p ← lift bound; modify (λ s. record s { listening = p ∷ s.listening }); pure p

-- The `except` block of `start`.
unfoldable pub undo : ℕ → Exn → Exec ServerApp (Unit {0})
undo p e = do
  modify (λ s. record s { client_server = none; listening = without p s.listening })
  raise e

-- The second socket, in the `try`.
unfoldable pub listen_heartbeat : ℕ → Result ℕ → Exec ServerApp (Unit {0})
unfolding undo
listen_heartbeat p (ok q) =
    modify (λ s. record s { listening = q ∷ s.listening; heartbeat_server = some q })
listen_heartbeat p (err e) = undo p e

-- `start`
unfoldable pub start : Result ℕ → Result ℕ → Exec ServerApp (Unit {0})
unfolding listen listen_heartbeat
start client heartbeat = do
  started ← gets (λ s. is_set s.client_server || is_set s.heartbeat_server)
  lift (guard (not started) (runtime_error "server is already started"))
  p ← listen client
  modify (λ s. record s { client_server = some p })
  listen_heartbeat p heartbeat

-- The test of `serve_forever`.
unfoldable pub check_started : Exec ServerApp (Unit {0})
check_started = do
  started ← gets (λ s. is_set s.client_server && is_set s.heartbeat_server)
  lift (guard started (runtime_error "server is not started"))

-- `_serve_connection`, before and after the handler.
unfoldable pub enter_connection : ℕ → ServerApp → ServerApp
enter_connection w s = record s { writers = w ∷ s.writers }

unfoldable pub leave_connection : ℕ → ServerApp → ServerApp
leave_connection w s = record s { writers = without w s.writers }

abbrev pub without_port : Option ℕ → List ℕ → List ℕ
without_port none ps = ps
without_port (some p) ps = without p ps

-- `close` up to the wait for the handlers.
unfoldable pub close : ServerApp → ServerApp
close s = record s {
  client_server = none;
  heartbeat_server = none;
  listening = without_port s.heartbeat_server (without_port s.client_server s.listening);
  closed_writers = s.writers ++ s.closed_writers;
}

abbrev pub with_port : Option ℕ → List ℕ → List ℕ
with_port none ps = ps
with_port (some p) ps = p ∷ ps

-- Both sockets are open, or none is, and the object knows which.
pub data IsTidy (s : ServerApp) : Type 0 where
  down : s.client_server ≡ none → s.heartbeat_server ≡ none → s.listening ≡ [] → IsTidy s
  up :
      (p q : ℕ)
      → s.client_server ≡ some p
      → s.heartbeat_server ≡ some q
      → s.listening ≡ q ∷ p ∷ []
      → IsTidy s

-- `start` from a state without sockets.
start_down :
    (client heartbeat : Result ℕ) (s : ServerApp)
    → s.client_server ≡ none
    → s.heartbeat_server ≡ none
    → s.listening ≡ []
    → IsTidy (start client heartbeat s).1
unfolding start listen listen_heartbeat undo without
start_down (ok p) (ok q) s c h l = rw (c, h) (up p q refl refl (ap (λ (x : List ℕ). q ∷ p ∷ x) l))
start_down (ok p) (err e) s c h l = simp (c, h, l, nat_eq_refl p) (down refl refl refl)
start_down (err e) heartbeat s c h l = simp (c, h) (down c h l)

pub start-IsTidy :
    (client heartbeat : Result ℕ) (s : ServerApp) → IsTidy s → IsTidy (start client heartbeat s).1
unfolding start
start-IsTidy client heartbeat s (up p q c h l) = simp (c) (up p q c h l)
start-IsTidy client heartbeat s (down c h l) = start_down client heartbeat s c h l

both_closed : (p q : ℕ) → without q (without p (q ∷ p ∷ [])) ≡ []
unfolding without
both_closed p q = ground (arith, nat_eq_refl p, nat_eq_refl q)

close_listening : (s : ServerApp) → IsTidy s → (close s).listening ≡ []
unfolding close
close_listening s (down c h l) = rw (c, h) l
close_listening s (up p q c h l) = rw (c, h, l) (both_closed p q)

close-IsTidy : (s : ServerApp) → IsTidy s → IsTidy (close s)
unfolding close
close-IsTidy s q = down refl refl (close_listening s q)

-- The calls that can be made, and the connections that come and go.
pub data Event : Type 0 where
  starts : (client heartbeat : Result ℕ) → Event
  enters leaves : (writer : ℕ) → Event
  closes : Event

unfoldable pub step : Event → ServerApp → ServerApp
step (starts client heartbeat) s = (start client heartbeat s).1
step (enters w) s = enter_connection w s
step (leaves w) s = leave_connection w s
step closes s = close s

unfoldable pub run : List Event → ServerApp → ServerApp
unfolding step
run [] s = s
run (e ∷ es) s = run es (step e s)

same-IsTidy :
    (s t : ServerApp)
    → t.client_server ≡ s.client_server
    → t.heartbeat_server ≡ s.heartbeat_server
    → t.listening ≡ s.listening
    → IsTidy s
    → IsTidy t
same-IsTidy s t a b d (down c h l) = down (a ∙ c) (b ∙ h) (d ∙ l)
same-IsTidy s t a b d (up p q c h l) = up p q (a ∙ c) (b ∙ h) (d ∙ l)

step-IsTidy : (e : Event) (s : ServerApp) → IsTidy s → IsTidy (step e s)
unfolding step enter_connection leave_connection
step-IsTidy (starts client heartbeat) s q = start-IsTidy client heartbeat s q
step-IsTidy (enters w) s q = same-IsTidy s (enter_connection w s) refl refl refl q
step-IsTidy (leaves w) s q = same-IsTidy s (leave_connection w s) refl refl refl q
step-IsTidy closes s q = close-IsTidy s q

run-IsTidy : (es : List Event) (s : ServerApp) → IsTidy s → IsTidy (run es s)
unfolding run
run-IsTidy [] s q = q
run-IsTidy (e ∷ es) s q = run-IsTidy es (step e s) (step-IsTidy e s q)

-- After any sequence of calls of `start`, which may find a port taken, of `close`, and of
-- connections that come and go, on a new `ServerApp`: either both listening sockets are open and
-- known to it, or none is open and it knows none; and a further `close` leaves no socket open.
pub no_socket_left :
    (es : List Event) → IsTidy (run es make) × ((close (run es make)).listening ≡ [])
no_socket_left es = (
  run-IsTidy es make (down refl refl refl),
  close_listening (run es make) (run-IsTidy es make (down refl refl refl)),
)
