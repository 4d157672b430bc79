-- ===== src/Samples/EntryExamples.antt =====
-- The processes of the concrete deployment: src/ft_system/server/main.py, src/ft_system/lfd/main.py and
-- src/ft_system/gfd/main.py.
use fall2026_18749_project.Prelude.{
  ℕ, String, ◌≡◌, refl, Option, none, some, List, [], ◌∷◌, find, put,
}
use fall2026_18749_project.Value.{pos, Float, finite}
use fall2026_18749_project.Result.{Result, ok, err, os_error, eof_error}
use fall2026_18749_project.Config.{LfdConfig, GfdConfig, is_positive}
use fall2026_18749_project.Reporter
use fall2026_18749_project.Gfd.{arrived, failed}
use fall2026_18749_project.Detection.{Reads}
use fall2026_18749_project.Entry.Agreement.{accepted, detector_admitted}
use fall2026_18749_project.Config.Loaded.{Known}
use fall2026_18749_project.Server.Cases.{IsConsistent}
use fall2026_18749_project.Gfd.Effects.{detector}
use fall2026_18749_project.Gfd.System.{initial}
use fall2026_18749_project.Gfd.Serving.{Event, accepts, continues}
use fall2026_18749_project.Entry.Replica.{Replica, make_server, counter_of, server_starts}
use fall2026_18749_project.Entry.Detector.{
  Detector, positive_float, parse_heartbeat_freq, make_detector,
}
use fall2026_18749_project.Config.File.{parsed}
use fall2026_18749_project.Entry.Watching.{gfd_main, IsGfdEnd, gfd_main-IsGfdEnd}
use fall2026_18749_project.Entry.Detecting.{lfd_main, IsLfdEnd, lfd_main-IsLfdEnd}
use fall2026_18749_project.Samples.LfdExamples.{alive, cap}
use fall2026_18749_project.Entry.Running.{server_main, IsEnd, server_main-IsEnd}
use fall2026_18749_project.Entry.Monitor.{Monitor, servers_of, make_gfd, members_configured}
use fall2026_18749_project.Samples.ConfigExamples.{
  exact, exact-KeepsSign, exact-OnlyOverflows, document, deployment, is_deployment, the_server,
  the_lfd, the_gfd,
}
use fall2026_18749_project.Samples.GfdExamples.{
  detectors, registers, registered, reached, is_member,
}

server_known : find deployment.servers "S1" ≡ some the_server
unfolding find
server_known = refl

server_starts_example :
    (r : Replica) × (make_server deployment "S1" ≡ ok r)
    × (r.config ≡ the_server)
    × (r.listener.replica_id ≡ "S1")
    × IsConsistent r.listener
    × ((k : String) → find r.listener.counters k ≡ counter_of (find deployment.clients k))
server_starts_example = server_starts deployment is_deployment "S1" the_server server_known

lfd_known : find deployment.lfds "LFD1" ≡ some the_lfd
unfolding find
lfd_known = refl

-- Two seconds, whatever the text.
abbrev two_seconds : String → Result Float
two_seconds text = ok (finite (pos 2) 0)

given : parse_heartbeat_freq two_seconds (some "2") ≡ ok (some (finite (pos 2) 0))
unfolding parse_heartbeat_freq positive_float is_positive
given = refl

-- The heartbeat is answered, and the signal comes in the second round.
lfd_main-IsLfdEnd_example :
    IsLfdEnd exact "m2.local.toml"
      (parsed document)
      "LFD1"
      (some (finite (pos 2) 0))
      cap
      (alive ∷ [])
      alive
      (lfd_main exact "m2.local.toml"
        (parsed document)
        "LFD1"
        (some (finite (pos 2) 0))
        cap
        (alive ∷ [])
        alive)
lfd_main-IsLfdEnd_example =
    lfd_main-IsLfdEnd two_seconds (some "2") (some (finite (pos 2) 0)) given exact exact-KeepsSign
      exact-OnlyOverflows "m2.local.toml" (parsed document) "LFD1" cap (alive ∷ []) alive

abbrev monitor : Monitor
monitor = record {
  config = the_gfd;
  app = record { listener = none; tasks = []; system = initial detectors };
}

monitor_made : make_gfd deployment none ≡ ok monitor
unfolding make_gfd servers_of put
monitor_made = refl

members_configured_example :
    (id : String) × (w : ℕ) × (l : LfdConfig) × (detector (registered.phase w) ≡ some id)
    × (find deployment.lfds id ≡ some l)
    × (l.server_id ≡ "S1")
    × Known deployment.servers "S1"
members_configured_example =
    members_configured deployment is_deployment none monitor monitor_made registered reached "S1"
      is_member

-- The GFD listens, LFD1 connects and registers its server.
abbrev registration_events : List Event
registration_events = accepts 0 ∷ continues 0 (arrived registers) ∷ []

gfd_section : ◌≡◌ {A = Option GfdConfig} deployment.gfd (some the_gfd)
gfd_section = refl

detector_admitted_example :
    (m : Monitor) × (d : Detector) × (make_gfd deployment none ≡ ok m)
    × (make_detector deployment "LFD1" (some (finite (pos 2) 0)) ≡ ok d)
    × (d.reporter ≡ some (Reporter.make "LFD1" "S1"))
    × (find m.app.system.gfd.lfd_servers "LFD1" ≡ some "S1")
    × (find m.app.system.gfd.sessions "LFD1" ≡ none)
    × Reads m.app.system.gfd.lfd_servers 4 "LFD1" "S1" [] (accepted 4 m.app.system)
detector_admitted_example =
    detector_admitted deployment is_deployment the_gfd gfd_section two_seconds (some "2")
      (some (finite (pos 2) 0)) none given "LFD1" the_lfd lfd_known 4

-- The second port is taken.
server_main-IsEnd_example :
    let (outcome, s) =
      server_main exact "m2.local.toml" (parsed document) "S1" (ok 5000) (err os_error) [] in
    IsEnd exact "m2.local.toml" (parsed document) "S1" (ok 5000) (err os_error) outcome
    × (s.listening ≡ [])
server_main-IsEnd_example =
    server_main-IsEnd exact exact-KeepsSign exact-OnlyOverflows "m2.local.toml" (parsed document)
      "S1" (ok 5000) (err os_error) []

gfd_main-IsGfdEnd_example : IsGfdEnd exact "m2.local.toml" (parsed document) (ok 5002) (
    gfd_main exact "m2.local.toml"
      (parsed document)
      none
      (ok 5002)
      registration_events
      (continues 0 (failed eof_error) ∷ []))
gfd_main-IsGfdEnd_example =
    gfd_main-IsGfdEnd exact exact-KeepsSign exact-OnlyOverflows "m2.local.toml" (parsed document)
      none (ok 5002) registration_events (continues 0 (failed eof_error) ∷ [])
