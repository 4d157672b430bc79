-- ===== src/Entry/Agreement.antt =====
-- What src/ft_system/lfd/main.py and src/ft_system/gfd/main.py make of one configuration fits together.
use fall2026_18749_project.Prelude.{
  ℕ, String, ◌≡◌, refl, sym, subst, ◌∙◌, Option, none, some, [], find,
}
use fall2026_18749_project.Value.{Float}
use fall2026_18749_project.Result.{Result, ok}
use fall2026_18749_project.Config.{LfdConfig, GfdConfig, AppConfig}
use fall2026_18749_project.Config.Loaded.{IsDeployment}
use fall2026_18749_project.Gfd.{opened}
use fall2026_18749_project.Gfd.System.{System, set_phase, initial, unconnected-Reach}
use fall2026_18749_project.Reporter
use fall2026_18749_project.Detection.{Reads, accepts}
use fall2026_18749_project.Entry.Detector.{
  Detector, parse_heartbeat_freq, make_detector, reporter_for,
}
use fall2026_18749_project.Entry.Starting.{detector_starts}
use fall2026_18749_project.Entry.Monitor.{Monitor, servers_of, make_gfd, gfd_starts}

reporter_given :
    (l r : String) (o : Option GfdConfig) (g : GfdConfig)
    → o ≡ some g
    → reporter_for l r o ≡ some (Reporter.make l r)
unfolding reporter_for
reporter_given l r none g h = cc
reporter_given l r (some x) g h = refl

-- The GFD has accepted the connection `w`.
abbrev pub accepted : ℕ → System → System
accepted w s = record s { phase = set_phase s.phase w opened }

module _ (c : AppConfig) (deployed : IsDeployment c) (g : GfdConfig) (given : c.gfd ≡ some g) where
  -- For every detector of a deployment whose parts are valid and which has a gfd section, the entry
  -- points of the detector and of the GFD, with any heartbeat period that `positive_float` has
  -- accepted for the detector, or none, make their objects without raising; the reporter that the
  -- one makes names the detector and its server, and a connection at the other starts in the state
  -- in which a handler for exactly this detector and this server starts.
  pub detector_admitted :
      (to_number : String → Result Float) (text : Option String) (freq gfd_freq : Option Float)
      → parse_heartbeat_freq to_number text ≡ ok freq
      → (id : String) (l : LfdConfig) → find c.lfds id ≡ some l
      → (w : ℕ)
      → (m : Monitor) × (d : Detector) × (make_gfd c gfd_freq ≡ ok m)
        × (make_detector c id freq ≡ ok d)
        × (d.reporter ≡ some (Reporter.make l.lfd_id l.server_id))
        × (find m.app.system.gfd.lfd_servers id ≡ some l.server_id)
        × (find m.app.system.gfd.sessions id ≡ none)
        × Reads m.app.system.gfd.lfd_servers w id l.server_id [] (accepted w m.app.system)
  unfolding find
  detector_admitted to_number text freq gfd_freq value id l found w =
      let (s, d, served, made, watches) =
        detector_starts c deployed to_number text freq value id l found in
      let (m, monitored, is, table) = gfd_starts c deployed g given gfd_freq in
      let servers = servers_of c.lfds [] in
      (
        m,
        d,
        monitored,
        made,
        watches.reporter ∙ reporter_given l.lfd_id l.server_id c.gfd g given,
        table id ∙ rw found refl,
        rw is refl,
        subst (λ (x : System). Reads x.gfd.lfd_servers w id l.server_id [] (accepted w x)) (sym is)
            (accepts (initial servers) (unconnected-Reach servers []) refl),
      )
