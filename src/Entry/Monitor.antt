-- ===== src/Entry/Monitor.antt =====
-- src/ft_system/gfd/main.py: how `run` makes the GFD from the configuration.
use fall2026_18749_project.Prelude.{
  ℕ, String, ◌≡◌, refl, sym, ◌∙◌, subst, true, false, Option, none, some, [], ◌∷◌, Table, find, put,
  find-put, arith, eq_iff, Option-cases, inl, inr,
}
use fall2026_18749_project.Text.{is_blank}
use fall2026_18749_project.Value.{Float}
use fall2026_18749_project.Result.{Result, ok, err, config_error}
use fall2026_18749_project.Config.{LfdConfig, GfdConfig, AppConfig}
use fall2026_18749_project.Config.Valid.{IsDetector}
use fall2026_18749_project.Config.Keys.{keys, find-absent}
use fall2026_18749_project.Config.Loaded.{Every, Known, IsDeployment}
use fall2026_18749_project.StateMachine.{distinct}
use fall2026_18749_project.Gfd.Members.{has}
use fall2026_18749_project.Gfd.Effects.{detector}
use fall2026_18749_project.Gfd.System.{System, initial, Reach}
use fall2026_18749_project.Gfd.Safety.{member_watched, same_table}
use fall2026_18749_project.Gfd.Shutdown.{GfdApp}
use fall2026_18749_project.Entry.{Every-find}
use fall2026_18749_project.Entry.Detector.{value_or}

-- `{lfd.lfd_id: lfd.server_id for lfd in lfds.values()}`, from the entries of `servers` on.
unfoldable pub servers_of : Table LfdConfig → Table String → Table String
servers_of [] servers = servers
servers_of ((k, l) ∷ lfds) servers = servers_of lfds (put servers l.lfd_id l.server_id)

pub record Monitor : Type 0 where
  pub config : GfdConfig
  pub app : GfdApp

-- `run`, up to `start`.
unfoldable pub make_gfd : AppConfig → Option Float → Result Monitor
make_gfd c freq = elim c.gfd [
  | none ↦ err (config_error "configuration requires a gfd section")
  | some g ↦ ok (record {
    config = record g { heartbeat_freq = value_or freq g.heartbeat_freq };
    app = record { listener = none; tasks = []; system = initial (servers_of c.lfds []) };
  })
]

abbrev pub server_or : Option String → Option LfdConfig → Option String
server_or default none = default
server_or default (some l) = some l.server_id

find-servers_of :
    (lfds : Table LfdConfig) (servers : Table String) (k : String)
    → Every IsDetector lfds
    → distinct (keys lfds) ≡ true
    → find (servers_of lfds servers) k ≡ server_or (find servers k) (find lfds k)
unfolding servers_of distinct keys find
find-servers_of [] servers k all unique = refl
find-servers_of ((j, l) ∷ lfds) servers k (q, all) unique =
    find-servers_of lfds (put servers l.lfd_id l.server_id) k all (ground arith)
    ∙ ground (
      arith,
      q.key,
      find-put servers l.lfd_id l.server_id k,
      find-absent lfds j,
      eq_iff j k,
      eq_iff l.lfd_id k,
    )

server_or-some :
    (o : Option LfdConfig) (r : String)
    → server_or none o ≡ some r
    → (l : LfdConfig) × (o ≡ some l) × (l.server_id ≡ r)
server_or-some none r h = cc
server_or-some (some l) r h = (l, refl, cc)

made_table :
    (c : AppConfig) (freq : Option Float) (m : Monitor)
    → make_gfd c freq ≡ ok m
    → m.app.system.gfd.lfd_servers ≡ servers_of c.lfds []
unfolding make_gfd
made_table c freq m h = elim (Option-cases c.gfd) [
  | inl missing ↦ absurd (let h = rw missing at h in cc)
  | inr (g, given) ↦ let h = rw given at h in ground arith
]

module _ (c : AppConfig) (deployed : IsDeployment c) where
  table_lem : (id : String) → find (servers_of c.lfds []) id ≡ server_or none (find c.lfds id)
  unfolding find
  table_lem id = find-servers_of c.lfds [] id deployed.lfds deployed.unique_lfds

  -- What the table of the GFD says is configured.
  configured_lfd :
      (id r : String)
      → find (servers_of c.lfds []) id ≡ some r
      → (l : LfdConfig) × (find c.lfds id ≡ some l) × (l.server_id ≡ r)
  configured_lfd id r h = server_or-some (find c.lfds id) r (sym (table_lem id) ∙ h)

  pub no_blank_lfd : (id r : String) → find (servers_of c.lfds []) id ≡ some r → is_blank id ≡ false
  no_blank_lfd id r h =
      let (l, found, same) = configured_lfd id r h in
      (Every-find IsDetector c.lfds id l deployed.lfds found).named

  module _ (g : GfdConfig) (given : c.gfd ≡ some g) (freq : Option Float) where
    pub gfd_starts :
        (m : Monitor) × (make_gfd c freq ≡ ok m)
        × (m.app.system ≡ initial (servers_of c.lfds []))
        × ((id : String) → find m.app.system.gfd.lfd_servers id ≡ server_or none (find c.lfds id))
    unfolding make_gfd
    gfd_starts = (
      record {
        config = record g { heartbeat_freq = value_or freq g.heartbeat_freq };
        app = record { listener = none; tasks = []; system = initial (servers_of c.lfds []) };
      },
      rw given refl,
      refl,
      table_lem,
    )

  -- For the GFD that its entry point makes from a deployment whose parts are valid: in every state
  -- that connections, messages, failures and deadlines can lead to in any order, every member is a
  -- configured server, and it is the server of a configured detector that some connection has
  -- registered.
  pub members_configured :
      (freq : Option Float) (m : Monitor)
      → make_gfd c freq ≡ ok m
      → (s : System) → Reach m.app.system.gfd.lfd_servers s
      → (j : String) → has s.gfd.members j ≡ true
      → (id : String) × (w : ℕ) × (l : LfdConfig) × (detector (s.phase w) ≡ some id)
        × (find c.lfds id ≡ some l)
        × (l.server_id ≡ j)
        × Known c.servers j
  members_configured freq m made s reached j member =
      let same = made_table c freq m made in
      let reached = subst (λ (t : Table String). Reach t s) same reached in
      let (id, w, mine, known) = member_watched no_blank_lfd reached j member in
      let (l, found, is) = configured_lfd id j (rw (same_table no_blank_lfd reached) at known) in
      let server_known =
        Every-find (λ k l. Known c.servers l.server_id) c.lfds id l deployed.lfd_servers found in
      (id, w, l, mine, found, is, rw is at server_known)
