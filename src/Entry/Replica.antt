-- ===== src/Entry/Replica.antt =====
-- src/ft_system/server/main.py: how `run` makes a `ServerApp` from the configuration.
use fall2026_18749_project.Prelude.{
  ℕ, String, ◌≡◌, ◌≢◌, refl, sym, ◌∙◌, false, Option, none, some, List, [], ◌∷◌, Table, find, map,
  All, ◌==◌, arith, eq_iff, Bool-cases, inl, inr,
}
use fall2026_18749_project.Text.{is_blank}
use fall2026_18749_project.Value.{str}
use fall2026_18749_project.Result.{Result, ok, ◌>>=◌}
use fall2026_18749_project.Config.{ServerConfig, ClientConfig, AppConfig, server}
use fall2026_18749_project.Config.Valid.{IsServer, IsClient}
use fall2026_18749_project.Config.Keys.{keys}
use fall2026_18749_project.Config.Loaded.{Every, IsDeployment}
use fall2026_18749_project.StateMachine.{init, init_lem}
use fall2026_18749_project.Server
use fall2026_18749_project.Server.{Listener}
use fall2026_18749_project.Server.Cases.{IsConsistent}
use fall2026_18749_project.Server.LifeCycle
use fall2026_18749_project.Server.LifeCycle.{ServerApp}
use fall2026_18749_project.Entry.{Every-find, server_found}

-- The listener of the client port, and the sockets.
pub record Replica : Type 0 where
  pub config : ServerConfig
  pub listener : Listener
  pub app : ServerApp

-- `run`, up to `start`.
unfoldable pub make_server : AppConfig → String → Result Replica
make_server c server_id = do
  s ← server c server_id
  counters ← init (map str (keys c.clients))
  ok (record { config = s; listener = Server.start s.replica_id counters; app = LifeCycle.make })

-- The counter of a client before any request.
abbrev pub counter_of : Option ClientConfig → Option ℕ
counter_of none = none
counter_of (some l) = some 0

counters_for : List String → Table ℕ
counters_for ids = map (λ (id : String). (id, 0)) ids

not_empty_text : (s : String) → is_blank s ≡ false → (s == "") ≡ false
unfolding is_blank
not_empty_text s h = elim (Bool-cases (s == "")) [
  | inl same ↦ absurd (let h = rw ((eq_iff s "").0 same) at h in cc)
  | inr other ↦ other
]

named_clients :
    (d : Table ClientConfig) → Every IsClient d → All (λ (id : String). (id == "") ≡ false) (keys d)
unfolding keys
named_clients [] all = tt
named_clients ((k, l) ∷ d) (q, all) = (not_empty_text k q.named, named_clients d all)

keys-not_empty : (d : Table ClientConfig) → d ≢ [] → keys d ≢ []
unfolding keys
keys-not_empty [] h g = h refl
keys-not_empty ((k, l) ∷ d) h g = cc

find-counters_for :
    (d : Table ClientConfig) (k : String) → find (counters_for (keys d)) k ≡ counter_of (find d k)
unfolding find keys counters_for
find-counters_for [] k = refl
find-counters_for ((j, l) ∷ d) k = ground (arith, find-counters_for d k)

counter-zero : (o : Option ClientConfig) (k : ℕ) → counter_of o ≡ some k → k ≡ 0
counter-zero none k h = cc
counter-zero (some l) k h = ground arith

start-IsConsistent :
    (c : AppConfig) (id : String)
    → is_blank id ≡ false
    → IsConsistent (Server.start id (counters_for (keys c.clients)))
unfolding find
start-IsConsistent c id named = record {
  replica_text = named;
  stored = λ k p h. cc;
  unanswered = λ k n h known.
      counter-zero (find c.clients k) n (sym (find-counters_for c.clients k) ∙ known);
}

module _ (c : AppConfig) (deployed : IsDeployment c) where
  -- For every server of a deployment whose parts are valid, the entry point makes the server
  -- without raising: its configuration is the server's, its listener has the server's name and is
  -- in a consistent state, and it has a counter for exactly the configured clients, which is 0.
  pub server_starts :
      (id : String) (s : ServerConfig)
      → find c.servers id ≡ some s
      → (r : Replica) × (make_server c id ≡ ok r)
        × (r.config ≡ s)
        × (r.listener.replica_id ≡ id)
        × IsConsistent r.listener
        × ((k : String) → find r.listener.counters k ≡ counter_of (find c.clients k))
  unfolding make_server counters_for
  server_starts id s found =
      let q = Every-find IsServer c.servers id s deployed.servers found in
      let counters =
        init_lem (keys c.clients) (keys-not_empty c.clients deployed.some_client)
          (named_clients c.clients deployed.clients) deployed.unique_clients in
      let consistent = start-IsConsistent c s.replica_id (rw q.key q.named) in
      (
        record {
          config = s;
          listener = Server.start s.replica_id (counters_for (keys c.clients));
          app = LifeCycle.make;
        },
        rw (server_found c id s found, counters) refl,
        refl,
        q.key,
        consistent,
        find-counters_for c.clients,
      )
