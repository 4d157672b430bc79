-- ===== src/Config/Loaded.antt =====
-- What a deployment is that `load_config` has accepted.
use fall2026_18749_project.Prelude.{
  ◌≡◌, ◌≢◌, refl, sym, arith, subst, String, true, Option, none, some, List, [], ◌∷◌, All, Table,
  put, ◌==◌, eq_iff, Bool-cases, inl, inr,
}
use fall2026_18749_project.Value.{ℤ, Float, Value, Fields, empty, entry}
use fall2026_18749_project.Result.{Result, ok, after_bind, after_guard}
use fall2026_18749_project.Config.{
  ServerConfig, ClientConfig, LfdConfig, GfdConfig, AppConfig, section,
}
use fall2026_18749_project.Config.Tables.{
  parse_server, parse_client, parse_lfd, parse_all, parse_servers, parse_clients, parse_lfds,
}
use fall2026_18749_project.Config.Deployment.{
  has_key, check_ids, check_clients, check_lfds, parse_gfd, gfd_given, gfd_of, load_config,
}
use fall2026_18749_project.Config.Checked.{
  parse_server-IsServer, parse_client-IsClient, parse_lfd-IsDetector, parse_gfd-IsGfd, ok_inj,
}
use fall2026_18749_project.Config.Valid.{KeepsSign, IsServer, IsClient, IsDetector, IsGfd}
use fall2026_18749_project.StateMachine.{distinct}
use fall2026_18749_project.Config.Keys.{keys, parse_all-distinct, parse_all-not_empty}

-- Of every entry of a dict.
abbrev pub Every : {V : Type 0} → (String → V → Type 0) → Table V → Type 0
Every P [] = Unit
Every P ((k, v) ∷ d) = P k v × Every P d

abbrev pub Known : Table ServerConfig → String → Type 0
Known servers id = has_key servers id ≡ true

abbrev pub IsGfdOption : Option GfdConfig → Type 0
IsGfdOption none = Unit
IsGfdOption (some g) = IsGfd g

pub record IsDeployment (c : AppConfig) : Type 0 where
  pub servers : Every IsServer c.servers
  pub clients : Every IsClient c.clients
  pub lfds : Every IsDetector c.lfds
  pub client_servers : Every (λ k l. All (Known c.servers) l.server_ids) c.clients
  pub lfd_servers : Every (λ k l. Known c.servers l.server_id) c.lfds
  pub gfd : IsGfdOption c.gfd
  pub some_client : c.clients ≢ []
  pub unique_clients : distinct (keys c.clients) ≡ true
  pub unique_lfds : distinct (keys c.lfds) ≡ true

put-Every :
    {V : Type 0} (P : String → V → Type 0) (d : Table V) (k : String) (v : V)
    → Every P d
    → P k v
    → Every P (put d k v)
unfolding put
put-Every P [] k v all p = (p, tt)
put-Every P ((j, w) ∷ d) k v (q, all) p = elim (Bool-cases (j == k)) [
  | inl same ↦ rw same (subst (λ (u : String). P u v) (sym ((eq_iff j k).0 same)) p, all)
  | inr differ ↦ rw differ (q, put-Every P d k v all p)
]

parse_all-Every :
    {V : Type 0} (P : String → V → Type 0) (parse : String → Value → Result V)
    → ((k : String) (raw : Value) (v : V) → parse k raw ≡ ok v → P k v)
    → (m : Fields) (d r : Table V) → Every P d
    → parse_all parse m d ≡ ok r
    → Every P r
unfolding parse_all
parse_all-Every P parse checks empty d r all h = ok_inj (Every P) d r h all
parse_all-Every P parse checks (entry k raw rest) d r all h = after_bind (parse k raw) _ h λ v e h.
    parse_all-Every P parse checks rest (put d k v) r (put-Every P d k v all (checks k raw v e)) h

section-not_empty : (document : Fields) (name : String) → section document name ≢ ok empty
unfolding section
section-not_empty document name h = ground arith

section_entries :
    {V : Type 0} (document : Fields) (name : String) (parse : String → Value → Result V)
    (m : Fields) (r : Table V)
    → section document name ≡ ok m
    → parse_all parse m [] ≡ ok r
    → r ≢ []
section_entries document name parse (entry k raw rest) r s h =
    parse_all-not_empty parse k raw rest r h
section_entries document name parse empty r s h = absurd (section-not_empty document name s)

check_ids-eq-ok :
    (servers : Table ServerConfig) (client_id : String) (ids : List String)
    → check_ids servers client_id ids ≡ ok tt
    → All (Known servers) ids
unfolding check_ids
check_ids-eq-ok servers client_id [] h = tt
check_ids-eq-ok servers client_id (id ∷ rest) h =
    after_guard (has_key servers id) _ _ h
      λ known h. (known, check_ids-eq-ok servers client_id rest h)

check_clients-eq-ok :
    (servers : Table ServerConfig) (d : Table ClientConfig)
    → check_clients servers d ≡ ok tt
    → Every (λ k l. All (Known servers) l.server_ids) d
unfolding check_clients
check_clients-eq-ok servers [] h = tt
check_clients-eq-ok servers ((k, c) ∷ rest) h =
    after_bind (check_ids servers c.client_id c.server_ids) _ h λ u e h.
      (check_ids-eq-ok servers c.client_id c.server_ids e, check_clients-eq-ok servers rest h)

check_lfds-eq-ok :
    (servers : Table ServerConfig) (d : Table LfdConfig)
    → check_lfds servers d ≡ ok tt
    → Every (λ k l. Known servers l.server_id) d
unfolding check_lfds
check_lfds-eq-ok servers [] h = tt
check_lfds-eq-ok servers ((k, l) ∷ rest) h =
    after_guard (has_key servers l.server_id) _ _ h
      λ known h. (known, check_lfds-eq-ok servers rest h)

module _ (to_float : ℤ → Result Float) (keeps : KeepsSign to_float) where
  gfd_given-eq-ok :
      (document : Fields) (v : Option Value) (o : Option GfdConfig)
      → gfd_given to_float document v ≡ ok o
      → IsGfdOption o
  unfolding gfd_given
  gfd_given-eq-ok document none o h = ok_inj IsGfdOption none o h tt
  gfd_given-eq-ok document (some v) o h =
      after_bind (parse_gfd to_float document) _ h
        λ g e h. ok_inj IsGfdOption (some g) o h (parse_gfd-IsGfd to_float keeps document g e)

  -- A configuration that `load_config` accepts has, for every entry, the identifier of its key and
  -- no blank names, ports in 1..65535 and different on a server, a non-empty list of different
  -- servers for every client and an existing server behind every reference of a client or a
  -- detector, positive durations and an initial backoff that is at most the maximal one, there is a
  -- client, and no two clients and no two detectors have the same identifier - if the conversion of
  -- integers to floats keeps the sign of positive ones.
  pub load_config-IsDeployment :
      (document : Fields) (c : AppConfig) → load_config to_float document ≡ ok c → IsDeployment c
  unfolding load_config gfd_of parse_servers parse_clients parse_lfds distinct keys
  load_config-IsDeployment document c h = after_bind (parse_servers document) _ h λ servers s h.
      after_bind (parse_clients to_float document) _ h λ clients l h.
        after_bind (parse_lfds to_float document) _ h λ lfds d h.
          after_bind (check_clients servers clients) _ h λ u known h.
            after_bind (check_lfds servers lfds) _ h λ w watched h.
              after_bind (gfd_of to_float document) _ h λ gfd g h.
                after_bind (section document "server") _ s λ m _ s.
                  after_bind (section document "client") _ l λ m' in_clients l.
                    after_bind (section document "lfd") _ d λ m'' _ d.
                      ok_inj IsDeployment _ c h (record {
                        servers =
                            parse_all-Every IsServer parse_server parse_server-IsServer m [] servers
                              tt s;
                        clients =
                            parse_all-Every IsClient (parse_client to_float)
                              (parse_client-IsClient to_float keeps) m' [] clients tt l;
                        lfds =
                            parse_all-Every IsDetector (parse_lfd to_float)
                              (parse_lfd-IsDetector to_float keeps) m'' [] lfds tt d;
                        client_servers = check_clients-eq-ok servers clients known;
                        lfd_servers = check_lfds-eq-ok servers lfds watched;
                        gfd = gfd_given-eq-ok document _ gfd g;
                        some_client =
                            section_entries document "client" (parse_client to_float) m' clients
                              in_clients l;
                        unique_clients =
                            parse_all-distinct (parse_client to_float) m' [] clients refl l;
                        unique_lfds = parse_all-distinct (parse_lfd to_float) m'' [] lfds refl d;
                      })
