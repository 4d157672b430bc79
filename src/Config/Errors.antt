-- ===== src/Config/Errors.antt =====
-- The exceptions that leave `load_config` of src/ft_system/common/config.py.
use fall2026_18749_project.Prelude.{
  Option-cases, subst, String, ◌≡◌, refl, ◌⊎◌, inl, inr, Option, none, some, [],
}
use fall2026_18749_project.Value.{ℤ, Float, Value, int, float, str, dict, Fields, lookup}
use fall2026_18749_project.Result.{Result, err, value_error, overflow_error, ◌>>=◌}
use fall2026_18749_project.Config.{section, positive_number, get_default}
use fall2026_18749_project.Config.Tables.{
  parse_server, parse_client, parse_lfd, parse_all, parse_servers, parse_clients, parse_lfds,
}
use fall2026_18749_project.Config.Deployment.{parse_gfd, gfd_given, gfd_of, load_config}
use fall2026_18749_project.Config.Valid.{OnlyOverflows}
use fall2026_18749_project.Config.File.{
  Opened, parsed, unreadable, bad_toml, undecodable, read_config, load_file,
}
use fall2026_18749_project.Config.Told.{
  IsTold, returns, tells, overflows, told_rules, bind-IsTold, check_clients-IsTold,
  check_lfds-IsTold, guard-IsTold, ids-IsTold, port-IsTold, server-IsTold, string-IsTold,
}
use fall2026_18749_project.Config.Held.{
  In, Holds, item, nested, lookup-In, required_bind, table_bind, section_bind, parse_all-IsTold,
}

-- Some integer of the file is too large for a float.
pub data Overflows (to_float : ℤ → Result Float) : Opened → Type 0 where
  too_large_at :
      (i : ℤ) (document : Fields)
      → Holds i document
      → to_float i ≡ err overflow_error
      → Overflows to_float (parsed document)

module _ (to_float : ℤ → Result Float) (limits : OnlyOverflows to_float) (O : Type 0) where
  -- An integer of the table that is too large is told as `O`.
  abbrev Told : Fields → Type 0
  Told t = (i : ℤ) → In (int i) t → to_float i ≡ err overflow_error → O

  number-IsTold :
      (t : Fields)
      → Told t
      → (v : Value) (field : String) → In v t
      → IsTold O (positive_number to_float v field)
  unfolding positive_number
  number-IsTold t large (int i) field q = elim (limits i) [
    | inl (x, e) ↦ rw e (search told_rules)
    | inr e ↦ rw e (overflows (large i q e))
  ]
  number-IsTold t large (float x) field q = search told_rules
  number-IsTold t large _ field q = tells _

  positive-IsTold :
      (x : Float) (field : String) → IsTold O (positive_number to_float (float x) field)
  unfolding positive_number
  positive-IsTold x field = search told_rules

  default-IsTold :
      (t : Fields)
      → Told t
      → (x : Float) (key field : String)
      → IsTold O (positive_number to_float (get_default t key (float x)) field)
  unfolding get_default
  default-IsTold t large x key field = elim (Option-cases (lookup t key)) [
    | inl e ↦ rw (e, get_default) (positive-IsTold x field)
    | inr (v, e) ↦ rw (e, get_default) (number-IsTold t large v field (lookup-In t key v e))
  ]

  client-IsTold :
      (k : String) (raw : Value)
      → ((t : Fields) → raw ≡ dict t → Told t)
      → IsTold O (parse_client to_float k raw)
  unfolding parse_client
  client-IsTold k raw large = bind-IsTold _ _ (string-IsTold (str k) _) (λ id.
      table_bind raw _ _ (λ t e.
        let large = large t e in
        required_bind t _ _ _ (λ ids q. bind-IsTold _ _ (ids-IsTold ids id) (λ ids.
          required_bind t _ _ _ (λ v q. bind-IsTold _ _ (number-IsTold t large v _ q) (λ x.
            required_bind t _ _ _
              (λ w q. bind-IsTold _ _ (number-IsTold t large w _ q) (λ y. returns _))))))))

  lfd-IsTold :
      (k : String) (raw : Value)
      → ((t : Fields) → raw ≡ dict t → Told t)
      → IsTold O (parse_lfd to_float k raw)
  unfolding parse_lfd
  lfd-IsTold k raw large = bind-IsTold _ _ (string-IsTold (str k) _) (λ id.
      table_bind raw _ _ (λ t e.
        let large = large t e in
        bind-IsTold _ _ (default-IsTold t large _ _ _) (λ initial.
          bind-IsTold _ _ (default-IsTold t large _ _ _) (λ maximum.
            bind-IsTold _ _ (guard-IsTold _ _) (λ _. required_bind t _ _ _ (λ v q.
              bind-IsTold _ _ (string-IsTold v _) (λ server_id. required_bind t _ _ _ (λ v q.
                bind-IsTold _ _ (number-IsTold t large v _ q) (λ x. required_bind t _ _ _ (λ v q.
                  bind-IsTold _ _ (number-IsTold t large v _ q) (λ y. required_bind t _ _ _ (λ v q.
                    bind-IsTold _ _ (number-IsTold t large v _ q) (λ z. returns _)))))))))))))

  gfd-IsTold :
      (d : Fields) → ((m : Fields) → In (dict m) d → Told m) → IsTold O (parse_gfd to_float d)
  unfolding parse_gfd
  gfd-IsTold d large = section_bind d _ _ (λ m q.
      let large = large m q in
      bind-IsTold _ _ (string-IsTold _ _) (λ bind_host.
        bind-IsTold _ _ (string-IsTold _ _) (λ advertised_host.
          bind-IsTold _ _ (port-IsTold _ _) (λ port.
            bind-IsTold _ _ (default-IsTold m large _ _ _)
              (λ freq. bind-IsTold _ _ (default-IsTold m large _ _ _) (λ timeout. returns _))))))

  given-IsTold :
      (d : Fields) (o : Option Value)
      → ((m : Fields) → In (dict m) d → Told m)
      → IsTold O (gfd_given to_float d o)
  unfolding gfd_given
  given-IsTold d none large = returns none
  given-IsTold d (some v) large = bind-IsTold _ _ (gfd-IsTold d large) (λ g. returns (some g))

  -- The entries of a section.
  entries-IsTold :
      {V : Type 0} (parse : String → Value → Result V) (d : Fields) (name : String)
      → ((k : String) (raw : Value)
          → ((t : Fields) → raw ≡ dict t → Told t)
          → IsTold O (parse k raw))
      → ((m t : Fields) → In (dict m) d → In (dict t) m → Told t)
      → IsTold O (section d name >>= λ m. parse_all parse m [])
  entries-IsTold parse d name told large = section_bind d name _ (λ m q.
      parse_all-IsTold parse m []
        (λ k raw in_m. told k raw (λ t e. large m t q (subst (λ (x : Value). In x m) e in_m))))

  load_config-IsTold :
      (d : Fields)
      → ((i : ℤ) → Holds i d → to_float i ≡ err overflow_error → O)
      → IsTold O (load_config to_float d)
  unfolding load_config parse_servers parse_clients parse_lfds gfd_of
  load_config-IsTold d large =
      let deep =
        λ (m t : Fields) (q : In (dict m) d) (p : In (dict t) m) (i : ℤ) (h : In (int i) t)
            (e : to_float i ≡ err overflow_error).
          large i (nested q (nested p (item h))) e in
      let flat =
        λ (m : Fields) (q : In (dict m) d) (i : ℤ) (h : In (int i) m)
            (e : to_float i ≡ err overflow_error).
          large i (nested q (item h)) e in
      bind-IsTold _ _ (entries-IsTold parse_server d _ (λ k raw _. server-IsTold k raw) deep)
        (λ servers.
          bind-IsTold _ _ (entries-IsTold (parse_client to_float) d _ client-IsTold deep)
            (λ clients.
              bind-IsTold _ _ (entries-IsTold (parse_lfd to_float) d _ lfd-IsTold deep) (λ lfds.
                bind-IsTold _ _ (check_clients-IsTold servers clients) (λ _.
                  bind-IsTold _ _ (check_lfds-IsTold servers lfds) (λ _.
                    bind-IsTold _ _ (given-IsTold d (lookup d "gfd") flat) (λ gfd. returns _))))))

module _ (to_float : ℤ → Result Float) (limits : OnlyOverflows to_float) where
  pub load_file-IsTold :
      (path : String) (opened : Opened)
      → IsTold (Overflows to_float opened) (load_file to_float path opened)
        ⊎ ((message : String) × (opened ≡ undecodable message)
            × (load_file to_float path opened ≡ err (value_error message)))
  unfolding load_file read_config
  load_file-IsTold path (parsed d) =
      inl (load_config-IsTold to_float limits _ d (λ i h e. too_large_at i d h e))
  load_file-IsTold path (unreadable m) = inl (tells _)
  load_file-IsTold path (bad_toml m) = inl (tells _)
  load_file-IsTold path (undecodable m) = inr (m, refl, refl)
