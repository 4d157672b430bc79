-- ===== src/Entry/Starting.antt =====
-- A detector that src/ft_system/lfd/main.py makes from a deployment whose parts are valid.
use fall2026_18749_project.Prelude.{
  zero, suc, ◌*◌, ◌^◌, ◌≤◌, String, ◌≡◌, refl, sym, subst, Bool, true, Option, none, some, find,
  leb→le, inl, inr,
}
use fall2026_18749_project.Value.{pos, negsuc, Float, finite, infinity, minus_infinity, nan}
use fall2026_18749_project.Result.{Result, ok, after_bind, after_guard, Result-cases}
use fall2026_18749_project.Config.{
  ServerConfig, LfdConfig, GfdConfig, AppConfig, lfd, entry_of, is_positive, leb_float,
}
use fall2026_18749_project.Config.Valid.{IsServer, IsDetector}
use fall2026_18749_project.Config.Loaded.{IsDeployment, Known}
use fall2026_18749_project.Backoff
use fall2026_18749_project.Backoff.{Backoff, scaled_pos}
use fall2026_18749_project.Lfd
use fall2026_18749_project.Lfd.{Lfd}
use fall2026_18749_project.Entry.{Every-find, configured_entry, server_found}
use fall2026_18749_project.Entry.Detector.{
  positive_float, parse_heartbeat_freq, with_freq, in_units, reporter_for, is_given, Detector,
  heartbeat_endpoint, make_app, make_detector,
}

-- The backoff of a configured detector: its bounds are in the right order, in a common unit.
units_ordered :
    (x y : Float)
    → is_positive x ≡ true
    → is_positive y ≡ true
    → leb_float x y ≡ true
    → (1 ≤ in_units x y) × (in_units x y ≤ in_units y x)
unfolding is_positive leb_float in_units
units_ordered (finite (pos (suc m)) k) (finite (pos (suc n)) j) p q h =
    (scaled_pos m j, leb→le (suc m * 2 ^ j) (suc n * 2 ^ k) h)
units_ordered (finite (pos (suc m)) k) (finite (pos zero) j) p q h = cc
units_ordered (finite (pos (suc m)) k) (finite (negsuc n) j) p q h = cc
units_ordered (finite (pos (suc m)) k) infinity p q h = cc
units_ordered (finite (pos (suc m)) k) minus_infinity p q h = cc
units_ordered (finite (pos (suc m)) k) nan p q h = cc
units_ordered (finite (pos zero) k) y p q h = cc
units_ordered (finite (negsuc m) k) y p q h = cc
units_ordered infinity y p q h = cc
units_ordered minus_infinity y p q h = cc
units_ordered nan y p q h = cc

app_made :
    (k : String) (l : LfdConfig) (r : String) (b : Bool)
    → IsDetector k l
    → (d : Lfd) × (make_app l r b ≡ ok d)
unfolding make_app Lfd.make
app_made k l r b q =
    let (least, ordered) =
      units_ordered l.initial_backoff l.max_backoff q.initial_backoff q.max_backoff q.ordered in
    elim (Result-cases (make_app l r b)) [
      | inl found ↦ found
      | inr (x, e) ↦ absurd (let e = rw (Backoff.make_lem _ _ least ordered) at e in cc)
    ]

positive_freq :
    (k : String) (l : LfdConfig) (x : Float)
    → IsDetector k l
    → is_positive x ≡ true
    → IsDetector k (with_freq (some x) l)
unfolding with_freq
positive_freq k l x q positive = record {
  key = q.key;
  named = q.named;
  heartbeat_freq = positive;
  connect_timeout = q.connect_timeout;
  read_timeout = q.read_timeout;
  initial_backoff = q.initial_backoff;
  max_backoff = q.max_backoff;
  ordered = q.ordered;
}

-- The value of the argument, where it is given, is positive.
given_freq :
    (to_number : String → Result Float) (text : Option String) (freq : Option Float)
    → parse_heartbeat_freq to_number text ≡ ok freq
    → (k : String) (l : LfdConfig) → IsDetector k l
    → IsDetector k (with_freq freq l)
unfolding parse_heartbeat_freq with_freq positive_float
given_freq to_number none none h k l q = q
given_freq to_number none (some x) h k l q = absurd (cc)
given_freq to_number (some text) freq h k l q =
    after_bind (positive_float to_number text) _ h λ x e h. after_bind (to_number text) _ e λ y _ e.
      after_guard (is_positive y) _ _ e λ positive e.
        let same : y ≡ x = cc in
        let is : some x ≡ freq = cc in
        subst (λ (f : Option Float). IsDetector k (with_freq f l)) is
          (positive_freq k l x q (rw same at positive))

-- What `run` has made for the configured detector `l` of the server `s`.
pub record Watches (c : AppConfig) (l : LfdConfig) (s : ServerConfig) (d : Detector) : Type 0 where
  pub config : IsDetector l.lfd_id d.config
  pub watched_endpoint :
      d.watched_endpoint
      ≡ record { replica_id = l.server_id; host = s.advertised_host; port = s.heartbeat_port }
  pub app : make_app l l.server_id (is_given c.gfd) ≡ ok d.app
  pub reporter : d.reporter ≡ reporter_for l.lfd_id l.server_id c.gfd

reporter-is_given :
    (l r : String) (o : Option GfdConfig) → is_given (reporter_for l r o) ≡ is_given o
unfolding reporter_for
reporter-is_given l r none = refl
reporter-is_given l r (some g) = refl

lfd_found :
    (c : AppConfig) (id : String) (l : LfdConfig) → find c.lfds id ≡ some l → lfd c id ≡ ok l
unfolding lfd entry_of
lfd_found c id l h = rw (h, lfd, entry_of) refl

module _ (c : AppConfig) (id : String) (l : LfdConfig) (s : ServerConfig) (app : Lfd)
    (freq : Option Float) (known : find c.lfds id ≡ some l)
    (served : find c.servers l.server_id ≡ some s)
    (made : make_app l s.replica_id (is_given c.gfd) ≡ ok app) where
  abbrev detector : Detector
  detector = record {
    config = with_freq freq l;
    watched_endpoint = heartbeat_endpoint s;
    app = app;
    reporter = reporter_for l.lfd_id s.replica_id c.gfd;
  }

  make_detector_lem : make_detector c id freq ≡ ok detector
  unfolding make_detector with_freq make_app
  make_detector_lem =
      rw
        (
          lfd_found c id l known,
          server_found c l.server_id s served,
          reporter-is_given l.lfd_id s.replica_id c.gfd,
          made,
        )
        refl

  detector-Watches :
      IsDetector l.lfd_id (with_freq freq l) → s.replica_id ≡ l.server_id → Watches c l s detector
  unfolding heartbeat_endpoint
  detector-Watches q named = record {
    config = q;
    watched_endpoint = rw named refl;
    app = rw named at made;
    reporter = rw named refl;
  }

module _ (c : AppConfig) (deployed : IsDeployment c) where
  pub detector_starts :
      (to_number : String → Result Float) (text : Option String) (freq : Option Float)
      → parse_heartbeat_freq to_number text ≡ ok freq
      → (id : String) (l : LfdConfig) → find c.lfds id ≡ some l
      → (s : ServerConfig) × (d : Detector) × (find c.servers l.server_id ≡ some s)
        × (make_detector c id freq ≡ ok d)
        × Watches c l s d
  detector_starts to_number text freq given id l found =
      let q = Every-find IsDetector c.lfds id l deployed.lfds found in
      let known =
        Every-find (λ k l. Known c.servers l.server_id) c.lfds id l deployed.lfd_servers found in
      let (s, s_found) = configured_entry c.servers l.server_id known in
      let named = (Every-find IsServer c.servers l.server_id s deployed.servers s_found).key in
      let (app, made) = app_made id l s.replica_id (is_given c.gfd) q in
      let config = given_freq to_number text freq given id l q in
      (
        s,
        detector c id l s app freq found s_found made,
        s_found,
        make_detector_lem c id l s app freq found s_found made,
        detector-Watches c id l s app freq found s_found made
            (subst (λ (k : String). IsDetector k (with_freq freq l)) (sym q.key) config) named,
      )
