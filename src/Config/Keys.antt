-- ===== src/Config/Keys.antt =====
-- The keys of the tables that src/ft_system/common/config.py builds.
use fall2026_18749_project.Prelude.{
  String, ◌≡◌, ◌≢◌, refl, true, false, ◌||◌, none, List, [], ◌∷◌, any, Table, find, put, ◌==◌,
  eq_iff, arith,
}
use fall2026_18749_project.Value.{Value, Fields, empty, entry}
use fall2026_18749_project.Result.{Result, ok, after_bind}
use fall2026_18749_project.StateMachine.{distinct}
use fall2026_18749_project.Config.Tables.{parse_all}

-- `tuple(d)`
unfoldable pub keys {ℓ} : {V : Type ℓ} → Table V → List String
keys [] = []
keys ((k, v) ∷ d) = k ∷ keys d

module _ {V : Type 0} where
  any-put :
      (d : Table V) (k : String) (v : V) (x : String)
      → any (λ y. x == y) (keys (put d k v)) ≡ (any (λ y. x == y) (keys d) || x == k)
  unfolding any keys put
  any-put [] k v x = ground arith
  any-put ((j, w) ∷ d) k v x = ground (arith, any-put d k v x, eq_iff j k, eq_iff x j, eq_iff x k)

  pub put-distinct :
      (d : Table V) (k : String) (v : V)
      → distinct (keys d) ≡ true
      → distinct (keys (put d k v)) ≡ true
  unfolding distinct any keys put
  put-distinct [] k v h = refl
  put-distinct ((j, w) ∷ d) k v h = ground (arith, put-distinct d k v, any-put d k v j)

  pub put-not_empty : (d : Table V) (k : String) (v : V) → put d k v ≢ []
  unfolding put
  put-not_empty [] k v h = cc
  put-not_empty ((j, w) ∷ d) k v h = ground arith

  pub parse_all-distinct :
      (parse : String → Value → Result V) (m : Fields) (d r : Table V)
      → distinct (keys d) ≡ true
      → parse_all parse m d ≡ ok r
      → distinct (keys r) ≡ true
  unfolding parse_all
  parse_all-distinct parse empty d r h e = let same : d ≡ r = cc in rw same at h
  parse_all-distinct parse (entry k raw rest) d r h e =
      after_bind (parse k raw) _ e
        λ v _ e. parse_all-distinct parse rest (put d k v) r (put-distinct d k v h) e

  parse_rest-not_empty :
      (parse : String → Value → Result V) (m : Fields) (d r : Table V)
      → d ≢ []
      → parse_all parse m d ≡ ok r
      → r ≢ []
  unfolding parse_all
  parse_rest-not_empty parse empty d r h e = let same : d ≡ r = cc in rw same at h
  parse_rest-not_empty parse (entry k raw rest) d r h e =
      after_bind (parse k raw) _ e
        λ v _ e. parse_rest-not_empty parse rest (put d k v) r (put-not_empty d k v) e

  pub parse_all-not_empty :
      (parse : String → Value → Result V) (k : String) (raw : Value) (rest : Fields) (r : Table V)
      → parse_all parse (entry k raw rest) [] ≡ ok r
      → r ≢ []
  unfolding parse_all
  parse_all-not_empty parse k raw rest r e =
      after_bind (parse k raw) _ e
        λ v _ e. parse_rest-not_empty parse rest (put [] k v) r (put-not_empty [] k v) e

  pub find-absent :
      (d : Table V) (k : String) → any (λ y. k == y) (keys d) ≡ false → find d k ≡ none
  unfolding any keys find
  find-absent [] k h = refl
  find-absent ((j, w) ∷ d) k h = ground (arith, eq_iff k j, eq_iff j k, find-absent d k)
