-- ===== src/Prelude/Lists.antt =====
-- Lists over the native numbers, and dictionaries with text keys. A Python dict keeps the order of
-- insertion: a write to a key that is there keeps its place, a new key goes to the end.
use Prim.Native.Nat.{ℕ, suc}
use Prim.Native.String.{String}
use mathlib.Core.Path.{◌≡◌, refl}
use mathlib.Core.Bool.{Bool, false, ◌||◌}
use mathlib.Core.Option.{Option, none, some}
use mathlib.Core.List.{List, [], ◌∷◌}
use native.Mathlib.Omega.{arith}
use text.Mathlib.TextEquality.{eq_iff}
use fall2026_18749_project.Prelude.Tests.{◌==◌, if◌then◌else◌}

module _ {ℓ} {A : Type ℓ} where
  abbrev pub length : List A → ℕ
  length [] = 0
  length (x ∷ xs) = suc (length xs)

-- A predicate on every item.
abbrev pub All {ℓ κ} : {A : Type ℓ} → (A → Type κ) → List A → Type κ
All P [] = Unit
All P (x ∷ xs) = P x × All P xs

-- `any(test(x) for x in xs)`
unfoldable pub any {ℓ} : {A : Type ℓ} → (A → Bool) → List A → Bool
any p [] = false
any p (x ∷ xs) = p x || any p xs

abbrev pub Table {ℓ} : Type ℓ → Type ℓ
Table V = List (String × V)

module _ {ℓ} {V : Type ℓ} where
  -- d.get(k)
  unfoldable pub find : Table V → String → Option V
  find [] k = none
  find ((j, v) ∷ d) k = if j == k then some v else find d k

  -- d[k] = v
  unfoldable pub put : Table V → String → V → Table V
  put [] k v = (k, v) ∷ []
  put ((j, w) ∷ d) k v = if j == k then (j, v) ∷ d else (j, w) ∷ put d k v

  -- del d[k], for every entry of that key
  unfoldable pub remove : Table V → String → Table V
  remove [] k = []
  remove ((j, w) ∷ d) k = let rest = remove d k in if j == k then rest else (j, w) ∷ rest

  pub find-put :
      (d : Table V) (k : String) (v : V) (j : String)
      → find (put d k v) j ≡ (if k == j then some v else find d j)
  unfolding find put
  find-put [] k v j = refl
  find-put ((i, w) ∷ d) k v j = ground (arith, eq_iff k j, eq_iff i k, eq_iff i j, find-put d k v j)

  pub find-remove :
      (d : Table V) (k j : String) → find (remove d k) j ≡ (if k == j then none else find d j)
  unfolding find remove
  find-remove [] k j = ground arith
  find-remove ((i, w) ∷ d) k j =
      ground (arith, eq_iff k j, eq_iff i k, eq_iff i j, find-remove d k j)
