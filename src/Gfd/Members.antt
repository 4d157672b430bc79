-- ===== src/Gfd/Members.antt =====
-- A Python set of texts as a list without repetitions, and `sorted`.
use Prim.Native.Nat.{Ordering}
use Prim.Native.String.{compare}
use fall2026_18749_project.Prelude.{
  String, ◌≡◌, refl, Bool, true, false, List, [], ◌∷◌, arith, ◌==◌, eq_iff, if◌then◌else◌,
}

unfoldable pub has : List String → String → Bool
has [] r = false
has (x ∷ xs) r = if x == r then true else has xs r

unfoldable pub add : List String → String → List String
add xs r = if has xs r then xs else r ∷ xs

unfoldable pub discard : List String → String → List String
discard [] r = []
discard (x ∷ xs) r = let rest = discard xs r in if x == r then rest else x ∷ rest

insert : String → List String → List String
insert x [] = x ∷ []
insert x (y ∷ ys) =
    let rest = insert x ys in elim (compare x y) [ Ordering.gt ↦ y ∷ rest | _ ↦ x ∷ y ∷ ys ]

unfoldable pub sorted : List String → List String
unfolding insert
sorted [] = []
sorted (x ∷ xs) = insert x (sorted xs)

pub has-add :
    (xs : List String) (r j : String) → has (add xs r) j ≡ (if r == j then true else has xs j)
unfolding has add
has-add xs r j = ground (arith, eq_iff r j)

pub has-discard :
    (xs : List String) (r j : String) → has (discard xs r) j ≡ (if r == j then false else has xs j)
unfolding has discard
has-discard [] r j = ground arith
has-discard (x ∷ xs) r j = ground (arith, eq_iff x r, eq_iff x j, eq_iff r j, has-discard xs r j)

has-insert :
    (x : String) (ys : List String) (j : String)
    → has (insert x ys) j ≡ (if x == j then true else has ys j)
unfolding has insert
has-insert x [] j = refl
has-insert x (y ∷ ys) j = ground (arith, eq_iff x j, eq_iff y j, has-insert x ys j)

-- The list that `membership` prints has the same members as the set.
pub has-sorted : (xs : List String) (j : String) → has (sorted xs) j ≡ has xs j
unfolding has sorted
has-sorted [] j = refl
has-sorted (x ∷ xs) j = rw (has-insert x (sorted xs) j, has-sorted xs j)
