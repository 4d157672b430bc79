-- ===== src/Value.antt =====
-- Python values as `json.loads` and `tomllib.load` make them. A dict is a list of entries in the
-- order of insertion; none of the functions below makes a second entry for a key that is there.
use fall2026_18749_project.Prelude.{
  ℕ, suc, ◌*◌, ◌-◌, ◌^◌, String, ◌≡◌, refl, Bool, true, false, Option, none, some, ◌≢◌, arith, leb,
  nat_eq, ◌==◌, eq_iff, if◌then◌else◌,
}

-- `negsuc n` is -(n + 1).
pub data ℤ : Type 0 where
  pos : ℕ → ℤ
  negsuc : ℕ → ℤ

abbrev pub leb_ℤ : ℤ → ℤ → Bool
leb_ℤ (pos a) (pos b) = leb a b
leb_ℤ (pos a) (negsuc b) = false
leb_ℤ (negsuc a) (pos b) = true
leb_ℤ (negsuc a) (negsuc b) = leb b a

abbrev pub eq_ℤ : ℤ → ℤ → Bool
eq_ℤ (pos a) (pos b) = nat_eq a b
eq_ℤ (pos a) (negsuc b) = false
eq_ℤ (negsuc a) (pos b) = false
eq_ℤ (negsuc a) (negsuc b) = nat_eq a b

-- n * m, for a positive m.
abbrev pub scale : ℤ → ℕ → ℤ
scale (pos n) m = pos (n * m)
scale (negsuc n) m = negsuc (suc n * m - 1)

-- A finite float is m / 2 ^ k, exactly.
pub data Float : Type 0 where
  finite : ℤ → ℕ → Float
  infinity minus_infinity nan : Float

mutual
  pub data Value : Type 0 where
    none_value : Value
    bool : Bool → Value
    int : ℤ → Value
    float : Float → Value
    str : String → Value
    list : Items → Value
    dict : Fields → Value

  pub data Items : Type 0 where
    nil : Items
    cons : Value → Items → Items

  pub data Fields : Type 0 where
    empty : Fields
    entry : String → Value → Fields → Fields

-- `m[k]` where the key is there.
unfoldable pub lookup : Fields → String → Option Value
lookup empty k = none
lookup (entry j v m) k = if j == k then some v else lookup m k

abbrev pub or_none : Option Value → Value
or_none none = none_value
or_none (some v) = v

-- `m.get(k)`
unfoldable pub get : Fields → String → Value
get m k = or_none (lookup m k)

-- `m[k] = v`
unfoldable pub set : Fields → String → Value → Fields
set empty k v = entry k v empty
set (entry j w m) k v = if j == k then entry j v m else entry j w (set m k v)

-- `value == n`: Python compares numbers of all types by value, and True is 1.
unfoldable pub eq_int : Value → ℤ → Bool
eq_int (int i) n = eq_ℤ i n
eq_int (bool true) n = eq_ℤ (pos 1) n
eq_int (bool false) n = eq_ℤ (pos 0) n
eq_int (float (finite m k)) n = eq_ℤ m (scale n (2 ^ k))
eq_int _ n = false

-- `value == s`
unfoldable pub eq_str : Value → String → Bool
eq_str (str t) s = t == s
eq_str _ s = false

pub get-lookup : (m : Fields) (k : String) {v : Value} → lookup m k ≡ some v → get m k ≡ v
unfolding get
get-lookup m k h = ground arith

-- The way back, for a value that is not the default of `get`.
pub lookup-get :
    (m : Fields) (k : String) {v : Value} → v ≢ none_value → get m k ≡ v → lookup m k ≡ some v
unfolding get
lookup-get m k n h = ground arith

-- To write what a key holds changes nothing.
pub set_same : (m : Fields) (k : String) (v : Value) → lookup m k ≡ some v → set m k v ≡ m
unfolding lookup set
set_same empty k v h = ground arith
set_same (entry j w m) k v h = ground (arith, set_same m k v)

pub lookup-set :
    (m : Fields) (k : String) (v : Value) (j : String)
    → lookup (set m k v) j ≡ (if k == j then some v else lookup m j)
unfolding lookup set
lookup-set empty k v j = refl
lookup-set (entry i w m) k v j =
    ground (arith, eq_iff k j, eq_iff i k, eq_iff i j, lookup-set m k v j)
