-- ===== src/Active/Values.antt =====
-- The values that are kept to compare late replies with.
use fall2026_18749_project.Prelude.{
  ℕ, ◌≡◌, none, some, List, [], ◌∷◌, Table, nat_eq, arith, if◌then◌else◌,
}
use fall2026_18749_project.Value.{Value}
use fall2026_18749_project.Active.{ReplicaConnection, is_settled, keep_open, find_value, put_value}

module _ (connections : Table ReplicaConnection) where
  -- `_prune_delivered_values` forgets the value for a number if every connection has answered the
  -- number or is finished, and keeps it otherwise.
  find_value-keep_open :
      (d : List (ℕ × Value)) (n : ℕ)
      → find_value (keep_open connections d) n
        ≡ (if is_settled connections n then none else find_value d n)
  unfolding find_value keep_open
  find_value-keep_open [] n = ground arith
  find_value-keep_open ((k, v) ∷ d) n = ground (arith, find_value-keep_open d n)

pub find_value-put_value :
    (d : List (ℕ × Value)) (k n : ℕ) (v : Value)
    → find_value (put_value d k v) n ≡ (if nat_eq k n then some v else find_value d n)
unfolding find_value put_value
find_value-put_value [] k n v = ground arith
find_value-put_value ((j, w) ∷ d) k n v = ground (arith, find_value-put_value d k n v)
