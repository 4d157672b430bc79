-- ===== src/StateMachine.antt =====
-- src/ft_system/server/state_machine.py: one counter for each client.
use Prim.Native.String.{◌++◌}
use fall2026_18749_project.Prelude.{
  ℕ, ◌+◌, String, ◌≡◌, ◌≢◌, refl, ap, All, Bool, true, false, not, ◌&&◌, none, some, List, [], ◌∷◌,
  map, arith, any, Table, find, put, find-put, ◌==◌, eq_refl, if◌then◌else◌,
}
use fall2026_18749_project.Value.{Value, str}
use fall2026_18749_project.Result.{Result, ok, err, state_machine_error, key_error, guard, ◌>>◌}

pub record Transition : Type 0 where
  pub before : Table ℕ
  pub after : Table ℕ
  pub client_value : ℕ

-- `isinstance(client_id, str) and client_id`
is_client_id : Value → Bool
is_client_id (str s) = not (s == "")
is_client_id _ = false

id_text : Value → String
id_text (str s) = s
id_text _ = ""

-- `len(ids) == len(set(ids))`
unfoldable pub distinct : List String → Bool
distinct [] = true
distinct (x ∷ xs) = not (any (λ y. x == y) xs) && distinct xs

is_empty : List Value → Bool
is_empty [] = true
is_empty (x ∷ xs) = false

-- `__init__`: the initial state, every counter at 0.
unfoldable pub init : List Value → Result (Table ℕ)
unfolding is_client_id id_text distinct is_empty
init client_ids = do
  guard (not (is_empty client_ids)) (state_machine_error "at least one client is required")
  guard (not (any (λ v. not (is_client_id v)) client_ids))
      (state_machine_error "client ids must be non-empty strings")
  let ids = map id_text client_ids
  guard (distinct ids) (state_machine_error "client ids must be unique")
  ok (map (λ (id : String). (id, 0)) ids)

texts_checked :
    (ids : List String)
    → All (λ (id : String). (id == "") ≡ false) ids
    → (any (λ v. not (is_client_id v)) (map str ids) ≡ false) × (map id_text (map str ids) ≡ ids)
unfolding any is_client_id id_text
texts_checked [] h = (refl, refl)
texts_checked (id ∷ ids) (p, h) =
    let (valid, same) = texts_checked ids h in
    (rw (p, valid) refl, ap (λ (rest : List String). id ∷ rest) same)

init_of :
    (vs : List Value) (ids : List String)
    → is_empty vs ≡ false
    → any (λ v. not (is_client_id v)) vs ≡ false
    → map id_text vs ≡ ids
    → distinct ids ≡ true
    → init vs ≡ ok (map (λ (id : String). (id, 0)) ids)
unfolding init
init_of vs ids some_id valid same unique = rw (some_id, valid, same, unique) refl

-- For different identifiers that are not empty the constructor succeeds.
pub init_lem :
    (ids : List String)
    → ids ≢ []
    → All (λ (id : String). (id == "") ≡ false) ids
    → distinct ids ≡ true
    → init (map str ids) ≡ ok (map (λ (id : String). (id, 0)) ids)
unfolding is_empty
init_lem [] some_id texts unique = absurd (some_id refl)
init_lem (id ∷ ids) some_id texts unique =
    let (valid, same) = texts_checked (id ∷ ids) texts in
    init_of (map str (id ∷ ids)) (id ∷ ids) refl valid same unique

-- `after[client_id]`
value_after : Table ℕ → Table ℕ → String → Result Transition
value_after before after client_id = elim (find after client_id) [
  | none ↦ err (key_error client_id)
  | some v ↦ ok (record { before = before; after = after; client_value = v })
]

unfoldable pub apply : String → String → Table ℕ → Result Transition × Table ℕ
unfolding value_after
apply client_id operation state = elim (find state client_id) [
  | none ↦ (err (state_machine_error ("unknown client: " ++ client_id)), state)
  | some n ↦
      if operation == "increment"
      then (let after = put state client_id (n + 1) in (value_after state after client_id, after))
      else (err (state_machine_error ("unsupported operation: " ++ operation)), state)
]

-- An increment of a known client's counter.
pub apply_increment :
    (c : String) (s : Table ℕ) (n : ℕ)
    → find s c ≡ some n
    → apply c "increment" s
      ≡ (ok (record { before = s; after = put s c (n + 1); client_value = n + 1 }), put s c (n + 1))
unfolding apply
apply_increment c s n h = ground (arith, find-put s c (n + 1) c, eq_refl c)

pub apply_unknown :
    (c o : String) (s : Table ℕ)
    → find s c ≡ none
    → apply c o s ≡ (err (state_machine_error ("unknown client: " ++ c)), s)
unfolding apply
apply_unknown c o s h = ground arith

pub apply_unsupported :
    (c o : String) (s : Table ℕ) (n : ℕ)
    → find s c ≡ some n
    → (o == "increment") ≡ false
    → apply c o s ≡ (err (state_machine_error ("unsupported operation: " ++ o)), s)
unfolding apply
apply_unsupported c o s n h e = ground arith
