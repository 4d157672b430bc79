-- ===== src/Server/Slots.antt =====
-- The state of the replicated application as each client sees it: its own counter and the mark of
-- its last answered request. `process` refines `serve`, and touches the slot of no other client.
use fall2026_18749_project.Prelude.{
  ℕ, suc, ◌+◌, ◌⊎◌, inl, inr, String, ◌≡◌, refl, Bool, true, false, not, ◌&&◌, Option, none, some,
  find, find-put, ◌==◌, eq_refl, if◌then◌else◌,
}
use mathlib.Core.Option
use fall2026_18749_project.Value.{ℤ, pos, leb_ℤ, Fields}
use fall2026_18749_project.Protocol.WellFormed.{IsRequest}
use fall2026_18749_project.Server.{Stored, Listener, process}
use fall2026_18749_project.Server.Process.{is_fresh}
use fall2026_18749_project.Server.Cases.{and_false, IsConsistent, process_cases}

-- The number and the operation of a request that was carried out.
pub record Mark : Type 0 where
  pub number : ℤ
  pub operation : String

abbrev pub mark_of : Option Stored → Option Mark
mark_of none = none
mark_of (some p) = some (record { number = p.number; operation = p.operation })

pub record Slot : Type 0 where
  pub counter : Option ℕ
  pub last : Option Mark

unfoldable pub slot : Listener → String → Slot
slot s c = record { counter = find s.counters c; last = mark_of (find s.last_replies c) }

abbrev pub is_new : Option Mark → ℕ → Bool
is_new none n = true
is_new (some p) n = not (leb_ℤ (pos (suc n)) p.number)

abbrev pub has_counter : Option ℕ → Bool
has_counter none = false
has_counter (some k) = true

-- What a request of the slot's client does: the request number is `n` + 1.
unfoldable pub serve : String → ℕ → Slot → Slot
serve o n x =
    if has_counter x.counter && (o == "increment" && is_new x.last n)
    then record {
      counter = Option.map (λ k. k + 1) x.counter;
      last = some (record { number = pos (suc n); operation = o });
    }
    else x

is_new-mark_of : (p : Option Stored) (n : ℕ) → is_new (mark_of p) n ≡ is_fresh p n
is_new-mark_of none n = refl
is_new-mark_of (some p) n = refl

module _ {m : Fields} {c r o : String} {n : ℕ} (q : IsRequest m c r o n) (s : Listener)
    (inv : IsConsistent s) where
  kept_slot :
      (find s.counters c ≡ none)
        ⊎ ((o == "increment" && is_fresh (find s.last_replies c) n) ≡ false)
      → slot s c ≡ serve o n (slot s c)
  unfolding slot serve
  kept_slot (inl unknown) = rw unknown
  kept_slot (inr stale) = rw (is_new-mark_of, stale, and_false (has_counter (find s.counters c)))

  -- The client's own slot changes as the specification says.
  pub slot_self : slot (process m s).1 c ≡ serve o n (slot s c)
  unfolding slot serve
  slot_self = elim (process_cases q s inv) [
    | inl t ↦
        rw t.result (simp (find-put, eq_refl c, is_new-mark_of, t.fresh, t.known, t.operation))
    | inr t ↦ rw (t.result, t.same_counters, t.same_replies) (kept_slot t.reason)
  ]

  pub slot_other : (j : String) → (c == j) ≡ false → slot (process m s).1 j ≡ slot s j
  unfolding slot
  slot_other j other = elim (process_cases q s inv) [
    | inl t ↦ rw t.result (simp (find-put, other))
    | inr t ↦ rw t.result (simp (t.same_counters, t.same_replies))
  ]
