-- ===== src/Server/Replicas.antt =====
-- Sequences of requests, and two replicas that process them in their own interleavings.
use fall2026_18749_project.Prelude.{
  ℕ, ◌∙◌, String, ◌≡◌, refl, ap, true, List, [], ◌∷◌, ◌==◌, eq_iff, inl, inr, if◌then◌else◌,
  Bool-cases, subst,
}
use fall2026_18749_project.Value.{Fields}
use fall2026_18749_project.Protocol.WellFormed.{IsRequest}
use fall2026_18749_project.Server.{Listener, process}
use fall2026_18749_project.Server.Cases.{IsConsistent}
use fall2026_18749_project.Server.Invariant.{process-IsConsistent}
use fall2026_18749_project.Server.Slots.{Slot, slot, serve, slot_self, slot_other}

-- A valid request as it stands on the wire, with what it says.
pub record Request : Type 0 where
  pub fields : Fields
  pub client : String
  pub replica : String
  pub operation : String
  pub n : ℕ
  pub valid : IsRequest fields client replica operation n

-- The calls of `_process`, in the order in which the lock admits them.
unfoldable pub run : List Request → Listener → Listener
run [] s = s
run (q ∷ qs) s = run qs (process q.fields s).1

-- What a client has asked for, in order: operations and numbers.
unfoldable pub asked : String → List Request → List (String × ℕ)
asked c [] = []
asked c (q ∷ qs) = if q.client == c then (q.operation, q.n) ∷ asked c qs else asked c qs

unfoldable pub serve_all : List (String × ℕ) → Slot → Slot
serve_all [] x = x
serve_all ((o, n) ∷ rest) x = serve_all rest (serve o n x)

pub run-IsConsistent : (qs : List Request) (s : Listener) → IsConsistent s → IsConsistent (run qs s)
unfolding run
run-IsConsistent [] s inv = inv
run-IsConsistent (q ∷ qs) s inv =
    run-IsConsistent qs (process q.fields s).1 (process-IsConsistent q.valid s inv)

-- From a consistent state, what any sequence of valid requests leaves for a client - its counter,
-- and the number and operation of its stored reply - is what an independent rule makes of the
-- client's own requests alone: a request counts exactly if it is an increment of a known client
-- with a number above the stored one.
pub slot-run :
    (c : String) (qs : List Request) (s : Listener)
    → IsConsistent s
    → slot (run qs s) c ≡ serve_all (asked c qs) (slot s c)
unfolding run asked serve_all
slot-run c [] s inv = refl
slot-run c (q ∷ qs) s inv =
    let later = slot-run c qs (process q.fields s).1 (process-IsConsistent q.valid s inv) in
    elim (Bool-cases (q.client == c)) [
      | inl own ↦ rw own (later ∙ ap (serve_all (asked c qs)) (own_slot own))
      | inr other ↦
          rw other (later ∙ ap (serve_all (asked c qs)) (slot_other q.valid s inv c other))
    ]
  where
    own_slot :
        (q.client == c) ≡ true → slot (process q.fields s).1 c ≡ serve q.operation q.n (slot s c)
    own_slot own =
        subst (λ (x : String). slot (process q.fields s).1 x ≡ serve q.operation q.n (slot s x))
          ((eq_iff q.client c).0 own) (slot_self q.valid s inv)

-- Two replicas with consistent states, equal for a client in its counter and in the number and
-- operation of its stored reply, are equal for it again after any two sequences of valid requests
-- which ask for the same operations with the same numbers in the same order on that client's side,
-- however the requests of other clients are interleaved with them.
pub convergence :
    (c : String) (qs rs : List Request) (s t : Listener)
    → IsConsistent s
    → IsConsistent t
    → slot s c ≡ slot t c
    → asked c qs ≡ asked c rs
    → slot (run qs s) c ≡ slot (run rs t) c
convergence c qs rs s t is it start same = rw (slot-run c qs s is, slot-run c rs t it, start, same)
