-- ===== src/Active/Counted.antt =====
-- The client of all replicas, src/ft_system/client/active.py, and the replicas that answer it,
-- `ClientListener` of src/ft_system/server/app.py: the values that its calls return.
use fall2026_18749_project.Prelude.{
  ℕ, suc, String, ◌≡◌, sym, ◌∙◌, subst, ◌⊎◌, false, Option, none, some, List, [], ◌∷◌,
}
use fall2026_18749_project.Text.{is_blank}
use fall2026_18749_project.Value.{pos, Value, int, dict, Fields}
use fall2026_18749_project.Result.{ok}
use fall2026_18749_project.Protocol.WellFormed.{IsRequest, IsReply}
use fall2026_18749_project.Server.{Listener, process}
use fall2026_18749_project.Server.Cases.{IsConsistent}
use fall2026_18749_project.Server.ExactlyOnce.{InStep, exactly_once}
use fall2026_18749_project.Active.{Active}
use fall2026_18749_project.Active.Schedule.{Event, run}
use fall2026_18749_project.Active.Steps.{core}
use fall2026_18749_project.Active.Order.{Ready, Answers, AllSound, returned_in_order}

-- The answer of a replica in a consistent state, to an increment that is the next one of its client
-- or the last one once more.
pub record IsServed (m : Fields) : Type 0 where
  pub request : Fields
  pub client : String
  pub replica : String
  pub n : ℕ
  pub listener : Listener
  pub is_request : IsRequest request client replica "increment" n
  pub consistent : IsConsistent listener
  pub in_step : InStep listener client n ⊎ InStep listener client (suc n)
  pub result : (process request listener).0 ≡ ok m

-- If the message is a reply, a replica has served it.
abbrev pub Served : Fields → Type 0
Served m = (client replica : String) (n v : ℕ) → IsReply m client replica n v → IsServed m

some_int_inj : (a b : ℕ) → ◌≡◌ {A = Option Value} (some (int (pos a))) (some (int (pos b))) → a ≡ b
some_int_inj a b h = cc

-- A message is a reply to one request and holds one value.
module _ {m : Fields} {c r d s : String} {n k v w : ℕ} (p : IsReply m c r n v)
    (q : IsReply m d s k w) where
  same_number : suc n ≡ suc k
  same_number = some_int_inj (suc n) (suc k) (sym p.identity.number_held ∙ q.identity.number_held)

  same_payload : p.payload ≡ q.payload
  same_payload =
      let h : some (dict p.payload) ≡ some (dict q.payload) =
        sym p.envelope.payload_held ∙ q.envelope.payload_held in
      cc

  same_value : v ≡ w
  same_value = some_int_inj v w (sym p.value_held ∙ rw same_payload q.value_held)

served-value : (m : Fields) (c r : String) (n v : ℕ) → IsServed m → IsReply m c r n v → v ≡ suc n
served-value m c r n v t q =
    let a = exactly_once t.is_request t.listener t.consistent t.in_step in
    let is : a.answer ≡ m = (let e = sym a.result ∙ t.result in cc) in
    let reply = subst (λ (x : Fields). IsReply x t.client a.replica t.n (suc t.n)) is a.is_reply in
    same_value q reply ∙ sym (same_number q reply)

-- Replies to the requests n + 1, n + 2, …, each with the number of its request as its value.
abbrev pub CountedReplies : String → ℕ → List (Option Fields) → Type 0
CountedReplies client n [] = Unit {0}
CountedReplies client n (none ∷ rest) = ⊥
CountedReplies client n (some m ∷ rest) =
    ((replica : String) × IsReply m client replica n (suc n)) × CountedReplies client (suc n) rest

Answers-CountedReplies :
    (client : String) (n : ℕ) (rs : List (Option Fields))
    → Answers Served client n rs
    → CountedReplies client n rs
Answers-CountedReplies client n [] a = tt
Answers-CountedReplies client n (none ∷ rs) (a, rest) = a
Answers-CountedReplies client n (some m ∷ rs) ((r, v, q, served), rest) =
    let is = served-value m client r n v (served client r n v q) q in
    (
      (r, subst (λ (x : ℕ). IsReply m client r n x) is q),
      Answers-CountedReplies client (suc n) rs rest,
    )

-- For a client of all replicas whose name is not blank and that is at request n + 1: along any
-- sequence of stretches in which the messages that are read are valid and come from replicas with
-- names, and every reply among them is the answer of `_process` of a replica in a consistent state
-- to an increment that is the next one of its client there, or the last one once more, the calls of
-- `send_increment` return valid replies to the requests n + 1, n + 2, ... in this order, each with
-- the number of its request as its value, whichever replica was the first to answer.
pub values_in_order :
    (es : List Event) (s : Active) (n : ℕ)
    → is_blank s.client_id ≡ false
    → AllSound Served es
    → Ready Served (core s) n
    → CountedReplies s.client_id n (run es s).0
values_in_order es s n named sound ready =
    Answers-CountedReplies s.client_id n (run es s).0 (returned_in_order es s n named sound ready).0
