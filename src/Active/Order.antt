-- ===== src/Active/Order.antt =====
-- The replies that calls of `send_increment` return, along any order of messages, timeouts and
-- failures.
use fall2026_18749_project.Prelude.{
  ℕ, suc, ◌+◌, String, ◌≡◌, ◌≢◌, refl, sym, ◌∙◌, ap, subst, false, Option, none, some, List, [],
  ◌∷◌, leb, length, arith,
}
use fall2026_18749_project.Text.{is_blank}
use fall2026_18749_project.Value.{Fields}
use fall2026_18749_project.Protocol.WellFormed.{IsReply}
use fall2026_18749_project.Active.{Active, Pending, absent, waiting, resolved}
use fall2026_18749_project.Active.Receiving.{set_result}
use fall2026_18749_project.Active.Schedule.{
  Reaction, goes_on, returns, raises, Event, step, collect, run,
}
use fall2026_18749_project.Active.Steps.{Core, core, delivering}
use fall2026_18749_project.Active.Moves.{
  Move, stays, refuses, gives_up, waits, delivers_reply, returns_late, returns_reply, Sound,
  step-Move,
}

-- The last reply is a replica's valid reply to the client's request n + 1, with the property `P`.
abbrev pub IsAnswer : (Fields → Type 0) → Option Fields → String → ℕ → Type 0
IsAnswer P none client n = ⊥
IsAnswer P (some m) client n = (replica : String) × (v : ℕ) × IsReply m client replica n v × P m

-- Before the reply to request n + 1 is there, and from then on until a call returns it.
pub data Stage (P : Fields → Type 0) (k : Core) (n : ℕ) : Type 0 where
  is_due : k.delivered_num ≡ n → ((m : Fields) → k.pending ≢ resolved m) → Stage P k n
  is_answered :
      k.delivered_num ≡ suc n
      → IsAnswer P k.last_reply k.client_id n
      → ((m : Fields) → k.pending ≡ resolved m → k.last_reply ≡ some m)
      → Stage P k n

pub record Ready (P : Fields → Type 0) (k : Core) (n : ℕ) : Type 0 where
  pub number : k.next_request_num ≡ suc n
  pub stage : Stage P k n

-- What a stretch that ends so has returned: nothing, or the reply to request n + 1.
abbrev pub Returned : (Fields → Type 0) → Reaction → String → ℕ → Core → Type 0
Returned P goes_on client n l = Ready P l n
Returned P (raises e) client n l = Ready P l n
Returned P (returns m) client n l = IsAnswer P m client n × Ready P l (suc n)

set_result-resolved :
    (m : Fields) (p : Pending)
    → ((r : Fields) → p ≢ resolved r)
    → (r : Fields) → set_result m p ≡ resolved r
    → some m ≡ some r
set_result-resolved m absent open_call r h = cc
set_result-resolved m waiting open_call r h = cc
set_result-resolved m (resolved q) open_call r h = absurd (open_call q refl)

module _ {P : Fields → Type 0} (k : Core) (n : ℕ) where
  give_up-Stage : Stage P k n → Stage P (record k { pending = absent }) n
  give_up-Stage (is_due d p) = is_due d λ m q. cc
  give_up-Stage (is_answered d a p) = is_answered d a λ m q. cc

  wait-Stage : k.delivered_num ≢ suc n → Stage P k n → Stage P (record k { pending = waiting }) n
  wait-Stage late (is_due d p) = is_due d λ m q. cc
  wait-Stage late (is_answered d a p) = absurd (late d)

  -- A reply is delivered only once.
  deliver-Stage :
      (replica : String) (v : ℕ) (m : Fields)
      → leb (suc n) k.delivered_num ≡ false
      → IsReply m k.client_id replica n v
      → P m
      → Stage P k n
      → Stage P (delivering (suc n) m k) n
  deliver-Stage replica v m late q held (is_due d p) =
      is_answered refl (replica, v, q, held) (set_result-resolved m k.pending p)
  deliver-Stage replica v m late q held (is_answered d a p) = absurd (ground arith)

  late-IsAnswer : k.delivered_num ≡ suc n → Stage P k n → IsAnswer P k.last_reply k.client_id n
  late-IsAnswer late (is_due d p) = absurd (ground arith)
  late-IsAnswer late (is_answered d a p) = a

  resolved-IsAnswer :
      (m : Fields)
      → k.pending ≡ resolved m
      → Stage P k n
      → (k.delivered_num ≡ suc n) × IsAnswer P (some m) k.client_id n
  resolved-IsAnswer m h (is_due d p) = absurd (p m h)
  resolved-IsAnswer m h (is_answered d a p) =
      (d, subst (λ (o : Option Fields). IsAnswer P o k.client_id n) (p m h) a)

module _ {P : Fields → Type 0} where
  Move-Returned :
      (k l : Core) (n : ℕ) (x : Reaction)
      → Ready P k n
      → Move P k l x
      → Returned P x k.client_id n l
  Move-Returned k l n _ r (stays h) = subst (λ (y : Core). Ready P y n) (sym h) r
  Move-Returned k l n _ r (refuses e h) = subst (λ (y : Core). Ready P y n) (sym h) r
  Move-Returned k l n _ r (gives_up e h) =
      subst (λ (y : Core). Ready P y n) (sym h)
        (record { number = r.number; stage = give_up-Stage k n r.stage })
  Move-Returned k l n _ r (waits late h) =
      subst (λ (y : Core). Ready P y n) (sym h)
        (record {
          number = r.number;
          stage = wait-Stage k n (λ q. late (q ∙ sym r.number)) r.stage;
        })
  Move-Returned k l n _ r (delivers_reply replica i v m number late q held h) =
      let same : i ≡ n = let e = r.number in omega arith in
      subst (λ (y : Core). Ready P y n) (sym h)
        (record {
          number = r.number;
          stage =
              subst (λ (j : ℕ). Stage P (delivering (suc j) m k) n) (sym same)
                (deliver-Stage k n replica v m
                  (subst (λ (j : ℕ). leb (suc j) k.delivered_num ≡ false) same late)
                  (subst (λ (j : ℕ). IsReply m k.client_id replica j v) same q) held r.stage);
        })
  Move-Returned k l n _ r (returns_late idle late h) = (
    late-IsAnswer k n (late ∙ r.number) r.stage,
    subst (λ (y : Core). Ready P y (suc n)) (sym h)
        (record {
          number = (let e = r.number in omega arith);
          stage = is_due (late ∙ r.number) λ m q. cc;
        }),
  )
  Move-Returned k l n _ r (returns_reply m p h) =
      let (d, a) = resolved-IsAnswer k n m p r.stage in
      (
        a,
        subst (λ (y : Core). Ready P y (suc n)) (sym h)
            (record { number = (let e = r.number in omega arith); stage = is_due d λ m q. cc }),
      )

  Move-client : (k l : Core) (x : Reaction) → Move P k l x → l.client_id ≡ k.client_id
  Move-client k l _ (stays h) = ap (λ (y : Core). y.client_id) h
  Move-client k l _ (refuses e h) = ap (λ (y : Core). y.client_id) h
  Move-client k l _ (gives_up e h) = ap (λ (y : Core). y.client_id) h
  Move-client k l _ (waits late h) = ap (λ (y : Core). y.client_id) h
  Move-client k l _ (delivers_reply replica i v m number late q held h) =
      ap (λ (y : Core). y.client_id) h
  Move-client k l _ (returns_late idle late h) = ap (λ (y : Core). y.client_id) h
  Move-client k l _ (returns_reply m p h) = ap (λ (y : Core). y.client_id) h

-- Replies to the requests n + 1, n + 2, ….
abbrev pub Answers : (Fields → Type 0) → String → ℕ → List (Option Fields) → Type 0
Answers P client n [] = Unit {0}
Answers P client n (m ∷ rest) = IsAnswer P m client n × Answers P client (suc n) rest

abbrev pub AllSound : (Fields → Type 0) → List Event → Type 0
AllSound P [] = Unit {0}
AllSound P (e ∷ es) = Sound P e × AllSound P es

record Ordered (P : Fields → Type 0) (client : String) (n : ℕ) (x : List (Option Fields) × Active)
    : Type 0 where
  answers : Answers P client n x.0
  ready : Ready P (core x.1) (n + length x.0)

module _ {P : Fields → Type 0} where
  collect-Ordered :
      (client : String) (n : ℕ) (x : Reaction) (l : Core) (r : List (Option Fields) × Active)
      → Returned P x client n l
      → ((i : ℕ) → Ready P l i → Ordered P client i r)
      → Ordered P client n (collect x r.0, r.1)
  collect-Ordered client n goes_on l r now later = later n now
  collect-Ordered client n (raises e) l r now later = later n now
  collect-Ordered client n (returns m) l r (a, now) later =
      let o = later (suc n) now in
      let moved : suc n + length r.0 ≡ n + suc (length r.0) = omega arith in
      record { answers = (a, o.answers); ready = subst (Ready P (core r.1)) moved o.ready }

  run-Ordered :
      (es : List Event) (s : Active) (n : ℕ)
      → is_blank s.client_id ≡ false
      → AllSound P es
      → Ready P (core s) n
      → Ordered P s.client_id n (run es s)
  unfolding run
  run-Ordered [] s n named sound r =
      let same : n ≡ n + 0 = omega arith in
      record { answers = tt; ready = subst (Ready P (core s)) same r }
  run-Ordered (e ∷ es) s n named (now, later) r =
      let move = step-Move e s named now in
      let t = (step e s).1 in
      let same : t.client_id ≡ s.client_id = Move-client (core s) (core t) (step e s).0 move in
      collect-Ordered s.client_id n (step e s).0 (core t) (run es t)
        (Move-Returned (core s) (core t) n (step e s).0 r move)
        λ i q.
          subst (λ (c : String). Ordered P c i (run es t)) same
            (run-Ordered es t i (rw same named) later q)

  -- For a client of all replicas whose name is not blank and that is at request n + 1: along any
  -- sequence of stretches, in which the replicas that send messages have names and the messages
  -- that are read are valid and have any property P, the calls of `send_increment` return valid
  -- replies to the requests n + 1, n + 2, ... of this client, one for each number and in this
  -- order, each with the property P, and the client is then at the request after these.
  pub returned_in_order :
      (es : List Event) (s : Active) (n : ℕ)
      → is_blank s.client_id ≡ false
      → AllSound P es
      → Ready P (core s) n
      → Answers P s.client_id n (run es s).0 × Ready P (core (run es s).1) (n + length (run es s).0)
  returned_in_order es s n named sound ready =
      let o = run-Ordered es s n named sound ready in (o.answers, o.ready)
