-- ===== src/Service/Calls.antt =====
-- A sequence of calls of `send_increment`, each with its own fate.
use fall2026_18749_project.Prelude.{
  ℕ, suc, ◌+◌, String, ◌≡◌, refl, ap, subst, List, [], ◌∷◌, length, arith,
}
use fall2026_18749_project.Value.{Fields}
use fall2026_18749_project.Result.{Exn, Result, ok, err}
use fall2026_18749_project.Protocol.WellFormed.{IsReply}
use fall2026_18749_project.Client.Accepts.{SameNames, send_increment-SameNames}
use fall2026_18749_project.Service.{
  Service, Fate, unreachable, lost_request, lost_reply, delivered, call, calls, deliveries,
  returned,
}
use fall2026_18749_project.Service.Progress.{Aligned, call-Outcome}

-- Replies to the requests that come after `n` others, in order, each with the number of its request
-- as its value.
abbrev pub Replies : String → String → ℕ → List Fields → Type 0
Replies client replica n [] = Unit
Replies client replica n (m ∷ ms) =
    IsReply m client replica n (suc n) × Replies client replica (suc n) ms

call-SameNames : (f : Fate) (s : Service) → SameNames s.client (call f s).1.client
unfolding call
call-SameNames (unreachable e) s = send_increment-SameNames _ s.client
call-SameNames (lost_request e) s = send_increment-SameNames _ s.client
call-SameNames (lost_reply e) s = send_increment-SameNames _ s.client
call-SameNames delivered s = send_increment-SameNames _ s.client

-- What a sequence of calls gives to a client that has had `n` replies: these replies, and the state
-- with so many more.
record Progress (s : Service) (n d : ℕ) (r : List Fields × Service) : Type 0 where
  replies : Replies s.client.client_id s.client.replica_id n r.0
  number : length r.0 ≡ d
  aligned : Aligned r.1 (n + d)

module _ (s : Service) (n : ℕ) (f : Fate) (d : ℕ) (r : List Fields × Service) where
  later-Replies :
      (k : ℕ) → Progress (call f s).1 k d r → Replies s.client.client_id s.client.replica_id k r.0
  later-Replies k p =
      let (same_client, same_replica) = call-SameNames f s in
      subst (λ (x : String). Replies x s.client.replica_id k r.0) same_client
        (subst (λ (y : String). Replies (call f s).1.client.client_id y k r.0) same_replica
          p.replies)

  -- A call without a reply.
  disturbed :
      {m : Result Fields} {x : Exn}
      → m ≡ err x
      → Progress (call f s).1 n d r
      → Progress s n d (returned m r.0, r.1)
  disturbed e p =
      rw e (record { replies = later-Replies n p; number = p.number; aligned = p.aligned })

  undisturbed :
      {m : Result Fields} {a : Fields}
      → m ≡ ok a
      → IsReply a s.client.client_id s.client.replica_id n (suc n)
      → Progress (call f s).1 (suc n) d r
      → Progress s n (suc d) (returned m r.0, r.1)
  undisturbed e reply p =
      let moved : suc n + d ≡ n + suc d = omega arith in
      rw e (record {
        replies = (reply, later-Replies (suc n) p);
        number = ap suc p.number;
        aligned = subst (Aligned r.1) moved p.aligned;
      })

calls-Progress :
    (fs : List Fate) (s : Service) (n : ℕ) → Aligned s n → Progress s n (deliveries fs) (calls fs s)
unfolding calls
calls-Progress [] s n h =
    let same : n ≡ n + 0 = omega arith in
    record { replies = tt; number = refl; aligned = subst (Aligned s) same h }
calls-Progress (unreachable e ∷ fs) s n h =
    let (x, p, next) = call-Outcome s n h (unreachable e) in
    disturbed s n (unreachable e) (deliveries fs) _ p
      (calls-Progress fs (call (unreachable e) s).1 n next)
calls-Progress (lost_request e ∷ fs) s n h =
    let (x, p, next) = call-Outcome s n h (lost_request e) in
    disturbed s n (lost_request e) (deliveries fs) _ p
      (calls-Progress fs (call (lost_request e) s).1 n next)
calls-Progress (lost_reply e ∷ fs) s n h =
    let (x, p, next) = call-Outcome s n h (lost_reply e) in
    disturbed s n (lost_reply e) (deliveries fs) _ p
      (calls-Progress fs (call (lost_reply e) s).1 n next)
calls-Progress (delivered ∷ fs) s n h =
    let (m, p, reply, next) = call-Outcome s n h delivered in
    undisturbed s n delivered (deliveries fs) _ p reply
      (calls-Progress fs (call delivered s).1 (suc n) next)

module _ (s : Service) (n : ℕ) (aligned : Aligned s n) (fs : List Fate) where
  -- A client and its replica that agree on the first n requests, the client at request n + 1: over
  -- any sequence of calls of `send_increment`, each of which finds the replica unreachable, loses
  -- the request, loses the reply or is not disturbed, the calls return exactly one reply for each
  -- undisturbed call, these are the valid replies to the requests n + 1, n + 2, ... in order, and
  -- each has the number of its request as its value.
  pub calls_in_order :
      Replies s.client.client_id s.client.replica_id n (calls fs s).0
      × (length (calls fs s).0 ≡ deliveries fs)
  calls_in_order = let p = calls-Progress fs s n aligned in (p.replies, p.number)
