-- ===== src/Service/Progress.antt =====
-- What one call does to the agreement between a client and its replica.
use fall2026_18749_project.Result.{Result-cases, Exn, ok, err}
use fall2026_18749_project.Client.Accepts.{
  SameNames, send_increment-SameNames, send_increment_answered,
}
use fall2026_18749_project.Prelude.{
  ℕ, suc, ◌+◌, ◌∙◌, String, ◌≡◌, refl, sym, subst, ◌⊎◌, inl, inr, false, some, [], find, find-put,
  eq_refl, arith,
}
use fall2026_18749_project.Text.{is_blank}
use fall2026_18749_project.Value.{pos, str, Fields}
use fall2026_18749_project.Protocol.WellFormed.{IsRequest, IsReply}
use fall2026_18749_project.Protocol.Build.{request_fields}
use fall2026_18749_project.Protocol.Built.{
  request_fields-IsRequest, reply_to-IsReply, build_client_request_lem,
}
use fall2026_18749_project.Server.{Stored, Listener, process}
use fall2026_18749_project.Server.Cases.{IsConsistent, process_cases}
use fall2026_18749_project.Server.Invariant.{some_cancel, process-IsConsistent}
use fall2026_18749_project.Server.ExactlyOnce.{InStep, Answered, exactly_once}
use fall2026_18749_project.Server.Connection.{serve_client, serve_read, go_on}
use fall2026_18749_project.Server.Serving.{process-replica_id, serve_request}
use fall2026_18749_project.Client.{Client, Answers, send_increment}
use fall2026_18749_project.Client.Sending.{send_increment_ok, send_increment_failed}
use fall2026_18749_project.Service.{
  Service, Fate, unreachable, lost_request, lost_reply, delivered, arrive, transmit, next_request,
  call, reading, refusing,
}

-- The stored reply to `c`, if there is one, names the replica `r`.
abbrev pub Own : Listener → String → String → Type 0
Own s c r =
    (p : Stored) → find s.last_replies c ≡ some p → (n : ℕ) × (v : ℕ) × IsReply p.answer c r n v

module _ {m : Fields} {c r : String} {n : ℕ} (q : IsRequest m c r "increment" n) (s : Listener)
    (inv : IsConsistent s) (own : Own s c r) where
  process-Own : Own (process m s).1 c r
  process-Own = elim (process_cases q s inv) [
    | inl t ↦ λ p h.
        let same = some_cancel (rw (t.result, find-put, eq_refl c) at h) in
        (
          n,
          t.k + 1,
          subst (λ (x : Stored). IsReply x.answer c r n (t.k + 1)) same
              (reply_to-IsReply q.identity.client_text.not_blank q.identity.replica_text.not_blank n
                (t.k + 1)),
        )
    | inr t ↦ λ p h. own p (rw (t.result, t.same_replies) at h)
  ]

  -- The answer to the next request, or to the last one again, names the replica.
  answer-IsReply : (a : Answered m c n s) → IsReply a.answer c r n (suc n)
  answer-IsReply a =
      let (p, found, same) = a.stored in
      let (k, v, reply) = process-Own p found in
      let reply' = subst (λ (x : Fields). IsReply x c r k v) same reply in
      let one : str a.replica ≡ str r =
        cc (a.is_reply.identity.replica_text.held, reply'.identity.replica_text.held) in
      let name : a.replica ≡ r = cc in
      subst (λ (x : String). IsReply a.answer c x n (suc n)) name a.is_reply

  arrive_lem :
      r ≡ s.replica_id → (a : Answered m c n s) → arrive m s ≡ (ok a.answer, (process m s).1)
  unfolding arrive serve_client serve_read go_on
  arrive_lem here a = rw (
      serve_request
        (record { fields = m; client = c; replica = r; operation = "increment"; n = n; valid = q })
        (record { listener = s; sent = [] }) a.answer here a.result)

-- The client has had the first `n` replies, and the replica has carried out these requests, and at
-- most the next one.
pub record Aligned (s : Service) (n : ℕ) : Type 0 where
  pub next : s.client.next_request_num ≡ suc n
  pub client_text : is_blank s.client.client_id ≡ false
  pub replica_text : is_blank s.client.replica_id ≡ false
  pub named : s.client.replica_id ≡ s.listener.replica_id
  pub consistent : IsConsistent s.listener
  pub own : Own s.listener s.client.client_id s.client.replica_id
  pub in_step :
      InStep s.listener s.client.client_id n ⊎ InStep s.listener s.client.client_id (suc n)

-- The reply to the request that comes after `n` others, with its value.
abbrev pub Replied : Client → ℕ → Fields → Type 0
Replied c n m = IsReply m c.client_id c.replica_id n (suc n)

-- What the replica makes of the client's request.
module _ (s : Service) (n : ℕ) (h : Aligned s n) where
  abbrev request_sent : Fields
  request_sent = request_fields s.client.client_id s.client.replica_id (pos (suc n))

  sent-IsRequest : IsRequest request_sent s.client.client_id s.client.replica_id "increment" n
  sent-IsRequest = request_fields-IsRequest h.client_text h.replica_text n

  answered : Answered request_sent s.client.client_id n s.listener
  answered = exactly_once sent-IsRequest s.listener h.consistent h.in_step

  transmit_lem :
      transmit (next_request s.client) s.listener
      ≡ (ok answered.answer, (process request_sent s.listener).1)
  unfolding transmit next_request
  transmit_lem =
      rw (h.next, build_client_request_lem h.client_text h.replica_text n)
        (arrive_lem sent-IsRequest s.listener h.consistent h.own h.named answered)

  abbrev processed : Listener
  processed = (process request_sent s.listener).1

  moved :
      (c : Client) (l : Listener) (k : ℕ)
      → SameNames s.client c
      → c.next_request_num ≡ suc k
      → l.replica_id ≡ s.listener.replica_id
      → IsConsistent l
      → Own l s.client.client_id s.client.replica_id
      → InStep l s.client.client_id k ⊎ InStep l s.client.client_id (suc k)
      → Aligned (record { client = c; listener = l }) k
  moved c l k (same_client, same_replica) next same_id consistent own in_step = record {
    next = next;
    client_text = rw same_client h.client_text;
    replica_text = rw same_replica h.replica_text;
    named = same_replica ∙ h.named ∙ sym same_id;
    consistent = consistent;
    own = rw (same_client, same_replica) own;
    in_step = rw same_client in_step;
  }

  -- A client that read nothing has raised an exception, and stays at its number.
  failed :
      (a : Answers) (e : Exn)
      → a.read ≡ err e
      → (x : Exn) × ((send_increment a s.client).0 ≡ err x)
        × ((send_increment a s.client).1.next_request_num ≡ suc n)
  failed a e broken = elim (Result-cases (send_increment a s.client).0) [
    | inl (m, p) ↦ absurd (let w = (send_increment_ok a s.client m p).was_read in cc)
    | inr (x, p) ↦ (x, p, send_increment_failed a s.client x p ∙ h.next)
  ]

  -- What one call does: no reply and no progress, or the next reply.
  abbrev pub Outcome : Fate → Type 0
  Outcome delivered =
      (m : Fields) × ((call delivered s).0 ≡ ok m)
      × Replied s.client n m
      × Aligned (call delivered s).1 (suc n)
  Outcome f = (x : Exn) × ((call f s).0 ≡ err x) × Aligned (call f s).1 n

  kept_back :
      (a : Answers) (e : Exn)
      → a.read ≡ err e
      → Aligned (record s { client = (send_increment a s.client).1 }) n
  kept_back a e broken =
      moved (send_increment a s.client).1 s.listener n (send_increment-SameNames a s.client)
        (failed a e broken).2 refl h.consistent h.own h.in_step

  pub call-Outcome : (f : Fate) → Outcome f
  unfolding call
  call-Outcome (unreachable e) =
      let (x, p, k) = failed (refusing e) e refl in (x, p, kept_back (refusing e) e refl)
  call-Outcome (lost_request e) =
      let (x, p, k) = failed (reading (err e)) e refl in (x, p, kept_back (reading (err e)) e refl)
  call-Outcome (lost_reply e) =
      let a = reading (err e) in
      let (x, p, k) = failed a e refl in
      (
        x,
        p,
        rw transmit_lem (
            moved (send_increment a s.client).1 processed n (send_increment-SameNames a s.client) k
              (process-replica_id sent-IsRequest s.listener h.consistent)
              (process-IsConsistent sent-IsRequest s.listener h.consistent)
              (process-Own sent-IsRequest s.listener h.consistent h.own) (inr answered.in_step)),
      )
  call-Outcome delivered =
      let a = reading (ok answered.answer) in
      let reply = answer-IsReply sent-IsRequest s.listener h.consistent h.own answered in
      let p =
        send_increment_answered a s.client n h.next h.client_text h.replica_text refl refl refl
          reply in
      let one_more : s.client.next_request_num + 1 ≡ suc (suc n) = omega (arith, h.next) in
      (
        answered.answer,
        rw transmit_lem p,
        reply,
        rw transmit_lem (
            moved (send_increment a s.client).1 processed (suc n)
              (send_increment-SameNames a s.client)
              ((send_increment_ok a s.client answered.answer p).number ∙ one_more)
              (process-replica_id sent-IsRequest s.listener h.consistent)
              (process-IsConsistent sent-IsRequest s.listener h.consistent)
              (process-Own sent-IsRequest s.listener h.consistent h.own) (inl answered.in_step)),
      )
