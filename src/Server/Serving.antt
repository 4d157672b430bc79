-- ===== src/Server/Serving.antt =====
-- What a connection gets whose client sends valid requests only.
use fall2026_18749_project.Prelude.{
  suc, ℕ, String, ◌≡◌, ◌∙◌, refl, sym, true, All, List, [], ◌∷◌, ◌++◌, map, inl, inr, eq_refl,
}
use fall2026_18749_project.Value.{pos, int, str, Fields, eq_str}
use fall2026_18749_project.Logger.{server_heartbeat_received, server_heartbeat_ack_sent}
use fall2026_18749_project.Protocol.{heartbeat, heartbeat_ack}
use fall2026_18749_project.Protocol.WellFormed.{IsBeat, IsRequest}
use fall2026_18749_project.Protocol.Build.{heartbeat_fields}
use fall2026_18749_project.Protocol.Built.{build_heartbeat_ack_lem}
use fall2026_18749_project.Server.Connection.{
  Beats, acknowledge, beat_message, Turn, Connection, on_listener, write, respond, serve_message,
  serve_read, go_on, serve_client,
}
use mathlib.Core.List.{append_assoc, append-nil}
use fall2026_18749_project.Result.{Result, ok, err}
use fall2026_18749_project.Protocol.Validate.{item-lookup}
use fall2026_18749_project.Server.{Listener, process}
use fall2026_18749_project.Server.Cases.{IsConsistent, process_cases}
use fall2026_18749_project.Server.Invariant.{process-IsConsistent, process_total}
use fall2026_18749_project.Server.Replicas.{Request, run}

-- The request arrives and its answer can be written.
abbrev pub turn_of : Request → Turn
turn_of q = record { read = ok q.fields; write = ok tt }

abbrev pub answer_then : Result Fields → List Fields → List Fields
answer_then (ok a) rest = a ∷ rest
answer_then (err e) rest = rest

-- The answers of `_process`, in order.
unfoldable pub answers : List Request → Listener → List Fields
answers [] s = []
answers (q ∷ qs) s = answer_then (process q.fields s).0 (answers qs (process q.fields s).1)

pub process-replica_id :
    {m : Fields} {c r o : String} {n : ℕ} (q : IsRequest m c r o n) (s : Listener)
    → IsConsistent s
    → (process m s).1.replica_id ≡ s.replica_id
process-replica_id q s inv = elim (process_cases q s inv) [
  | inl t ↦ rw t.result refl
  | inr t ↦ rw t.result t.same_id
]

pub serve_request :
    (q : Request) (c : Connection) (a : Fields)
    → q.replica ≡ c.listener.replica_id
    → (process q.fields c.listener).0 ≡ ok a
    → serve_message (ok tt) q.fields c
      ≡ (ok true, record { listener = (process q.fields c.listener).1; sent = c.sent ++ a ∷ [] })
unfolding serve_message respond on_listener write eq_str
serve_request q c a here h = simp (
  item-lookup q.fields "type" q.valid.envelope.type,
  item-lookup q.fields "destination" q.valid.envelope.destination_text.held,
  here,
  eq_refl c.listener.replica_id,
  h,
)

-- On a connection to a replica in a consistent state over which only valid requests addressed to it
-- arrive, and whose writes succeed, the loop `handle` of the client port writes exactly the answers
-- of `_process`, one for each request in their order, and leaves the replica as these calls of
-- `_process` leave it.
pub serve_client_lem :
    (id : String) (qs : List Request) (c : Connection)
    → IsConsistent c.listener
    → c.listener.replica_id ≡ id
    → All (λ q. q.replica ≡ id) qs
    → serve_client (map turn_of qs) c
      ≡ (ok tt, record { listener = run qs c.listener; sent = c.sent ++ answers qs c.listener })
unfolding serve_client serve_read go_on answers run
serve_client_lem id [] c inv named here = simp append-nil
serve_client_lem id (q ∷ qs) c inv named (own, here) =
    let (a, h) = process_total q.valid c.listener inv in
    let next : Connection = record {
      listener = (process q.fields c.listener).1;
      sent = c.sent ++ a ∷ [];
    } in
    let later =
      serve_client_lem id qs next (process-IsConsistent q.valid c.listener inv)
        (process-replica_id q.valid c.listener inv ∙ named) here in
    rw (serve_request q c a (own ∙ sym named) h, h) (later ∙ simp append_assoc)

-- A valid heartbeat addressed to the replica is logged and answered by the heartbeat port with an
-- acknowledgement to its sender that carries its number, if the write succeeds, and the loop goes
-- on.
pub beat_message_lem :
    {m : Fields} {l r : String} {n : ℕ} (q : IsBeat heartbeat m l r n) (s : Beats)
    → s.replica_id ≡ r
    → beat_message (ok tt) m s ≡ (
      ok true,
      record s {
        acks = s.acks ++ heartbeat_fields heartbeat_ack (str r) (str l) (int (pos (suc n))) ∷ [];
        log =
            (s.log ++ server_heartbeat_received r (str l) (int (pos (suc n))) ∷ [])
            ++ server_heartbeat_ack_sent r (str l) (int (pos (suc n))) ∷ [];
      },
    )
unfolding beat_message acknowledge eq_str
beat_message_lem {m} {l} {r} {n} q s here = simp (
  item-lookup m "type" q.envelope.type,
  item-lookup m "destination" q.envelope.destination_text.held,
  item-lookup m "source" q.envelope.source_text.held,
  item-lookup m "heartbeat_count" q.count_held,
  here,
  eq_refl r,
  build_heartbeat_ack_lem q,
)
