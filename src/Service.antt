-- ===== src/Service.antt =====
-- One client, src/ft_system/client/app.py, and the replica that it talks to, src/ft_system/server/app.py,
-- over a network that loses messages. A call of `send_increment` meets one `Fate`.
pub mod Progress
pub mod Calls
use fall2026_18749_project.Prelude.{ℕ, suc, false, List, [], ◌∷◌}
use fall2026_18749_project.Value.{pos, Fields}
use fall2026_18749_project.Result.{Exn, Result, ok, err, eof_error}
use fall2026_18749_project.Protocol.Build.{build_client_request}
use fall2026_18749_project.Server.{Listener}
use fall2026_18749_project.Server.Connection.{serve_client}
use fall2026_18749_project.Client.{Client, Answers, send_increment}

pub record Service : Type 0 where
  pub client : Client
  pub listener : Listener

-- The connection cannot be opened; the request does not arrive; it is answered but the answer does
-- not arrive; both arrive. The exception is the one that the client gets.
pub data Fate : Type 0 where
  unreachable lost_request lost_reply : Exn → Fate
  delivered : Fate

abbrev pub reading : Result Fields → Answers
reading r = record { closing = false; connect = ok tt; write = ok tt; read = r }

abbrev pub refusing : Exn → Answers
refusing e = record { closing = false; connect = err e; write = ok tt; read = err e }

-- What the client reads when this was written to its connection.
abbrev pub first_of : List Fields → Result Fields
first_of [] = err eof_error
first_of (m ∷ rest) = ok m

-- The request arrives on a connection to the client port.
unfoldable pub arrive : Fields → Listener → Result Fields × Listener
arrive m s =
    let c =
      (serve_client (record { read = ok m; write = ok tt } ∷ [])
        (record { listener = s; sent = [] })).1 in
    (first_of c.sent, c.listener)

-- What the client sends, if it is connected.
unfoldable pub next_request : Client → Result Fields
next_request c = build_client_request c.client_id c.replica_id (pos c.next_request_num)

unfoldable pub transmit : Result Fields → Listener → Result Fields × Listener
unfolding arrive
transmit (err e) s = (err e, s)
transmit (ok m) s = arrive m s

-- One call of `send_increment`.
unfoldable pub call : Fate → Service → Result Fields × Service
unfolding transmit next_request
call (unreachable e) s =
    let (r, client) = send_increment (refusing e) s.client in (r, record s { client = client })
call (lost_request e) s =
    let (r, client) = send_increment (reading (err e)) s.client in (r, record s { client = client })
call (lost_reply e) s =
    let (r, client) = send_increment (reading (err e)) s.client in
    (r, record { client = client; listener = (transmit (next_request s.client) s.listener).1 })
call delivered s =
    let (answer, listener) = transmit (next_request s.client) s.listener in
    let (r, client) = send_increment (reading answer) s.client in
    (r, record { client = client; listener = listener })

abbrev pub returned : Result Fields → List Fields → List Fields
returned (ok m) rest = m ∷ rest
returned (err e) rest = rest

-- A sequence of calls: the replies that were returned, and the state at the end.
unfoldable pub calls : List Fate → Service → List Fields × Service
calls [] s = ([], s)
calls (f ∷ fs) s = let (rest, t) = calls fs (call f s).1 in (returned (call f s).0 rest, t)

-- The calls whose request and answer both arrive.
abbrev pub deliveries : List Fate → ℕ
deliveries [] = 0
deliveries (delivered ∷ fs) = suc (deliveries fs)
deliveries (unreachable e ∷ fs) = deliveries fs
deliveries (lost_request e ∷ fs) = deliveries fs
deliveries (lost_reply e ∷ fs) = deliveries fs
