-- ===== src/Active/Moves.antt =====
-- The protocol that the client of all replicas follows, as a relation on the numbers, the last reply
-- and the future.
use fall2026_18749_project.Prelude.{
  ℕ, suc, ◌+◌, ◌≡◌, ◌≢◌, refl, ap, not, ◌&&◌, Bool, true, false, Option, none, some, String, leb,
  nat_eq, find, arith, Bool-cases, inl, inr, if◌then◌else◌,
}
use fall2026_18749_project.Text.{is_blank}
use fall2026_18749_project.Value.{Fields}
use fall2026_18749_project.Result.{Exn, Result, ok, err, connection_error, timeout_error}
use fall2026_18749_project.Protocol.WellFormed.{IsReply, IsValid}
use fall2026_18749_project.Gfd.Members.{has, discard}
use fall2026_18749_project.Active.{
  is_empty, ReplicaConnection, Active, Pending, absent, waiting, resolved, is_unavailable,
  open_replica, prune,
}
use fall2026_18749_project.Active.Receiving.{receive}
use fall2026_18749_project.Active.Schedule.{
  Reaction, goes_on, returns, raises, Event, connects, opened, arrived, done, cleared, connect,
  clear, finish_task, open_at, begin_call, after_send, send_at, written_at, end_write, time_out,
  pruned, called, finished, times_out, closed, sent, written, begin, send, note_sent, interrupt,
  write_failed, hand_over, finish, close, receive_at, calling, idle, step,
}
use fall2026_18749_project.Active.Steps.{
  Core, core, delivering, Effect, no_effect, delivers, retire-core, end_task-core, receive-Effect,
}

pub data Move (P : Fields → Type 0) (k l : Core) : Reaction → Type 0 where
  stays : l ≡ k → Move P k l goes_on
  refuses : (e : Exn) → l ≡ k → Move P k l (raises e)
  gives_up : (e : Exn) → l ≡ record k { pending = absent } → Move P k l (raises e)
  waits :
      k.delivered_num ≢ k.next_request_num → l ≡ record k { pending = waiting } → Move P k l goes_on
  delivers_reply :
      (replica : String) (n v : ℕ) (m : Fields)
      → k.next_request_num ≡ suc n
      → leb (suc n) k.delivered_num ≡ false
      → IsReply m k.client_id replica n v
      → P m
      → l ≡ delivering (suc n) m k
      → Move P k l goes_on
  returns_late :
      k.pending ≡ absent
      → k.delivered_num ≡ k.next_request_num
      → l ≡ record k { next_request_num = k.next_request_num + 1 }
      → Move P k l (returns k.last_reply)
  returns_reply :
      (m : Fields)
      → k.pending ≡ resolved m
      → l ≡ record k { next_request_num = k.next_request_num + 1; pending = absent }
      → Move P k l (returns (some m))

open_replica-core :
    (replica : String) (r : Result (Unit {0})) (s : Active)
    → core (open_replica replica r s).1 ≡ core s
unfolding open_replica
open_replica-core replica (ok u) s = refl
open_replica-core replica (err e) s = ground arith

open_at-core :
    (replica : String) (r : Result (Unit {0})) (s : Active) → core (open_at replica r s) ≡ core s
unfolding open_at
open_at-core replica r s =
    ground (arith, open_replica-core replica r (record s { unopened = discard s.unopened replica }))

connect-core : (s : Active) → core (connect s) ≡ core s
unfolding connect
connect-core s = ground arith

clear-core : (s : Active) → core (clear s) ≡ core s
unfolding clear
clear-core s = ground arith

finish_task-core : (replica : String) (s : Active) → core (finish_task replica s) ≡ core s
unfolding finish_task
finish_task-core replica s = ground arith

send-core : (replica : String) (s : Active) → core (send replica s).1 ≡ core s
unfolding send note_sent
send-core replica s = ground arith

begin-Move :
    {P : Fields → Type 0} (s : Active)
    → s.pending ≡ absent
    → Move P (core s) (core (begin s).1) (begin s).0
unfolding begin is_empty
begin-Move s h = elim (Bool-cases (nat_eq s.delivered_num s.next_request_num)) [
  | inl g ↦ rw g (returns_late h (let g = g in ground arith) refl)
  | inr g ↦ elim (Bool-cases (is_empty s.connections)) [
    | inl e ↦ rw g (rw e (refuses connection_error refl))
    | inr e ↦ rw g (rw e (waits (λ q. ground arith) refl))
  ]
]

write_failed-Move :
    {P : Fields → Type 0} (replica : String) (e : Exn) (s : Active)
    → Move P (core s) (core (write_failed replica e s).1) (write_failed replica e s).0
unfolding write_failed interrupt
write_failed-Move replica e s = elim (Bool-cases (is_unavailable e)) [
  | inl h ↦ rw h (stays (retire-core replica e s))
  | inr h ↦ rw h (gives_up e refl)
]

after_send-Move :
    {P : Fields → Type 0} (k : Core) (x : Result (Unit {0}) × Active)
    → core x.1 ≡ k
    → Move P k (core (after_send x).1) (after_send x).0
unfolding after_send interrupt
after_send-Move k (ok u, s) h = stays h
after_send-Move k (err e, s) h = gives_up e (ap (λ (y : Core). record y { pending = absent }) h)

if-Move :
    {P : Fields → Type 0} (b : Bool) (s : Active) (x : Reaction × Active)
    → Move P (core s) (core x.1) x.0
    → Move P (core s) (core (if b then x else (goes_on, s)).1) (if b then x else (goes_on, s)).0
if-Move true s x q = q
if-Move false s x q = stays refl

written_at-Move :
    {P : Fields → Type 0} (replica : String) (r : Result (Unit {0})) (s : Active)
    → Move P (core s) (core (written_at replica r s).1) (written_at replica r s).0
unfolding written_at
written_at-Move replica (ok u) s = stays refl
written_at-Move replica (err e) s =
    write_failed-Move replica e (record s { unwritten = discard s.unwritten replica })

-- A stretch of the call under way.
calling-Move :
    {P : Fields → Type 0} (p : Pending) (s : Active) (x : Reaction × Active)
    → Move P (core s) (core x.1) x.0
    → Move P (core s) (core (calling p x s).1) (calling p x s).0
unfolding calling
calling-Move absent s x q = stays refl
calling-Move waiting s x q = q
calling-Move (resolved m) s x q = q

hand_over-Move :
    {P : Fields → Type 0} (p : Pending) (s : Active)
    → s.pending ≡ p
    → Move P (core s) (core (hand_over p s).1) (hand_over p s).0
unfolding hand_over
hand_over-Move (resolved m) s h = returns_reply m h refl
hand_over-Move absent s h = stays refl
hand_over-Move waiting s h = stays refl

begin_call-Move :
    {P : Fields → Type 0} (s : Active)
    → s.pending ≡ absent
    → Move P (core s) (core (begin_call s).1) (begin_call s).0
unfolding begin_call
begin_call-Move s h = elim (Bool-cases s.started) [
  | inl g ↦ simp (g) (begin-Move s h)
  | inr g ↦ simp (g) (stays refl)
]

idle-Move :
    {P : Fields → Type 0} (p : Pending) (s : Active)
    → s.pending ≡ p
    → Move P (core s) (core (idle p (begin_call s) s).1) (idle p (begin_call s) s).0
unfolding idle
idle-Move absent s h = begin_call-Move s h
idle-Move waiting s h = stays refl
idle-Move (resolved m) s h = stays refl

either-Move :
    {P : Fields → Type 0} (b : Bool) (s t : Active)
    → Move P (core s) (core t) goes_on
    → Move P (core s) (core (if b then s else t)) goes_on
either-Move true s t q = stays refl
either-Move false s t q = q

effect-Move :
    {P : Fields → Type 0} {replica : String} {m : Fields} {k l : Core}
    → P m
    → Effect replica m k l
    → Move P k l goes_on
effect-Move p (no_effect h) = stays h
effect-Move {replica = replica} {m = m} p (delivers n v number late q h) =
    delivers_reply replica n v m number late q p h

-- A message that is read is valid and has the property `P`, and a replica has a name.
abbrev pub Sound : (Fields → Type 0) → Event → Type 0
Sound P (arrived replica (ok m)) = IsValid m × (is_blank replica ≡ false) × P m
Sound P _ = Unit {0}

receive_at-Move :
    {P : Fields → Type 0} (o : Option ReplicaConnection) (replica : String) (r : Result Fields)
    (s : Active)
    → is_blank s.client_id ≡ false
    → Sound P (arrived replica r)
    → Move P (core s) (core (receive_at o replica r s)) goes_on
unfolding receive_at receive
receive_at-Move none replica r s named sound = stays refl
receive_at-Move (some c) replica (err e) s named sound =
    either-Move c.ended s _ (stays (end_task-core replica e s))
receive_at-Move (some c) replica (ok m) s named (valid, text, p) =
    either-Move c.ended s _ (effect-Move p (receive-Effect replica text c s named m valid))

-- For a client of all replicas whose name is not blank, every stretch - with a valid message from a
-- replica whose name is not blank, if it reads one - is a move of the protocol: it leaves the
-- numbers, the last reply and the future as they are, or it gives the future up, creates it, sets
-- it to the reply that is due, or returns the reply that has been delivered.
pub step-Move :
    {P : Fields → Type 0} (e : Event) (s : Active)
    → is_blank s.client_id ≡ false
    → Sound P e
    → Move P (core s) (core (step e s).1) (step e s).0
unfolding step send_at end_write time_out prune interrupt finish close
step-Move connects s named sound = stays (connect-core s)
step-Move (opened replica r) s named sound = stays (open_at-core replica r s)
step-Move (arrived replica r) s named sound =
    receive_at-Move (find s.all_connections replica) replica r s named sound
step-Move (done replica) s named sound = stays (finish_task-core replica s)
step-Move pruned s named sound = stays refl
step-Move called s named sound = idle-Move s.pending s refl
step-Move (sent replica) s named sound = calling-Move s.pending s (send_at replica s) (
    if-Move (has s.unsent replica) s _ (
      after_send-Move (core s) (send replica (record s { unsent = discard s.unsent replica }))
        (send-core replica (record s { unsent = discard s.unsent replica }))))
step-Move (written replica r) s named sound = calling-Move s.pending s (end_write replica r s) (
    if-Move (has s.unwritten replica && not (has s.unsent replica)) s (written_at replica r s)
      (written_at-Move replica r s))
step-Move finished s named sound =
    calling-Move s.pending s (finish s)
      (if-Move (is_empty s.unwritten) s _ (hand_over-Move s.pending s refl))
step-Move times_out s named sound =
    calling-Move s.pending s (time_out s)
      (if-Move (is_empty s.unwritten) s _ (gives_up timeout_error refl))
step-Move closed s named sound = stays refl
step-Move cleared s named sound = stays (clear-core s)
