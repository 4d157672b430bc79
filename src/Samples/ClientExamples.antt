-- ===== src/Samples/ClientExamples.antt =====
-- The client of one replica over a network that loses messages, and the client of all replicas.
use fall2026_18749_project.Prelude.{
  arith, ◌+◌, ◌≡◌, refl, true, false, none, some, List, [], ◌∷◌, length, find, inl, String, ap,
}
use fall2026_18749_project.Text.{is_blank}
use fall2026_18749_project.Result.{ok, timeout_error, connection_error, Result}
use fall2026_18749_project.Protocol.Built.{reply_to, reply_to-IsReply, request_fields-IsRequest}
use fall2026_18749_project.Protocol.WellFormed.{IsReply, valid_reply, IsRequest}
use fall2026_18749_project.Client
use fall2026_18749_project.Service.{Service, Fate, unreachable, lost_reply, delivered, calls}
use fall2026_18749_project.Service.Progress.{Aligned}
use fall2026_18749_project.Service.Calls.{Replies, calls_in_order}
use fall2026_18749_project.Active.{ReplicaConnection, Active, waiting}
use fall2026_18749_project.Active.Schedule.{Event, arrived, finished, called, run}
use fall2026_18749_project.Active.Steps.{core}
use fall2026_18749_project.Active.Order.{Ready, is_due, Answers, returned_in_order}
use fall2026_18749_project.Active.Delivery.{first_reply_returned}
use fall2026_18749_project.Active.Counted.{IsServed, CountedReplies, values_in_order}
use fall2026_18749_project.Value.{pos, Fields}
use fall2026_18749_project.Protocol.Build.{request_fields}
use fall2026_18749_project.Server.{Listener, start}
use fall2026_18749_project.Server.Cases.{IsConsistent}
use fall2026_18749_project.Server.Replies.{process_increment}
use fall2026_18749_project.Samples.{replica, replica-IsConsistent}

abbrev service : Service
service = record { client = Client.start "C1" "S1"; listener = replica }

service-Aligned : Aligned service 0
unfolding is_blank find
service-Aligned = record {
  next = refl;
  client_text = refl;
  replica_text = refl;
  named = refl;
  consistent = replica-IsConsistent;
  own = λ p h. cc;
  in_step = inl (record { known = refl; at_start = λ h. refl; answered = λ p h. cc });
}

abbrev fates : List Fate
fates = lost_reply timeout_error ∷ delivered ∷ unreachable connection_error ∷ delivered ∷ []

calls_in_order_example :
    Replies "C1" "S1" 0 (calls fates service).0 × (length (calls fates service).0 ≡ 2)
calls_in_order_example = calls_in_order service 0 service-Aligned fates

-- Request 1 has been sent to two replicas, and the call waits.
abbrev fresh : ReplicaConnection
fresh = record { last_sent = 1; last_received = 0; ended = false; finished = false }

abbrev fan_out : Active
fan_out = record {
  client_id = "C1";
  endpoints = "S1" ∷ "S2" ∷ [];
  started = true;
  closing = false;
  unopened = [];
  unsent = [];
  unwritten = [];
  connections = "S1" ∷ "S2" ∷ [];
  all_connections = ("S1", fresh) ∷ ("S2", fresh) ∷ [];
  next_request_num = 1;
  delivered_num = 0;
  last_reply = none;
  pending = waiting;
  delivered_values = [];
  outbox = [];
  log = [];
}

names : (is_blank "C1" ≡ false) × (is_blank "S1" ≡ false) × (is_blank "S2" ≡ false)
unfolding is_blank
names = (refl, refl, refl)

from_first : IsReply (reply_to "C1" "S1" 0 1) "C1" "S1" 0 1
from_first = reply_to-IsReply names.0 names.1 0 1

from_second : IsReply (reply_to "C1" "S2" 0 1) "C1" "S2" 0 1
from_second = reply_to-IsReply names.0 names.2 0 1

-- The second replica is faster.
abbrev race : List Event
race =
    arrived "S2" (ok (reply_to "C1" "S2" 0 1))
    ∷ arrived "S1" (ok (reply_to "C1" "S1" 0 1))
    ∷ finished
    ∷ called
    ∷ []

fan_out-Ready : {P : Fields → Type 0} → Ready P (core fan_out) 0
fan_out-Ready = record { number = refl; stage = is_due refl λ m h. cc }

returned_in_order_example :
    Answers (λ m. Unit {0}) "C1" 0 (run race fan_out).0
    × Ready (λ m. Unit {0}) (core (run race fan_out).1) (0 + length (run race fan_out).0)
returned_in_order_example =
    returned_in_order {P = λ m. Unit {0}} race fan_out 0 names.0
      (
        (valid_reply _ _ _ _ from_second, names.2, tt),
        ((valid_reply _ _ _ _ from_first, names.1, tt), (tt, (tt, tt))),
      )
      fan_out-Ready

first_reply_returned_example :
    (run (arrived "S2" (ok (reply_to "C1" "S2" 0 1)) ∷ finished ∷ []) fan_out).0
    ≡ some (reply_to "C1" "S2" 0 1) ∷ []
unfolding find
first_reply_returned_example =
    first_reply_returned names.2 fan_out fresh names.0 from_second refl refl refl refl refl refl
      refl refl

-- Both replicas have answered the first request.
abbrev fresh_replica : String → Listener
fresh_replica r = start r (("C1", 0) ∷ [])

module _ (r : String) (named : is_blank r ≡ false) where
  fresh_replica-IsConsistent : IsConsistent (fresh_replica r)
  unfolding find
  fresh_replica-IsConsistent = record {
    replica_text = named;
    stored = λ c p h. cc;
    unanswered = λ c k h known. ground arith;
  }

  first_request : IsRequest (request_fields "C1" r (pos 1)) "C1" r "increment" 0
  first_request = request_fields-IsRequest {c = "C1"} {r = r} names.0 named 0

  first-IsServed : IsServed (reply_to "C1" r 0 1)
  unfolding find
  first-IsServed = record {
    request = request_fields "C1" r (pos 1);
    client = "C1";
    replica = r;
    n = 0;
    listener = fresh_replica r;
    is_request = first_request;
    consistent = fresh_replica-IsConsistent;
    in_step = inl (record { known = refl; at_start = λ h. refl; answered = λ p h. cc });
    result =
        ap (λ (x : Result Fields × Listener). x.0)
          (process_increment first_request (fresh_replica r) refl {k = 0} refl refl);
  }

values_in_order_example : CountedReplies "C1" 0 (run race fan_out).0
values_in_order_example =
    values_in_order race fan_out 0 names.0
      (
        (valid_reply _ _ _ _ from_second, names.2, λ c r n v q. first-IsServed "S2" names.2),
        (
          (valid_reply _ _ _ _ from_first, names.1, λ c r n v q. first-IsServed "S1" names.1),
          (tt, (tt, tt)),
        ),
      )
      fan_out-Ready
