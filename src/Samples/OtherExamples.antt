-- ===== src/Samples/OtherExamples.antt =====
-- Concrete messages, a concrete deployment, and and the client on concrete answers.
use fall2026_18749_project.Logger.{
  server_heartbeat_received, server_heartbeat_ack_sent, message_tuple, needed,
}
use fall2026_18749_project.Server.Connection.{Beats, beat_message}
use fall2026_18749_project.Server.Serving.{beat_message_lem}
use fall2026_18749_project.Client
use fall2026_18749_project.Prelude.{List, ℕ, ◌+◌, ◌*◌, ◌^◌, ◌≡◌, refl, arith, true, false, [], ◌∷◌}
use fall2026_18749_project.Text.{is_blank, show}
use fall2026_18749_project.Value.{pos, int, str, dict, Fields, lookup, get, eq_str, eq_int}
use fall2026_18749_project.Result.{ok, err, timeout_error, os_error}
use fall2026_18749_project.Protocol.{heartbeat, heartbeat_ack}
use fall2026_18749_project.Protocol.WellFormed.{
  IsValid, valid_request, valid_reply, IsReply, IsBeat,
}
use fall2026_18749_project.Protocol.Validate.{validate_message, item, request_id_of, show_ℤ}
use fall2026_18749_project.Protocol.Sound.{validate_message_sound}
use fall2026_18749_project.Protocol.Complete.{validate_message-IsValid}
use fall2026_18749_project.Protocol.Build.{heartbeat_fields}
use fall2026_18749_project.Protocol.Built.{
  reply_to, reply_to-IsReply, heartbeat_fields-IsBeat, build_client_request_lem,
}
use fall2026_18749_project.Access.{payload_item}
use fall2026_18749_project.Backoff.{Backoff, IsBackoff, next_delay, delay_closed_form}
use fall2026_18749_project.Client.{Client, send_increment}
use fall2026_18749_project.Client.Commands.{
  finished, run_count, leave_loop, run_counted, Ran, try_increment, report, counted_replies,
}
use fall2026_18749_project.Server.LifeCycle.{Event, starts, enters}
use fall2026_18749_project.Client.Sending.{send_increment-IsReply}
use fall2026_18749_project.Samples.{increment, increment-IsRequest}
use Prim.Native.Nat.{min}

increment-IsValid : IsValid (increment 0)
increment-IsValid = valid_request _ _ _ _ (increment-IsRequest 0)

validate_message-IsValid_example : validate_message (dict (increment 0)) ≡ ok (increment 0)
validate_message-IsValid_example = validate_message-IsValid (increment 0) increment-IsValid

validate_message_sound_example : (dict (increment 0) ≡ dict (increment 0)) × IsValid (increment 0)
validate_message_sound_example =
    validate_message_sound (dict (increment 0)) (increment 0) validate_message-IsValid_example

abbrev beat : Fields
beat = heartbeat_fields heartbeat (str "LFD1") (str "S1") (int (pos 1))

beat-IsBeat : IsBeat heartbeat beat "LFD1" "S1" 0
unfolding is_blank
beat-IsBeat = heartbeat_fields-IsBeat {s = "LFD1"} {d = "S1"} refl refl heartbeat 0

-- A delay of 5 units that doubles up to 50.
abbrev cap : ℕ → ℕ → ℕ
cap maximum initial = 4

abbrev backoff : Backoff
backoff = record { initial = 5; maximum = 50; attempt = 2 }

backoff-IsBackoff : IsBackoff backoff
backoff-IsBackoff = record { positive = omega arith; ordered = omega arith }

delay_closed_form_example : (next_delay cap backoff).0 ≡ min (5 * 2 ^ 2) 50
delay_closed_form_example = delay_closed_form cap backoff (omega arith)

-- The client of one replica, its request answered at once, and not at all.
abbrev client : Client
client = Client.start "C1" "S1"

abbrev replied : Client.Answers
replied = record {
  closing = false;
  connect = ok tt;
  write = ok tt;
  read = ok (reply_to "C1" "S1" 0 1);
}

abbrev silent : Client.Answers
silent = record { closing = false; connect = ok tt; write = ok tt; read = err timeout_error }

names : (is_blank "C1" ≡ false) × (is_blank "S1" ≡ false)
unfolding is_blank
names = (refl, refl)

reply-IsValid : IsValid (reply_to "C1" "S1" 0 1)
reply-IsValid = valid_reply _ _ _ _ (reply_to-IsReply names.0 names.1 0 1)

sent : (send_increment replied client).0 ≡ ok (reply_to "C1" "S1" 0 1)
unfolding send_increment Client.prepare Client.connect Client.drop_connection Client.exchange
    Client.settle Client.validate_reply Client.check_fields Client.check_field Client.same_value
    message_tuple needed item payload_item lookup get eq_str eq_int request_id_of show_ℤ show
sent = rw (build_client_request_lem names.0 names.1 0) refl

counted : (run_counted 1 (replied ∷ []) client).0 ≡ ok finished
unfolding run_counted leave_loop run_count try_increment report
counted = rw sent refl

counted_replies_example : Ran 1 client finished (run_counted 1 (replied ∷ []) client).1
counted_replies_example = counted_replies 1 (replied ∷ []) client finished counted

-- The second socket cannot be opened at first.
abbrev calls : List Event
calls =
    starts (ok 8001) (err os_error)
    ∷ starts (ok 8001) (ok 8002)
    ∷ enters 1
    ∷ starts (ok 1) (ok 2)
    ∷ []

send_increment-IsReply_example :
    ((v : ℕ) × IsReply (reply_to "C1" "S1" 0 1) "C1" "S1" 0 v)
    × ((send_increment replied client).1.next_request_num ≡ 1 + 1)
send_increment-IsReply_example =
    send_increment-IsReply replied client (reply_to "C1" "S1" 0 1) 0 refl names.0 names.1
      reply-IsValid sent

not_sent : (send_increment silent client).0 ≡ err timeout_error
unfolding send_increment Client.prepare Client.connect Client.drop_connection Client.exchange
    Client.settle Client.is_caught message_tuple needed lookup
not_sent = rw (build_client_request_lem names.0 names.1 0) refl

abbrev beats : Beats
beats = record { replica_id = "S1"; acks = []; log = [] }

beat_message_lem_example : beat_message (ok tt) beat beats ≡ (
  ok true,
  record {
    replica_id = "S1";
    acks = heartbeat_fields heartbeat_ack (str "S1") (str "LFD1") (int (pos 1)) ∷ [];
    log =
        server_heartbeat_received "S1" (str "LFD1") (int (pos 1))
        ∷ server_heartbeat_ack_sent "S1" (str "LFD1") (int (pos 1))
        ∷ [];
  },
)
beat_message_lem_example = beat_message_lem beat-IsBeat beats refl
