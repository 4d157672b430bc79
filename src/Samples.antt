-- ===== src/Samples.antt =====
-- Concrete values of the parts of the system, for the examples in the modules below.
pub mod ServerExamples
pub mod GfdExamples
pub mod OtherExamples
pub mod ClientExamples
pub mod LinkExamples
pub mod ConfigExamples
pub mod LfdExamples
pub mod EntryExamples
pub mod DetectionExamples
use Prim.Native.String.{◌++◌}
use fall2026_18749_project.Prelude.{
  arith, ℕ, suc, ◌+◌, String, ◌≡◌, refl, Bool, true, false, Option, none, some, List, [], ◌∷◌,
  Table, find,
}
use fall2026_18749_project.Text.{is_blank}
use fall2026_18749_project.Value.{
  ℤ, pos, Float, finite, Value, int, str, dict, float, bool, list, Items, nil, cons, Fields, empty,
  entry, lookup, get, eq_int,
}
use fall2026_18749_project.Result.{Exn, Result, ok, err, eof_error, timeout_error}
use fall2026_18749_project.Protocol.{
  MessageType, client_request, heartbeat_ack, heartbeat, register, membership,
}
use fall2026_18749_project.Protocol.WellFormed.{IsRequest, IsReply, IsReport, IsBeat, IsValid}
use fall2026_18749_project.Protocol.Validate.{request_id_of}
use fall2026_18749_project.Protocol.Build.{header, identity_fields, request_fields, report_fields}
use fall2026_18749_project.Protocol.Built.{
  request_fields-IsRequest, report_fields-IsReport, request_id_not_blank,
}
use fall2026_18749_project.Server.{Listener, start}
use fall2026_18749_project.Server.Cases.{IsConsistent}

-- The requests of one client to the replica S1.
abbrev pub increment : ℕ → Fields
increment n = request_fields "C1" "S1" (pos (suc n))

pub increment-IsRequest : (n : ℕ) → IsRequest (increment n) "C1" "S1" "increment" n
unfolding is_blank
increment-IsRequest n = request_fields-IsRequest {c = "C1"} {r = "S1"} refl refl n

-- A request of that client that no replica knows how to carry out.
abbrev pub reset : ℕ → Fields
reset n = header client_request (str "C1") (str "S1") (
    identity_fields (str "C1") (str "S1") (int (pos (suc n)))
      (str (request_id_of "C1" (pos (suc n)))) (entry "operation" (str "reset") empty))

pub reset-IsRequest : (n : ℕ) → IsRequest (reset n) "C1" "S1" "reset" n
unfolding is_blank lookup get eq_int
reset-IsRequest n = record {
  payload = _;
  envelope = record {
    version = refl;
    type = refl;
    source_text = record { held = refl; not_blank = refl };
    destination_text = record { held = refl; not_blank = refl };
    payload_held = refl;
  };
  identity = record {
    client_text = record { held = refl; not_blank = refl };
    replica_text = record { held = refl; not_blank = refl };
    number_held = refl;
    id_text = record { held = refl; not_blank = request_id_not_blank "C1" (pos (suc n)) refl };
  };
  operation_text = record { held = refl; not_blank = refl };
}

abbrev pub replica : Listener
replica = start "S1" (("C1", 0) ∷ ("C2", 0) ∷ [])

pub replica-IsConsistent : IsConsistent replica
unfolding is_blank find
replica-IsConsistent = record {
  replica_text = refl;
  stored = λ c p h. cc;
  unanswered = λ c k h known. ground arith;
}
