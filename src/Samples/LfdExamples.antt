-- ===== src/Samples/LfdExamples.antt =====
-- The detector LFD1 of the replica S1 on concrete answers of the network.
use fall2026_18749_project.Prelude.{ℕ, ◌≡◌, refl, ◌⊎◌, true, false, some, [], ◌∷◌, ◌++◌}
use fall2026_18749_project.Text.{is_blank}
use fall2026_18749_project.Value.{pos, int, str, lookup, eq_str, eq_int}
use fall2026_18749_project.Result.{ok, err, timeout_error}
use fall2026_18749_project.Protocol.{heartbeat_ack}
use fall2026_18749_project.Protocol.Validate.{item}
use fall2026_18749_project.Protocol.Build.{heartbeat_fields}
use fall2026_18749_project.Protocol.Built.{build_heartbeat_lem}
use fall2026_18749_project.Lfd
use fall2026_18749_project.Lfd.{Lfd, Answers, heartbeat_once, round, run}
use fall2026_18749_project.Lfd.Health.{walk, Told, reports_follow_health}
use fall2026_18749_project.Lfd.Outcomes.{Failed, round-Failed}
use fall2026_18749_project.Lfd.Stopped.{stop_ends_run}

abbrev pub cap : ℕ → ℕ → ℕ
cap maximum initial = 3

-- The detector of that replica.
abbrev pub lfd : Lfd
lfd = record {
  lfd_id = "LFD1";
  replica_id = "S1";
  heartbeat_count = 1;
  healthy = false;
  ever_healthy = false;
  connected = false;
  backoff = record { initial = 1; maximum = 8; attempt = 0 };
  has_callback = true;
  reports = [];
  outbox = [];
  log = [];
}

abbrev pub alive : Lfd.Answers
alive = record {
  closing = false;
  connect = ok tt;
  write = ok tt;
  read = ok (heartbeat_fields heartbeat_ack (str "S1") (str "LFD1") (int (pos 1)));
  stopped = false;
  stopped_waiting = false;
}

abbrev dead : Lfd.Answers
dead = record {
  closing = false;
  connect = err timeout_error;
  write = ok tt;
  read = err timeout_error;
  stopped = false;
  stopped_waiting = false;
}

lfd-Told : Told lfd
unfolding walk
lfd-Told = record { informed = refl; reports = refl; ever = λ h. cc }

reports_follow_health_example :
    walk false (run cap (alive ∷ dead ∷ []) lfd).reports
    ≡ some (run cap (alive ∷ dead ∷ []) lfd).healthy
reports_follow_health_example = reports_follow_health cap (alive ∷ dead ∷ []) lfd lfd-Told

pub is_alive : (heartbeat_once alive lfd).0 ≡ ok tt
unfolding heartbeat_once Lfd.exchange Lfd.connect Lfd.drop_connection Lfd.write_line
    Lfd.mark_healthy Lfd.validate_ack item lookup eq_str eq_int is_blank
is_alive = rw (build_heartbeat_lem {s = "LFD1"} {d = "S1"} refl refl 0) refl

pub alive_reports : (run cap (alive ∷ []) lfd).reports ≡ true ∷ []
unfolding run round Lfd.goes_on Lfd.after_heartbeat heartbeat_once Lfd.exchange Lfd.connect
    Lfd.drop_connection Lfd.write_line Lfd.mark_healthy Lfd.validate_ack Lfd.end_of item lookup
    eq_str eq_int is_blank
alive_reports = rw (build_heartbeat_lem {s = "LFD1"} {d = "S1"} refl refl 0) refl

is_dead : (heartbeat_once dead lfd).0 ≡ err timeout_error
unfolding heartbeat_once Lfd.exchange Lfd.connect Lfd.drop_connection
is_dead = refl

caught : Lfd.is_caught timeout_error ≡ true
unfolding Lfd.is_caught
caught = refl

round-Failed_example : Failed cap dead lfd (round cap dead lfd).0 (round cap dead lfd).1
round-Failed_example = round-Failed cap dead lfd timeout_error is_dead caught refl

-- A `stop` while the answer is awaited.
abbrev stopping : Answers
stopping = record alive { read = err timeout_error; stopped = true; stopped_waiting = true }

stop_ends_run_example :
    (run cap (stopping ∷ dead ∷ []) lfd ≡ run cap (stopping ∷ []) lfd)
    × ((run cap (stopping ∷ dead ∷ []) lfd).connected ≡ false)
    × (((run cap (stopping ∷ dead ∷ []) lfd).reports ≡ lfd.reports)
        ⊎ ((run cap (stopping ∷ dead ∷ []) lfd).reports ≡ lfd.reports ++ true ∷ []))
stop_ends_run_example = stop_ends_run cap stopping (dead ∷ []) lfd refl refl
