-- ===== src/Samples/GfdExamples.antt =====
-- The handler of src/ft_system/gfd/app.py on the messages of one detector.
use fall2026_18749_project.Prelude.{
  ℕ, String, ◌≡◌, refl, ap, subst, ◌==◌, Bool-cases, inl, inr, true, false, none, some, [], ◌∷◌,
  Table, find, eq_iff,
}
use fall2026_18749_project.Text.{is_blank}
use fall2026_18749_project.Value.{Fields}
use fall2026_18749_project.Result.{eof_error}
use fall2026_18749_project.Protocol.{register, membership}
use fall2026_18749_project.Protocol.WellFormed.{IsReport}
use fall2026_18749_project.Protocol.Build.{report_fields}
use fall2026_18749_project.Protocol.Built.{report_fields-IsReport}
use fall2026_18749_project.Gfd.{
  Gfd, update, Phase, absent, opened, closed, awaiting, resting, arrived, failed, is_timeout,
  handle,
}
use fall2026_18749_project.Gfd.Members.{has}
use fall2026_18749_project.Gfd.Effects.{detector}
use fall2026_18749_project.Gfd.Stretches.{beat_sent}
use fall2026_18749_project.Gfd.System.{
  System, connect, input, Reach, start, later, initial, set_phase,
}
use fall2026_18749_project.Gfd.Safety.{member_watched, one_session}
use fall2026_18749_project.Gfd.Reports.{
  session_opened, registration, membership_event, connection_lost,
}

abbrev pub detectors : Table String
detectors = ("LFD1", "S1") ∷ []

abbrev gfd : Gfd
gfd = (initial detectors).gfd

known : find detectors "LFD1" ≡ some "S1"
unfolding find
known = refl

free : find gfd.sessions "LFD1" ≡ none
unfolding find
free = refl

pub detectors_named : (l r : String) → find detectors l ≡ some r → is_blank l ≡ false
unfolding find is_blank
detectors_named l r h = elim (Bool-cases ("LFD1" == l)) [
  | inl same ↦ subst (λ (x : String). is_blank x ≡ false) ((eq_iff "LFD1" l).0 same) refl
  | inr other ↦ absurd (let h = rw other at h in cc)
]

-- The detector reports that its replica is healthy, at first and later on.
abbrev pub registers : Fields
registers = report_fields register "LFD1" "S1" true

registers-IsReport : IsReport register registers "LFD1" "S1" true
unfolding is_blank
registers-IsReport = report_fields-IsReport register {lfd = "LFD1"} {replica = "S1"} true refl refl

abbrev reports : Fields
reports = report_fields membership "LFD1" "S1" true

reports-IsReport : IsReport membership reports "LFD1" "S1" true
unfolding is_blank
reports-IsReport = report_fields-IsReport membership {lfd = "LFD1"} {replica = "S1"} true refl refl

registration_example :
    (handle 0 opened (arrived registers) gfd ≡ (
      awaiting "LFD1" 1,
      beat_sent 0 "LFD1" 0 (update "LFD1" true (session_opened 0 "LFD1" gfd)).1,
    ))
    × (find (handle 0 opened (arrived registers) gfd).1.sessions "LFD1" ≡ some 0)
    × (has (handle 0 opened (arrived registers) gfd).1.members "S1" ≡ true)
registration_example = registration 0 0 gfd known registers-IsReport free

membership_event_example :
    (handle 0 (resting "LFD1" 4) (arrived reports) gfd
      ≡ (resting "LFD1" 4, (update "LFD1" true gfd).1))
    × (handle 0 (awaiting "LFD1" 4) (arrived reports) gfd
        ≡ (awaiting "LFD1" 4, (update "LFD1" true gfd).1))
    × (has (update "LFD1" true gfd).1.members "S1" ≡ true)
membership_event_example = membership_event 0 4 gfd known reports-IsReport

-- The system once the connection 0 has registered the detector.
abbrev connected : System
connected = record (initial detectors) { phase = set_phase (λ w. absent) 0 opened }

abbrev pub registered : System
registered = record {
  gfd = (handle 0 (connected.phase 0) (arrived registers) connected.gfd).1;
  phase =
      set_phase connected.phase 0
        (handle 0 (connected.phase 0) (arrived registers) connected.gfd).0;
}

pub reached : Reach detectors registered
reached = later (later (start []) (connect 0 refl)) (input 0 (arrived registers))

pub is_member : has registered.gfd.members "S1" ≡ true
is_member = (registration 0 0 gfd known registers-IsReport free).2

is_session : detector (registered.phase 0) ≡ some "LFD1"
is_session =
    ap (λ (x : Phase × Gfd). detector x.0) (registration 0 0 gfd known registers-IsReport free).0

member_watched_example :
    (l : String) × (w : ℕ) × (detector (registered.phase w) ≡ some l)
    × (find registered.gfd.lfd_servers l ≡ some "S1")
member_watched_example = member_watched detectors_named reached "S1" is_member

one_session_example : ◌≡◌ {A = ℕ} 0 0
one_session_example = one_session detectors_named reached "LFD1" 0 0 is_session is_session

-- A state in which the connection 7 has the session of the detector.
abbrev busy : Gfd
busy = record gfd { sessions = ("LFD1", 7) ∷ []; members = "S1" ∷ [] }

busy_session : find busy.sessions "LFD1" ≡ some 7
unfolding find
busy_session = refl

eof_is_no_timeout : is_timeout eof_error ≡ false
unfolding is_timeout
eof_is_no_timeout = refl

connection_lost_example :
    ((handle 7 (resting "LFD1" 3) (failed eof_error) busy).0 ≡ closed)
    × (find (handle 7 (resting "LFD1" 3) (failed eof_error) busy).1.sessions "LFD1" ≡ none)
    × (has (handle 7 (resting "LFD1" 3) (failed eof_error) busy).1.members "S1" ≡ false)
    × (handle 7 (awaiting "LFD1" 3) (failed eof_error) busy
        ≡ handle 7 (resting "LFD1" 3) (failed eof_error) busy)
connection_lost_example =
    connection_lost 7 3 "LFD1" "S1" busy eof_error known busy_session eof_is_no_timeout
