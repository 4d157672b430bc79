-- ===== src/Samples/DetectionExamples.antt =====
-- A replica becomes healthy after its detector has registered, and the GFD reads both reports.
use fall2026_18749_project.Backoff
use fall2026_18749_project.Lfd
use fall2026_18749_project.Lfd.{Lfd}
use fall2026_18749_project.Detection.Watched.{healths, membership_follows_heartbeats}
use fall2026_18749_project.Samples.LfdExamples.{cap, lfd, alive, alive_reports}
use fall2026_18749_project.Prelude.{
  String, ◌≡◌, refl, true, false, some, none, List, [], ◌∷◌, Table, find, subst, sym, ◌==◌, eq_iff,
  Bool-cases, inl, inr,
}
use fall2026_18749_project.Text.{is_blank}
use fall2026_18749_project.Value.{Fields}
use fall2026_18749_project.Result.{ok}
use fall2026_18749_project.Protocol.{register, membership}
use fall2026_18749_project.Protocol.WellFormed.{IsReport}
use fall2026_18749_project.Protocol.Build.{report_fields}
use fall2026_18749_project.Protocol.Built.{report_fields-IsReport, build_membership_lem}
use fall2026_18749_project.Gfd.{Gfd, Phase, absent, opened, arrived, handle, update}
use fall2026_18749_project.Gfd.Members.{has}
use fall2026_18749_project.Gfd.System.{System, set_phase, initial, unconnected-Reach}
use fall2026_18749_project.Gfd.Shutdown.{deliver}
use fall2026_18749_project.Samples.GfdExamples.{detectors_named}
use fall2026_18749_project.Reporter.{
  Event, health, connected, registered, woken, make, run, step, set_health, step_in, step_closed,
  step_registering, step_running, connect, register_written, after, begin_session, report_change,
  hand_report,
}
use fall2026_18749_project.Detection.{registration, report, Reads, accepts, reads, joins}
use fall2026_18749_project.Detection.Stretches.{is_registered}
use fall2026_18749_project.Reporter.Current.{is_open}
use fall2026_18749_project.Gfd.Reports
use fall2026_18749_project.Gfd.Updates.{update-Updated}
use fall2026_18749_project.Gfd.Stretches.{beat_sent}

abbrev first : Fields
first = report_fields register "LFD1" "S1" false

abbrev second : Fields
second = report_fields membership "LFD1" "S1" true

names : (is_blank "LFD1" ≡ false) × (is_blank "S1" ≡ false)
unfolding is_blank
names = (refl, refl)

abbrev course : List Event
course = connected (ok tt) ∷ registered (ok tt) ∷ health true ∷ woken ∷ []

abbrev gfd : Gfd
gfd = (initial (("LFD1", "S1") ∷ [])).gfd

course_sent :
    ((run course (make "LFD1" "S1")).outbox ≡ first ∷ second ∷ [])
    × ((run course (make "LFD1" "S1")).changed ≡ false)
    × (is_open (run course (make "LFD1" "S1")).session ≡ true)
unfolding run step set_health step_in step_closed step_registering step_running connect
    register_written after begin_session report_change hand_report make
course_sent =
    simp
      (
        build_membership_lem "LFD1" "S1" false true names.0 names.1,
        build_membership_lem "LFD1" "S1" true false names.0 names.1,
      )
      (refl, refl, refl)

first-IsReport : IsReport register first "LFD1" "S1" false
first-IsReport =
    report_fields-IsReport register {lfd = "LFD1"} {replica = "S1"} false names.0 names.1

second-IsReport : IsReport membership second "LFD1" "S1" true
second-IsReport =
    report_fields-IsReport membership {lfd = "LFD1"} {replica = "S1"} true names.0 names.1

known : find gfd.lfd_servers "LFD1" ≡ some "S1"
unfolding find
known = refl

free : find gfd.sessions "LFD1" ≡ none
unfolding find
free = refl

abbrev after_first : Phase × Gfd
after_first = handle 0 opened (arrived first) gfd

abbrev after_second : Phase × Gfd
after_second = handle 0 after_first.0 (arrived second) after_first.1

abbrev table : Table String
table = ("LFD1", "S1") ∷ []

abbrev accepted : System
accepted = record (initial table) { phase = set_phase (initial table).phase 0 opened }

abbrev told_first : System
told_first = deliver 0 (arrived first) accepted

-- Another connection is accepted in between.
abbrev joined : System
joined = record told_first { phase = set_phase told_first.phase 1 opened }

abbrev told_second : System
told_second = deliver 0 (arrived second) joined

second_free : told_first.phase 1 ≡ absent
unfolding deliver
second_free = refl

both_read : Reads table 0 "LFD1" "S1" (first ∷ second ∷ []) told_second
both_read = reads (first ∷ []) second joined (report true second-IsReport) (
    joins (first ∷ []) 1 told_first refl second_free (
      reads [] first accepted (registration false first-IsReport)
        (accepts (initial table) (unconnected-Reach table []) refl)))

stays_registered : is_registered after_second.0 ≡ true
stays_registered =
    let (entered, mine, member) = Reports.registration 0 0 gfd known first-IsReport free in
    let t = Reports.session_opened 0 "LFD1" gfd in
    let u = update-Updated "LFD1" "S1" false t known in
    let (rest, await, member') =
      Reports.membership_event 0 1 (beat_sent 0 "LFD1" 0 (update "LFD1" false t).1)
        (rw u.same_servers known) second-IsReport in
    rw (entered, await) refl

second_registered : is_registered (told_second.phase 0) ≡ true
unfolding deliver
second_registered = stays_registered

table_only : (k : String) → find table k ≡ some "S1" → k ≡ "LFD1"
unfolding find
table_only k h = elim (Bool-cases ("LFD1" == k)) [
  | inl same ↦ sym ((eq_iff "LFD1" k).0 same)
  | inr other ↦ absurd (let h = rw other at h in cc)
]

lfd_made : Lfd.make "LFD1" "S1" 1 8 true ≡ ok lfd
unfolding Lfd.make Backoff.make
lfd_made = refl

heard : healths course ≡ (Lfd.run cap (alive ∷ []) lfd).reports
heard = sym alive_reports

membership_follows_heartbeats_example :
    has told_second.gfd.members "S1" ≡ (Lfd.run cap (alive ∷ []) lfd).healthy
membership_follows_heartbeats_example =
    membership_follows_heartbeats "LFD1" "S1" 1 8 lfd lfd_made cap (alive ∷ []) course heard table
      detectors_named known table_only 0 told_second course_sent.2 course_sent.1
      (subst (λ (ms : List Fields). Reads table 0 "LFD1" "S1" ms told_second) (sym course_sent.0)
        both_read)
      second_registered
