-- ===== src/Detection/Stretches.antt =====
-- What a stretch of the handler at the GFD makes of where it is with the messages of a detector.
use fall2026_18749_project.Prelude.{
  ℕ, suc, ◌+◌, String, ◌≡◌, refl, Bool, true, false, some, List, [], ◌∷◌, ◌++◌, find, arith,
  Bool-cases, Option-cases, inl, inr,
}
use fall2026_18749_project.Text.{is_blank}
use fall2026_18749_project.Value.{Fields}
use fall2026_18749_project.Result.{Exn}
use fall2026_18749_project.Gfd.{
  Gfd, Phase, awaiting, resting, arrived, failed, deadline, handle, leave, settle, is_timeout,
}
use fall2026_18749_project.Gfd.Members.{has}
use fall2026_18749_project.Gfd.Stretches.{send_heartbeat_lem}
use fall2026_18749_project.Gfd.Effects.{detector}
use fall2026_18749_project.Reporter.{Reporter, make}
use fall2026_18749_project.Reporter.Reports.{last_report}
use fall2026_18749_project.Reporter.Current.{
  IsCurrent, no_session, to_report, has_reported, is_open,
}
use fall2026_18749_project.Detection.{IsSent, registration, report, answer}
use fall2026_18749_project.Detection.Received.{
  Position, at_start, at_end, at_answer, at_rest, registration_taken, report_refused,
  answer_refused, registration_refused, early_answer, gone, event-Position, start-Position,
  answer-Position,
}

abbrev pub is_registered : Phase → Bool
is_registered (awaiting l n) = true
is_registered (resting l n) = true
is_registered _ = false

pub make-IsCurrent : (l r : String) → IsCurrent (make l r)
unfolding make
make-IsCurrent l r = no_session refl

-- What a reporter has told on an open connection, without a change to report.
pub sent_report :
    (t : Reporter)
    → IsCurrent t
    → is_open t.session ≡ true
    → t.changed ≡ false
    → last_report t.outbox ≡ some t.healthy
sent_report t (no_session h) open_now still = absurd (let h = rw open_now at h in cc)
sent_report t (to_report h) open_now still = absurd (let h = rw still at h in cc)
sent_report t (has_reported h) open_now still = h

add_one : (n : ℕ) → n + 1 ≡ suc n
add_one n = omega arith

module _ (w : ℕ) (l r : String) (named : is_blank l ≡ false) where
  pub read-Position :
      (ms : List Fields) (m : Fields) (p : Phase) (s : Gfd)
      → IsSent l r m
      → Position l r ms s p
      → Position l r (ms ++ m ∷ []) (handle w p (arrived m) s).1 (handle w p (arrived m) s).0
  unfolding handle
  read-Position ms m _ s (registration h q) (at_start e known) =
      elim (Option-cases (find s.sessions l)) [
        | inl free ↦ start-Position w l r named ms m h s q known free
        | inr (v, taken) ↦
            gone w l r named (ms ++ m ∷ []) _ _ (registration_taken w s v q known taken)
      ]
  read-Position ms m _ s (report h q) (at_start e known) =
      gone w l r named (ms ++ m ∷ []) _ _ (report_refused w s q)
  read-Position ms m _ s (answer k q) (at_start e known) =
      gone w l r named (ms ++ m ∷ []) _ _ (answer_refused w s q)
  read-Position ms m _ s sent at_end = at_end
  read-Position ms m _ s (registration h q) (at_answer n known is) =
      gone w l r named (ms ++ m ∷ []) _ _ (registration_refused w s n q).1
  read-Position ms m _ s (report h q) (at_answer n known is) =
      (event-Position w l r named ms m h s n q known).1
  read-Position ms m _ s (answer k q) (at_answer n known is) =
      answer-Position w l r named ms m s n k q known is
  read-Position ms m _ s (registration h q) (at_rest n known is) =
      gone w l r named (ms ++ m ∷ []) _ _ (registration_refused w s n q).0
  read-Position ms m _ s (report h q) (at_rest n known is) =
      (event-Position w l r named ms m h s n q known).0
  read-Position ms m _ s (answer k q) (at_rest n known is) =
      gone w l r named (ms ++ m ∷ []) _ _ (early_answer w s n q)

  -- The next heartbeat.
  beat-Position :
      (ms : List Fields) (s : Gfd) (n : ℕ)
      → find s.lfd_servers l ≡ some r
      → last_report ms ≡ some (has s.members r)
      → Position l r ms (handle w (resting l n) deadline s).1 (handle w (resting l n) deadline s).0
  unfolding handle settle
  beat-Position ms s n known is =
      rw (add_one n, send_heartbeat_lem w l n s named) (at_answer (suc n) known is)

  pub expire-Position :
      (ms : List Fields) (p : Phase) (s : Gfd)
      → Position l r ms s p
      → Position l r ms (handle w p deadline s).1 (handle w p deadline s).0
  unfolding handle leave
  expire-Position ms _ s (at_start e known) = at_end
  expire-Position ms _ s at_end = at_end
  expire-Position ms _ s (at_answer n known is) = at_end
  expire-Position ms _ s (at_rest n known is) = beat-Position ms s n known is

  pub fail-Position :
      (ms : List Fields) (e : Exn) (p : Phase) (s : Gfd)
      → Position l r ms s p
      → Position l r ms (handle w p (failed e) s).1 (handle w p (failed e) s).0
  unfolding handle leave
  fail-Position ms e _ s (at_start h known) = at_end
  fail-Position ms e _ s at_end = at_end
  fail-Position ms e _ s (at_answer n known is) = at_end
  fail-Position ms e _ s (at_rest n known is) = elim (Bool-cases (is_timeout e)) [
    | inl late ↦ rw late (beat-Position ms s n known is)
    | inr broken ↦ rw broken at_end
  ]

  pub other-Position :
      (ms : List Fields) (p : Phase) (s t : Gfd)
      → t.lfd_servers ≡ s.lfd_servers
      → (detector p ≡ some l → has t.members r ≡ has s.members r)
      → Position l r ms s p
      → Position l r ms t p
  other-Position ms _ s t servers members (at_start e known) = at_start e (rw servers known)
  other-Position ms _ s t servers members at_end = at_end
  other-Position ms _ s t servers members (at_answer n known is) =
      at_answer n (rw servers known) (rw (members refl) is)
  other-Position ms _ s t servers members (at_rest n known is) =
      at_rest n (rw servers known) (rw (members refl) is)

  pub read_report :
      (ms : List Fields) (s : Gfd) (p : Phase)
      → Position l r ms s p
      → is_registered p ≡ true
      → last_report ms ≡ some (has s.members r)
  read_report ms s _ (at_start e known) h = cc
  read_report ms s _ at_end h = cc
  read_report ms s _ (at_answer n known is) h = is
  read_report ms s _ (at_rest n known is) h = is
