-- ===== src/Lfd/Rounds.antt =====
-- What one exchange with the replica changes, whatever the network answers.
use fall2026_18749_project.Prelude.{◌≡◌, arith}
use fall2026_18749_project.Lfd.{Lfd, Answers, exchange}

-- Health and its reports are left alone.
pub record Quiet (s t : Lfd) : Type 0 where
  pub healthy : t.healthy ≡ s.healthy
  pub ever_healthy : t.ever_healthy ≡ s.ever_healthy
  pub reports : t.reports ≡ s.reports
  pub backoff : t.backoff ≡ s.backoff
  pub has_callback : t.has_callback ≡ s.has_callback

pub exchange-Quiet : (a : Answers) (s : Lfd) → Quiet s (exchange a s).1
unfolding exchange
exchange-Quiet a s = ground arith
