-- ===== src/Detection/Followed.antt =====
-- From the health of the replica at the detector to the membership at the GFD, with any other
-- connections.
use fall2026_18749_project.Prelude.{
  ℕ, String, ◌≡◌, ◌≢◌, refl, sym, ◌∙◌, ap, subst, Bool, true, false, Option, none, some, List,
  Table, find, arith, Bool-cases, inl, inr, nat_eq, nat_eq_refl, ◌==◌, eq_iff,
}
use fall2026_18749_project.Text.{is_blank}
use fall2026_18749_project.Value.{Fields}
use fall2026_18749_project.Gfd.{Gfd, Phase, Input, arrived, failed, deadline, handle}
use fall2026_18749_project.Gfd.Members.{has}
use fall2026_18749_project.Gfd.Stretches.{handle-Effect}
use fall2026_18749_project.Gfd.Effects.{detector, Member, Effect, stayed, entered, left, idle}
use fall2026_18749_project.Gfd.System.{System, connect, input, Reach, later}
use fall2026_18749_project.Gfd.Invariant.{Reach-Inv, own_session}
use fall2026_18749_project.Gfd.Safety.{same_table}
use fall2026_18749_project.Gfd.Shutdown.{deliver}
use fall2026_18749_project.Reporter.{Event, make, run}
use fall2026_18749_project.Reporter.Current.{is_open, run-IsCurrent}
use fall2026_18749_project.Detection.{Reads, accepts, reads, fails, expires, joins, others}
use fall2026_18749_project.Detection.Received.{Position, at_start}
use fall2026_18749_project.Detection.Stretches.{
  is_registered, sent_report, make-IsCurrent, read-Position, expire-Position, fail-Position,
  other-Position, read_report,
}

another_connection : (v w : ℕ) → nat_eq v w ≡ false → some v ≢ some w
another_connection v w other e = let same : v ≡ w = cc in ground (arith, other, same)

pub Reads-Reach :
    {t : Table String} {w : ℕ} {l r : String}
    → (ms : List Fields) (s : System) → Reads t w l r ms s
    → Reach t s
unfolding deliver
Reads-Reach _ _ (accepts s reached fresh) = later reached (connect _ fresh)
Reads-Reach _ _ (reads ms m s sent q) = later (Reads-Reach ms s q) (input _ (arrived m))
Reads-Reach _ _ (fails ms e s q) = later (Reads-Reach ms s q) (input _ (failed e))
Reads-Reach _ _ (expires ms s q) = later (Reads-Reach ms s q) (input _ deadline)
Reads-Reach _ _ (joins ms v s other fresh q) = later (Reads-Reach ms s q) (connect v fresh)
Reads-Reach _ _ (others ms v i s other q) = later (Reads-Reach ms s q) (input v i)

module _ (t : Table String) (names : (k j : String) → find t k ≡ some j → is_blank k ≡ false)
    (w : ℕ) (l r : String) (known : find t l ≡ some r)
    (only : (k : String) → find t k ≡ some r → k ≡ l) where
  module _ (s : System) (reached : Reach t s) (mine : detector (s.phase w) ≡ some l) where
    -- A detector whose session is not on `w` watches another replica.
    another_replica :
        (k j : String) (o : Option ℕ)
        → find s.gfd.lfd_servers k ≡ some j
        → find s.gfd.sessions k ≡ o
        → o ≢ some w
        → (j == r) ≡ false
    another_replica k j o watches session ne = elim (Bool-cases (j == r)) [
      | inl same ↦
          let in_table = rw (same_table names reached) at watches in
          let is = only k (in_table ∙ ap some ((eq_iff j r).0 same)) in
          let listed = (Reach-Inv names reached).listed l w mine in
          absurd (
            ne (
              sym session ∙ subst (λ (x : String). find s.gfd.sessions x ≡ some w) (sym is) listed))
      | inr other ↦ other
    ]

    same_membership :
        (g : Gfd) (k j : String) (h : Bool) (o : Option ℕ)
        → Member s.gfd g j h
        → find s.gfd.lfd_servers k ≡ some j
        → find s.gfd.sessions k ≡ o
        → o ≢ some w
        → has g.members r ≡ has s.gfd.members r
    same_membership g k j h o members watches session ne =
        let other = another_replica k j o watches session ne in let h = members r in rw other at h

    -- What happens on another connection leaves the replica alone.
    Effect-members :
        (v : ℕ) (p : Phase) (g : Gfd)
        → nat_eq v w ≡ false
        → Effect v s.gfd (s.phase v) p g
        → has g.members r ≡ has s.gfd.members r
    Effect-members v p g other (stayed k j h own own' watches e f members) =
        same_membership g k j h (some v) members watches ((Reach-Inv names reached).listed k v own)
          (λ e. another_connection v w other e)
    Effect-members v p g other (entered k j h a b free watches e f members) =
        same_membership g k j h none members watches free (λ e. cc)
    Effect-members v p g other (left k j own a watches e f members) =
        same_membership g k j false (some v) members watches
          ((Reach-Inv names reached).listed k v own) (λ e. another_connection v w other e)
    Effect-members v p g other (idle a b c d same) = ap (λ (x : List String). has x r) same

  others-Position :
      (ms : List Fields) (v : ℕ) (i : Input) (s : System)
      → Reach t s
      → nat_eq v w ≡ false
      → Position l r ms s.gfd (s.phase w)
      → Position l r ms (deliver v i s).gfd ((deliver v i s).phase w)
  unfolding deliver
  others-Position ms v i s reached other q =
      let inv = Reach-Inv names reached in
      let effect = handle-Effect v s.gfd inv.names (s.phase v) i (own_session s v inv) in
      let after = same_table names (later reached (input v i)) in
      rw other (
        other-Position w l r (names l r known) ms (s.phase w) s.gfd (handle v (s.phase v) i s.gfd).1
          (after ∙ sym (same_table names reached))
          (λ mine. Effect-members s reached mine v _ _ other effect) q)

  pub Reads-Position :
      (ms : List Fields) (s : System) → Reads t w l r ms s → Position l r ms s.gfd (s.phase w)
  unfolding deliver
  Reads-Position _ _ (accepts s reached fresh) =
      rw (nat_eq_refl w) (at_start refl (rw (same_table names reached) known))
  Reads-Position _ _ (reads ms m s sent q) =
      rw (nat_eq_refl w)
        (read-Position w l r (names l r known) ms m (s.phase w) s.gfd sent (Reads-Position ms s q))
  Reads-Position _ _ (fails ms e s q) =
      rw (nat_eq_refl w)
        (fail-Position w l r (names l r known) ms e (s.phase w) s.gfd (Reads-Position ms s q))
  Reads-Position _ _ (expires ms s q) =
      rw (nat_eq_refl w)
        (expire-Position w l r (names l r known) ms (s.phase w) s.gfd (Reads-Position ms s q))
  Reads-Position _ _ (joins ms v s other fresh q) = rw other (Reads-Position ms s q)
  Reads-Position _ _ (others ms v i s other q) =
      others-Position ms v i s (Reads-Reach ms s q) other (Reads-Position ms s q)

  pub member_follows_health :
      (es : List Event) (s : System)
      → is_open (run es (make l r)).session ≡ true
      → (run es (make l r)).changed ≡ false
      → Reads t w l r (run es (make l r)).outbox s
      → is_registered (s.phase w) ≡ true
      → has s.gfd.members r ≡ (run es (make l r)).healthy
  member_follows_health es s open_now still q registered =
      let named = names l r known in
      let told =
        sent_report (run es (make l r)) (run-IsCurrent es (make l r) (make-IsCurrent l r)) open_now
          still in
      let read =
        read_report w l r named (run es (make l r)).outbox s.gfd (s.phase w)
          (Reads-Position (run es (make l r)).outbox s q) registered in
      let same : some (has s.gfd.members r) ≡ some (run es (make l r)).healthy = sym read ∙ told in
      cc
