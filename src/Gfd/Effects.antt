-- ===== src/Gfd/Effects.antt =====
-- What one stretch of a handler can do to the sessions and to the members.
use fall2026_18749_project.Gfd.{
  Gfd, update, Phase, awaiting, resting, leave, report_failure, clean_up,
}
use fall2026_18749_project.Prelude.{
  ℕ, ◌∙◌, String, ◌≡◌, refl, ap, Bool, false, Option, none, some, List, find, put, remove, ◌==◌,
  arith, if◌then◌else◌, nat_eq_refl,
}
use fall2026_18749_project.Result.{Exn}
use fall2026_18749_project.Gfd.Members.{has}
use fall2026_18749_project.Gfd.Updates.{update-Updated}

-- The detector that a connection has registered.
abbrev pub detector : Phase → Option String
detector (awaiting l n) = some l
detector (resting l n) = some l
detector _ = none

abbrev pub Member : Gfd → Gfd → String → Bool → Type 0
Member s t r h = (j : String) → has t.members j ≡ (if r == j then h else has s.members j)

pub data Effect (w : ℕ) (s : Gfd) (p : Phase) (p' : Phase) (t : Gfd) : Type 0 where
  stayed :
      (l r : String) (h : Bool)
      → detector p ≡ some l
      → detector p' ≡ some l
      → find s.lfd_servers l ≡ some r
      → t.sessions ≡ s.sessions
      → t.lfd_servers ≡ s.lfd_servers
      → Member s t r h
      → Effect w s p p' t
  entered :
      (l r : String) (h : Bool)
      → detector p ≡ none
      → detector p' ≡ some l
      → find s.sessions l ≡ none
      → find s.lfd_servers l ≡ some r
      → t.sessions ≡ put s.sessions l w
      → t.lfd_servers ≡ s.lfd_servers
      → Member s t r h
      → Effect w s p p' t
  left :
      (l r : String)
      → detector p ≡ some l
      → detector p' ≡ none
      → find s.lfd_servers l ≡ some r
      → t.sessions ≡ remove s.sessions l
      → t.lfd_servers ≡ s.lfd_servers
      → Member s t r false
      → Effect w s p p' t
  idle :
      detector p ≡ none
      → detector p' ≡ none
      → t.sessions ≡ s.sessions
      → t.lfd_servers ≡ s.lfd_servers
      → t.members ≡ s.members
      → Effect w s p p' t

-- The sessions, servers and members are those of `s`: only the log and the outbox differ.
pub record Alike (s t : Gfd) : Type 0 where
  pub servers : t.lfd_servers ≡ s.lfd_servers
  pub sessions : t.sessions ≡ s.sessions
  pub members : t.members ≡ s.members

pub report_failure-Alike :
    (o : Option String) (e : Exn) (s : Gfd) → Alike s (report_failure o e s).1
unfolding report_failure
report_failure-Alike none e s = record {
  servers = ground arith;
  sessions = ground arith;
  members = ground arith;
}
report_failure-Alike (some l) e s = record {
  servers = ground arith;
  sessions = ground arith;
  members = ground arith;
}

-- A way out before the registration.
pub leave-none :
    (w : ℕ) (p : Phase) (e : Exn) (s : Gfd)
    → detector p ≡ none
    → Effect w s p (leave w none e s).0 (leave w none e s).1
unfolding leave clean_up
leave-none w p e s h =
    let a = report_failure-Alike none e s in idle h refl a.sessions a.servers a.members

pub clean_up_own :
    (w : ℕ) (l : String) (s : Gfd)
    → find s.sessions l ≡ some w
    → (clean_up w (some l) s).1 ≡ (update l false (record s { sessions = remove s.sessions l })).1
unfolding clean_up
clean_up_own w l s mine = rw (mine, nat_eq_refl w)

module _ (w : ℕ) (l r : String) where
  -- A way out after the registration, from a state that differs from `s` as a stretch may.
  pub leave-some :
      (s g : Gfd) (p : Phase) (h : Bool) (e : Exn)
      → find s.lfd_servers l ≡ some r
      → find s.sessions l ≡ some w
      → detector p ≡ some l
      → g.sessions ≡ s.sessions
      → g.lfd_servers ≡ s.lfd_servers
      → Member s g r h
      → Effect w s p (leave w (some l) e g).0 (leave w (some l) e g).1
  unfolding leave
  leave-some s g p h e known mine own same_sessions same_servers members =
      let a = report_failure-Alike (some l) e g in
      let f = (report_failure (some l) e g).1 in
      let mine' : find f.sessions l ≡ some w = rw (a.sessions, same_sessions) mine in
      let known' : find f.lfd_servers l ≡ some r = rw (a.servers, same_servers) known in
      let u = update-Updated l r false (record f { sessions = remove f.sessions l }) known' in
      let c = clean_up_own w l f mine' in
      left l r own refl known (rw c (u.same_sessions ∙ rw (a.sessions, same_sessions) refl))
        (rw c (u.same_servers ∙ a.servers ∙ same_servers))
        (λ j.
          rw c (ground (arith, u.member j, ap (λ (x : List String). has x j) a.members, members j)))
