-- ===== src/Gfd/Updates.antt =====
-- What `_update` does to the members and to the rest of the state.
use fall2026_18749_project.Prelude.{
  String, ◌≡◌, Bool, some, List, find, ◌==◌, arith, eq_iff, if◌then◌else◌,
}
use fall2026_18749_project.Result.{ok}
use fall2026_18749_project.Gfd.{Gfd, update}
use fall2026_18749_project.Gfd.Checks.{at}
use fall2026_18749_project.Gfd.Members.{has, has-add, has-discard}

pub record Updated (s t : Gfd) (replica : String) (healthy : Bool) : Type 0 where
  pub same_servers : t.lfd_servers ≡ s.lfd_servers
  pub same_sessions : t.sessions ≡ s.sessions
  pub same_outbox : t.outbox ≡ s.outbox
  pub member : (j : String) → has t.members j ≡ (if replica == j then healthy else has s.members j)

pub unchanged_member :
    (xs : List String) (r j : String) (h : Bool)
    → has xs r ≡ h
    → has xs j ≡ (if r == j then h else has xs j)
unchanged_member xs r j h e = ground (arith, eq_iff r j)

module _ (l r : String) (h : Bool) (s : Gfd) (known : find s.lfd_servers l ≡ some r) where
  pub update_ok : (update l h s).0 ≡ ok tt
  unfolding update at
  update_ok = ground arith

  pub update-Updated : Updated s (update l h s).1 r h
  unfolding update at
  update-Updated = record {
    same_servers = ground arith;
    same_sessions = ground arith;
    same_outbox = ground arith;
    member = λ j. ground (arith, eq_iff r j, has-add s.members r j, has-discard s.members r j);
  }
