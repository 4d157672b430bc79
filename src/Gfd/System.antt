-- ===== src/Gfd/System.antt =====
-- The GFD, src/ft_system/gfd/app.py, with any number of connections, their stretches interleaved in
-- any order, and its invariant.
use fall2026_18749_project.Prelude.{
  ℕ, String, ◌≡◌, true, false, some, List, [], Table, find, arith, if◌then◌else◌, nat_eq,
}
use fall2026_18749_project.Text.{is_blank}
use fall2026_18749_project.Logger.{Line}
use fall2026_18749_project.Gfd.{Gfd, Phase, absent, opened, Input, handle}
use fall2026_18749_project.Gfd.Members.{has}
use fall2026_18749_project.Gfd.Effects.{detector}

pub record System : Type 0 where
  pub gfd : Gfd
  pub phase : ℕ → Phase

abbrev pub set_phase : (ℕ → Phase) → ℕ → Phase → ℕ → Phase
set_phase f w p v = if nat_eq w v then p else f v

pub data Step (s : System) : System → Type 0 where
  connect : (w : ℕ) → s.phase w ≡ absent → Step s (record s { phase = set_phase s.phase w opened })
  input :
      (w : ℕ) (i : Input)
      → Step s (record {
        gfd = (handle w (s.phase w) i s.gfd).1;
        phase = set_phase s.phase w (handle w (s.phase w) i s.gfd).0;
      })

-- Before any connection, with these lines in the log.
abbrev pub unconnected : Table String → List Line → System
unconnected lfd_servers log = record {
  gfd = record { lfd_servers = lfd_servers; members = []; sessions = []; log = log; outbox = [] };
  phase = λ w. absent;
}

-- `__init__`
abbrev pub initial : Table String → System
initial lfd_servers = unconnected lfd_servers []

pub data Reach (lfd_servers : Table String) : System → Type 0 where
  start : (log : List Line) → Reach lfd_servers (unconnected lfd_servers log)
  later : {s t : System} → Reach lfd_servers s → Step s t → Reach lfd_servers t

pub unconnected-Reach :
    (lfd_servers : Table String) (log : List Line) → Reach lfd_servers (unconnected lfd_servers log)
unconnected-Reach lfd_servers log = start log

-- A registered detector watches the replica `j`.
abbrev pub Watched : System → String → Type 0
Watched s j =
    (l : String) × (w : ℕ) × (find s.gfd.sessions l ≡ some w) × (find s.gfd.lfd_servers l ≡ some j)

pub record Inv (s : System) : Type 0 where
  pub names : (l r : String) → find s.gfd.lfd_servers l ≡ some r → is_blank l ≡ false
  pub owned : (l : String) (w : ℕ) → find s.gfd.sessions l ≡ some w → detector (s.phase w) ≡ some l
  pub listed : (l : String) (w : ℕ) → detector (s.phase w) ≡ some l → find s.gfd.sessions l ≡ some w
  pub configured :
      (l : String) (w : ℕ)
      → find s.gfd.sessions l ≡ some w
      → (r : String) × (find s.gfd.lfd_servers l ≡ some r)
  pub watched : (j : String) → has s.gfd.members j ≡ true → Watched s j

pub unconnected-Inv :
    (lfd_servers : Table String) (log : List Line)
    → ((l r : String) → find lfd_servers l ≡ some r → is_blank l ≡ false)
    → Inv (unconnected lfd_servers log)
unfolding find has
unconnected-Inv lfd_servers log names = record {
  names = names;
  owned = λ l w h. cc;
  listed = λ l w h. cc;
  configured = λ l w h. cc;
  watched = λ j h. cc;
}

pub connect-Inv :
    (s : System) (w : ℕ)
    → s.phase w ≡ absent
    → Inv s
    → Inv (record s { phase = set_phase s.phase w opened })
connect-Inv s w fresh inv = record {
  names = inv.names;
  owned = λ l v h. ground (arith, inv.owned l v h);
  listed = λ l v h. inv.listed l v (ground arith);
  configured = inv.configured;
  watched = inv.watched;
}
