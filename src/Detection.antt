-- ===== src/Detection.antt =====
-- A detector's reporter, src/ft_system/lfd/reporter.py, and the GFD, src/ft_system/gfd/app.py: what the
-- handler of the reporter's connection makes of the messages on it, while the GFD serves others.
pub mod Received
pub mod Stretches
pub mod Followed
pub mod Watched
use fall2026_18749_project.Prelude.{ℕ, String, ◌≡◌, false, List, [], ◌∷◌, ◌++◌, Bool, Table, nat_eq}
use fall2026_18749_project.Value.{Fields}
use fall2026_18749_project.Result.{Exn}
use fall2026_18749_project.Protocol.{register, membership, heartbeat_ack}
use fall2026_18749_project.Protocol.WellFormed.{IsReport, IsBeat}
use fall2026_18749_project.Gfd.{absent, opened, Input, arrived, failed, deadline}
use fall2026_18749_project.Gfd.System.{System, set_phase, Reach}
use fall2026_18749_project.Gfd.Shutdown.{deliver}

-- What a reporter for the detector `l` and the replica `r` sends.
pub data IsSent (l r : String) (m : Fields) : Type 0 where
  registration : (h : Bool) → IsReport register m l r h → IsSent l r m
  report : (h : Bool) → IsReport membership m l r h → IsSent l r m
  answer : (n : ℕ) → IsBeat heartbeat_ack m l "GFD" n → IsSent l r m

-- The GFD can get here from its start while it has read these messages on connection `w`: it accepts
-- that connection, reads the next message, a read fails, or a deadline passes; and in between it
-- accepts other connections, and anything happens on them.
pub data Reads (lfd_servers : Table String) (w : ℕ) (l r : String)
    : List Fields → System → Type 0 where
  accepts :
      (s : System)
      → Reach lfd_servers s
      → s.phase w ≡ absent
      → Reads lfd_servers w l r [] (record s { phase = set_phase s.phase w opened })
  reads :
      (ms : List Fields) (m : Fields) (s : System)
      → IsSent l r m
      → Reads lfd_servers w l r ms s
      → Reads lfd_servers w l r (ms ++ m ∷ []) (deliver w (arrived m) s)
  fails :
      (ms : List Fields) (e : Exn) (s : System)
      → Reads lfd_servers w l r ms s
      → Reads lfd_servers w l r ms (deliver w (failed e) s)
  expires :
      (ms : List Fields) (s : System)
      → Reads lfd_servers w l r ms s
      → Reads lfd_servers w l r ms (deliver w deadline s)
  joins :
      (ms : List Fields) (v : ℕ) (s : System)
      → nat_eq v w ≡ false
      → s.phase v ≡ absent
      → Reads lfd_servers w l r ms s
      → Reads lfd_servers w l r ms (record s { phase = set_phase s.phase v opened })
  others :
      (ms : List Fields) (v : ℕ) (i : Input) (s : System)
      → nat_eq v w ≡ false
      → Reads lfd_servers w l r ms s
      → Reads lfd_servers w l r ms (deliver v i s)
