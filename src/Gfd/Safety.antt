-- ===== src/Gfd/Safety.antt =====
-- What holds of the GFD after any interleaving of its connections.
use fall2026_18749_project.Prelude.{ℕ, ◌∙◌, String, ◌≡◌, refl, sym, true, false, some, Table, find}
use fall2026_18749_project.Text.{is_blank}
use fall2026_18749_project.Gfd.Members.{has}
use fall2026_18749_project.Gfd.Effects.{detector, Effect, stayed, entered, left, idle}
use fall2026_18749_project.Gfd.Invariant.{Reach-Inv, own_session}
use fall2026_18749_project.Gfd.System.{System, connect, input, Reach, start, later}
use fall2026_18749_project.Gfd.{Gfd, Phase}
use fall2026_18749_project.Gfd.Stretches.{handle-Effect}

some_inj : {a b : ℕ} → some a ≡ some b → a ≡ b
some_inj e = cc

module _ {lfd_servers : Table String} {s : System}
    (names : (l r : String) → find lfd_servers l ≡ some r → is_blank l ≡ false)
    (reached : Reach lfd_servers s) where
  -- In every state that connections, messages, failures and deadlines can lead to in any order,
  -- every member is the configured replica of a detector that some connection has registered, if no
  -- configured detector has a blank name.
  pub member_watched :
      (j : String)
      → has s.gfd.members j ≡ true
      → (l : String) × (w : ℕ) × (detector (s.phase w) ≡ some l)
        × (find s.gfd.lfd_servers l ≡ some j)
  member_watched j m =
      let inv = Reach-Inv names reached in
      let (l, w, session, known) = inv.watched j m in (l, w, inv.owned l w session, known)

  -- In every state that connections, messages, failures and deadlines can lead to in any order, no
  -- two connections have registered the same detector, if no configured detector has a blank name.
  pub one_session :
      (l : String) (v w : ℕ) → detector (s.phase v) ≡ some l → detector (s.phase w) ≡ some l → v ≡ w
  one_session l v w mine other =
      let inv = Reach-Inv names reached in
      some_inj (sym (inv.listed l v mine) ∙ inv.listed l w other)

Effect-servers :
    {w : ℕ} {s t : Gfd} {p q : Phase} → Effect w s p q t → t.lfd_servers ≡ s.lfd_servers
Effect-servers (stayed l r h a b c d e f) = e
Effect-servers (entered l r h a b c d e f g) = f
Effect-servers (left l r a b c d e f) = e
Effect-servers (idle a b c d e) = d

-- The table of the configured detectors stays.
pub same_table :
    {lfd_servers : Table String} {s : System}
    → ((l r : String) → find lfd_servers l ≡ some r → is_blank l ≡ false)
    → Reach lfd_servers s
    → s.gfd.lfd_servers ≡ lfd_servers
same_table names (start log) = refl
same_table names (later r (connect w fresh)) = same_table names r
same_table names (later {s} r (input w i)) =
    let inv = Reach-Inv names r in
    Effect-servers (handle-Effect w s.gfd inv.names (s.phase w) i (own_session s w inv))
    ∙ same_table names r
