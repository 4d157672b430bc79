-- ===== src/Gfd/Shutdown.antt =====
-- `start` of src/ft_system/gfd/app.py, and the part of `close` that cancels the handlers, which raises
-- CancelledError at the places where they wait, and waits for all of them.
use fall2026_18749_project.Prelude.{
  ℕ, String, ◌≡◌, refl, Bool, true, false, Option, none, some, List, [], ◌∷◌, ◌++◌, Table, find,
  any, arith, nat_eq, Bool-cases, Option-cases, inl, inr,
}
use fall2026_18749_project.Text.{is_blank}
use fall2026_18749_project.Result.{Result, cancelled}
use fall2026_18749_project.Exec.{Exec, lift, modify, ◌>>=◌, ◌>>◌}
use fall2026_18749_project.Logger
use fall2026_18749_project.Gfd.{
  Gfd, Phase, absent, opened, closed, awaiting, resting, Input, failed, handle, leave, is_timeout,
}
use fall2026_18749_project.Gfd.Members.{has, sorted}
use fall2026_18749_project.Gfd.Effects.{detector}
use fall2026_18749_project.Gfd.Invariant.{Reach-Inv}
use fall2026_18749_project.Gfd.System.{System, set_phase, input, Reach, later}

-- `listener` is the port of `_server`, `tasks` the connections of the handlers in `_tasks`.
pub record GfdApp : Type 0 where
  pub listener : Option ℕ
  pub tasks : List ℕ
  pub system : System

abbrev note : Logger.Line → System → System
note l s = record s { gfd = record s.gfd { log = s.gfd.log ++ l ∷ [] } }

-- `start`; `bound` is what `asyncio.start_server` answers.
unfoldable pub start : Result ℕ → Exec GfdApp (Unit {0})
start bound = do
  p ← lift bound
  modify (λ s. record s { listener = some p })
  modify
      (λ s. record s { system = note (Logger.membership (sorted s.system.gfd.members)) s.system })

-- One stretch of the handler of the connection `w`.
unfoldable pub deliver : ℕ → Input → System → System
deliver w i s = record {
  gfd = (handle w (s.phase w) i s.gfd).1;
  phase = set_phase s.phase w (handle w (s.phase w) i s.gfd).0;
}

unfoldable pub cancel_all : List ℕ → System → System
unfolding deliver
cancel_all [] s = s
cancel_all (w ∷ ws) s = cancel_all ws (deliver w (failed cancelled) s)

-- The handlers in `_tasks` are cancelled, and have ended.
unfoldable pub cancel_handlers : GfdApp → GfdApp
unfolding cancel_all
cancel_handlers s = record s { tasks = []; system = cancel_all s.tasks s.system }

abbrev pub is_running : Phase → Bool
is_running opened = true
is_running (awaiting l n) = true
is_running (resting l n) = true
is_running _ = false

cancelled-is_running :
    (w : ℕ) (p : Phase) (s : Gfd) → is_running (handle w p (failed cancelled) s).0 ≡ false
unfolding handle leave is_timeout
cancelled-is_running w absent s = refl
cancelled-is_running w closed s = refl
cancelled-is_running w opened s = refl
cancelled-is_running w (awaiting l n) s = refl
cancelled-is_running w (resting l n) s = refl

cancel_all-Reach :
    {t : Table String} (ws : List ℕ) (s : System) → Reach t s → Reach t (cancel_all ws s)
unfolding cancel_all deliver
cancel_all-Reach [] s r = r
cancel_all-Reach (w ∷ ws) s r =
    cancel_all-Reach ws (deliver w (failed cancelled) s) (later r (input w (failed cancelled)))

-- The handlers of the connections `ws` are all that run.
abbrev pub Covers : List ℕ → System → Type 0
Covers ws s = (v : ℕ) → is_running (s.phase v) ≡ true → any (λ w. nat_eq v w) ws ≡ true

deliver-Covers :
    (w : ℕ) (ws : List ℕ) (s : System)
    → Covers (w ∷ ws) s
    → Covers ws (deliver w (failed cancelled) s)
unfolding deliver any
deliver-Covers w ws s all v h =
    let ended = cancelled-is_running w (s.phase w) s.gfd in ground (arith, ended, all v)

none_running :
    (ws : List ℕ) (s : System)
    → Covers ws s
    → (v : ℕ) → is_running ((cancel_all ws s).phase v) ≡ false
unfolding cancel_all any
none_running [] s all v = ground (arith, all v)
none_running (w ∷ ws) s all v =
    none_running ws (deliver w (failed cancelled) s) (deliver-Covers w ws s all) v

detector-is_running : (p : Phase) (l : String) → detector p ≡ some l → is_running p ≡ true
detector-is_running absent l h = cc
detector-is_running closed l h = cc
detector-is_running opened l h = cc
detector-is_running (awaiting l n) k h = refl
detector-is_running (resting l n) k h = refl

module _ (lfd_servers : Table String)
    (names : (l r : String) → find lfd_servers l ≡ some r → is_blank l ≡ false) (app : GfdApp)
    (reached : Reach lfd_servers app.system) (all : Covers app.tasks app.system) where
  no_session : (l : String) → find (cancel_all app.tasks app.system).gfd.sessions l ≡ none
  no_session l =
      let after = cancel_all app.tasks app.system in
      let inv = Reach-Inv names (cancel_all-Reach app.tasks app.system reached) in
      elim (Option-cases (find after.gfd.sessions l)) [
        | inl e ↦ e
        | inr (w, e) ↦
            let running = detector-is_running (after.phase w) l (inv.owned l w e) in
            absurd
              (let h = none_running app.tasks app.system all w in let h = rw running at h in cc)
      ]

  pub cancel_handlers_empties :
      ((j : String) → has (cancel_handlers app).system.gfd.members j ≡ false)
      × ((l : String) → find (cancel_handlers app).system.gfd.sessions l ≡ none)
      × ((v : ℕ) → is_running ((cancel_handlers app).system.phase v) ≡ false)
  unfolding cancel_handlers
  cancel_handlers_empties =
      let after = cancel_all app.tasks app.system in
      let inv = Reach-Inv names (cancel_all-Reach app.tasks app.system reached) in
      (
        λ j. elim (Bool-cases (has after.gfd.members j)) [
          | inl e ↦
              let (l, w, session, known) = inv.watched j e in
              absurd (let h = no_session l in let h = rw session at h in cc)
          | inr e ↦ e
        ],
        no_session,
        none_running app.tasks app.system all,
      )
