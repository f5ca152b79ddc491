-- ===== src/ProcessMgr/Manager/Laws.antt =====
-- The process manager (process_manager.go) over any sequence of calls, launches and exits.
use zmux_server.Base.{
  ℕ, ◌≡◌, inl, inr, ap, sym, ◌∙◌, subst, true, List, [], ◌∷◌, none, some, ltb, nat_eq, lookup,
  is_some, Bool-cases, Option-cases,
}
use zmux_server.ProcessMgr.LogManager.{LogManager}
use zmux_server.ProcessMgr.PidAllocator.Laws.{used}
use zmux_server.ProcessMgr.Heap.{Heap}
use zmux_server.ProcessMgr.Scheduler.{next, pop}
use zmux_server.ProcessMgr.Scheduler.Laws.{due_at}
use zmux_server.ProcessMgr.Tables.{Spec, Tables, Launch, or_spec, launch_spec}
use zmux_server.ProcessMgr.Tables.Status.{Status, idle, waiting, ending, StatusAt, IsValid}
use zmux_server.ProcessMgr.Tables.Units.{add-IsValid, remove-IsValid, new_tables-IsValid}
use zmux_server.ProcessMgr.Tables.Launching.{head-Status, launch_spec-IsValid}
use zmux_server.ProcessMgr.Tables.Settle.{settle-IsValid}
use zmux_server.ProcessMgr.Manager.{
  new_process_manager, add, remove, launch, poll, poll_at, exit, exit_at, Action, adds, removes,
  polls, exits, step, continue, run,
}

module _ {H : Type 0} (hp : Heap H) where
  poll-IsValid :
      (outcome : Launch) (now : ℕ) (m : Tables H)
      → IsValid hp m
      → IsValid hp (poll hp outcome now m)
  unfolding poll launch
  poll-IsValid outcome now m v = elim (Option-cases (next hp m.sched)) [
    | inl e ↦ subst (λ o. IsValid hp (poll_at hp o outcome now m)) (sym e) v
    | inr (ev, e) ↦
        let (s, (known, _)) = head-Status hp m ev v e in
        let spec : s ≡ or_spec (lookup ev.id m.specs) = ap or_spec (sym known) in
        let launched =
          subst
            (λ x.
              IsValid hp (launch_spec hp x ev.id outcome now (record m { sched = pop hp m.sched })))
            spec (launch_spec-IsValid hp m ev v e s outcome now known) in
        subst (λ o. IsValid hp (poll_at hp o outcome now m)) (sym e)
          (elim (Bool-cases (ltb now ev.when)) [
            | inl later ↦ rw later v
            | inr due ↦ rw due launched
          ])
  ]

  exit-IsValid : (pid now : ℕ) (m : Tables H) → IsValid hp m → IsValid hp (exit hp pid now m)
  unfolding exit
  exit-IsValid pid now m v = elim (Option-cases (lookup pid m.live)) [
    | inl e ↦ subst (λ o. IsValid hp (exit_at hp o pid now m)) (sym e) v
    | inr (spec, e) ↦
        subst (λ o. IsValid hp (exit_at hp o pid now m)) (sym e)
          (settle-IsValid hp pid spec.cooldown now spec m v e)
  ]

  pub step-IsValid :
      (a : Action) (m m' : Tables H) → IsValid hp m → step hp a m ≡ some m' → IsValid hp m'
  unfolding step add remove
  step-IsValid (adds uid argv cooldown now) m m' v h =
      add-IsValid hp (record { unit_id = uid; argv = argv; cooldown = cooldown }) now m m' v h
  step-IsValid (removes uid) m m' v h = subst (IsValid hp) (cc h) (remove-IsValid hp uid m v)
  step-IsValid (polls outcome now) m m' v h =
      subst (IsValid hp) (cc h) (poll-IsValid outcome now m v)
  step-IsValid (exits pid now) m m' v h = subst (IsValid hp) (cc h) (exit-IsValid pid now m v)

  run-IsValid :
      (actions : List Action) (m m' : Tables H)
      → IsValid hp m
      → run hp actions m ≡ some m'
      → IsValid hp m'
  unfolding run
  run-IsValid [] m m' v h = subst (IsValid hp) (cc h) v
  run-IsValid (a ∷ rest) m m' v h = elim (Option-cases (step hp a m)) [
    | inl e ↦ absurd (cc (h, ap (λ o. continue hp o (λ t. run hp rest t)) e))
    | inr (t, e) ↦
        run-IsValid rest t m' (step-IsValid a m t v e)
          (sym (ap (λ o. continue hp o (λ t. run hp rest t)) e) ∙ h)
  ]

  -- What a manager does from the start on keeps its tables in agreement.
  pub run-new-IsValid :
      (logs : LogManager) (actions : List Action) (m : Tables H)
      → run hp actions (new_process_manager hp logs) ≡ some m
      → IsValid hp m
  unfolding new_process_manager
  run-new-IsValid logs actions m h = run-IsValid actions _ m (new_tables-IsValid hp logs) h

  -- A PID of a unit, which is due or has a goroutine of its own.
  pub data IsServed (m : Tables H) (u p : ℕ) : Type 0 where
    is_due : is_some (due_at m.sched p) ≡ true → lookup p m.live ≡ none → IsServed m u p
    is_live : (s : Spec) → lookup p m.live ≡ some s → s.unit_id ≡ u → IsServed m u p

  served_lem :
      (m : Tables H) (u p : ℕ) (s : Spec)
      → lookup p m.specs ≡ some s
      → s.unit_id ≡ u
      → StatusAt m p
      → (used m.gen p ≡ true) × IsServed m u p
  served_lem m u p s e unit (idle x y z w) = absurd (cc (e, x))
  served_lem m u p s e unit (waiting t x y z f w) = (f, is_due y z)
  served_lem m u p s e unit (Status.running t x y z f w) =
      let same : s ≡ t = cc (e, x) in (f, is_live t z (ap (λ k. k.unit_id) (sym same) ∙ unit))
  served_lem m u p s e unit (ending t x y z f w) = absurd (cc (e, x))

  -- After any calls, rounds of the main loop and exits of processes, in any order, none of which
  -- panics, a registered unit has a PID that is in use and is no other unit's, and that PID is
  -- either due to be launched with no goroutine for it, or has a goroutine that serves this unit.
  pub run-IsServed :
      (logs : LogManager) (actions : List Action) (m : Tables H) (u p : ℕ)
      → run hp actions (new_process_manager hp logs) ≡ some m
      → lookup u m.units ≡ some p
      → ((used m.gen p ≡ true) × IsServed m u p) × ((w : ℕ) → lookup w m.units ≡ some p → w ≡ u)
  run-IsServed logs actions m u p h known =
      let v = run-new-IsValid logs actions m h in
      let (s, (e, unit)) = v.unit_spec u p known in
      (
        served_lem m u p s e unit (v.status p),
        λ w known'.
            let (t, (e', unit')) = v.unit_spec w p known' in
            let same : t ≡ s = cc (e, e') in sym unit' ∙ (ap (λ k. k.unit_id) same ∙ unit),
      )
