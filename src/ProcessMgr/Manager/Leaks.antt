-- ===== src/ProcessMgr/Manager/Leaks.antt =====
-- The PID of a unit that is removed while it waits for its launch (process_manager.go).
use zmux_server.Base.{
  ℕ, ◌≡◌, refl, ap, sym, ◌∙◌, subst, true, false, List, [], ◌∷◌, Option, none, some, ltb, nat_eq,
  nat_beq_iff, ◌==◌, lookup, delete, untouched, undeleted, deleted, is_some, Bool-cases,
  Option-cases, inl, inr,
}
use zmux_server.ProcessMgr.PidAllocator.{Alloc}
use zmux_server.ProcessMgr.PidAllocator.Laws.{used, Result, fresh, full, alloc-Result, release_lem}
use zmux_server.ProcessMgr.Heap.{Heap}
use zmux_server.ProcessMgr.Scheduler.{next, pop}
use zmux_server.ProcessMgr.Scheduler.Laws.{due_at}
use zmux_server.ProcessMgr.Tables.{
  Spec, Tables, Launch, not_made, not_started, or_spec, schedule, add_pid, add_alloc, add_at,
  remove_pid, remove_at, launch_spec, settle, settle_at,
}
use zmux_server.ProcessMgr.Tables.{add as add_unit}
use zmux_server.ProcessMgr.Tables.{remove as remove_unit}
use zmux_server.ProcessMgr.Tables.Status.{IsValid, due-Status}
use zmux_server.ProcessMgr.Tables.Units.{remove-IsValid}
use zmux_server.ProcessMgr.Tables.Launching.{head-Status}
use zmux_server.ProcessMgr.Manager.{
  add, remove, launch, poll, poll_at, exit, exit_at, Action, adds, removes, polls, exits, step,
  continue, run,
}
use zmux_server.ProcessMgr.Manager.Laws.{step-IsValid}

-- A PID in use that no unit has and no goroutine will release.
pub record IsLeaked {H : Type 0} (m : Tables H) (p : ℕ) : Type 0 where
  pub unowned : lookup p m.specs ≡ none
  pub unattended : lookup p m.live ≡ none
  pub busy : used m.gen p ≡ true

differ :
    {A : Type 0} (p q : ℕ) (f : ℕ → Option A) (a : A) → f p ≡ none → f q ≡ some a → (q == p) ≡ false
differ p q f a e h = elim (Bool-cases (q == p)) [
  | inr other ↦ other
  | inl own ↦ absurd (cc (e, h, ap f ((nat_beq_iff q p).0 own)))
]

module _ {H : Type 0} (hp : Heap H) (p : ℕ) where
  add_alloc-IsLeaked :
      {r : Alloc} (spec : Spec) (now : ℕ) (m m' : Tables H)
      → IsLeaked m p
      → Result m.gen r
      → add_alloc hp r spec now m ≡ some m'
      → IsLeaked m' p
  unfolding add_pid schedule
  add_alloc-IsLeaked spec now m m' l (fresh q gen low high unused used' ok same) h =
      let e : add_pid hp q spec now gen m ≡ m' = cc h in
      let other : (q == p) ≡ false = elim (Bool-cases (q == p)) [
        | inr other ↦ other
        | inl own ↦ absurd (cc (unused, l.busy, ap (used m.gen) ((nat_beq_iff q p).0 own)))
      ] in
      subst (λ t. IsLeaked t p) e
        (record {
          unowned = untouched q p spec m.specs other ∙ l.unowned;
          unattended = l.unattended;
          busy = rw other at (used' p) ∙ l.busy;
        })
  add_alloc-IsLeaked spec now m m' l (full all) h = absurd (cc h)

  add-IsLeaked :
      (spec : Spec) (now : ℕ) (m m' : Tables H)
      → IsValid hp m
      → IsLeaked m p
      → add_unit hp spec now m ≡ some m'
      → IsLeaked m' p
  unfolding add_unit
  add-IsLeaked spec now m m' v l h = elim (Option-cases (lookup spec.unit_id m.units)) [
    | inr (q, known) ↦
        let e : m ≡ m' = cc (h, ap (λ o. add_at hp o spec now m) known) in
        subst (λ t. IsLeaked t p) e l
    | inl new ↦
        add_alloc-IsLeaked spec now m m' l (alloc-Result m.gen v.gen_ok)
          (sym (ap (λ o. add_at hp o spec now m) new) ∙ h)
  ]

  none_deleted :
      {A : Type 0} (q : ℕ) (t : List (ℕ × A)) → lookup p t ≡ none → lookup p (delete q t) ≡ none
  none_deleted q t e = elim (Bool-cases (q == p)) [
    | inl own ↦ deleted q p t own
    | inr other ↦ undeleted q p t other ∙ e
  ]

  remove-IsLeaked : (uid : ℕ) (m : Tables H) → IsLeaked m p → IsLeaked (remove_unit hp uid m) p
  unfolding remove_unit remove_pid
  remove-IsLeaked uid m l = elim (Option-cases (lookup uid m.units)) [
    | inl e ↦ subst (λ o. IsLeaked (remove_at hp o uid m) p) (sym e) l
    | inr (q, e) ↦
        subst (λ o. IsLeaked (remove_at hp o uid m) p) (sym e)
          (record {
            unowned = none_deleted q m.specs l.unowned;
            unattended = l.unattended;
            busy = l.busy;
          })
  ]

  launch_spec-IsLeaked :
      (spec : Spec) (pid : ℕ) (outcome : Launch) (now : ℕ) (m : Tables H)
      → (pid == p) ≡ false
      → IsLeaked m p
      → IsLeaked (launch_spec hp spec pid outcome now m) p
  unfolding launch_spec schedule
  launch_spec-IsLeaked spec pid not_made now m other l = record {
    unowned = l.unowned;
    unattended = l.unattended;
    busy = l.busy;
  }
  launch_spec-IsLeaked spec pid not_started now m other l = record {
    unowned = l.unowned;
    unattended = l.unattended;
    busy = l.busy;
  }
  launch_spec-IsLeaked spec pid Launch.running now m other l = record {
    unowned = l.unowned;
    unattended = untouched pid p spec m.live other ∙ l.unattended;
    busy = l.busy;
  }

  poll-IsLeaked :
      (outcome : Launch) (now : ℕ) (m : Tables H)
      → IsValid hp m
      → IsLeaked m p
      → IsLeaked (poll hp outcome now m) p
  unfolding poll launch
  poll-IsLeaked outcome now m v l = elim (Option-cases (next hp m.sched)) [
    | inl e ↦ subst (λ o. IsLeaked (poll_at hp o outcome now m) p) (sym e) l
    | inr (ev, e) ↦
        let (s, (known, _)) = head-Status hp m ev v e in
        let other = differ p ev.id (λ k. lookup k m.specs) s l.unowned known in
        let launched =
          launch_spec-IsLeaked (or_spec (lookup ev.id m.specs)) ev.id outcome now
            (record m { sched = pop hp m.sched }) other
            (record { unowned = l.unowned; unattended = l.unattended; busy = l.busy }) in
        subst (λ o. IsLeaked (poll_at hp o outcome now m) p) (sym e)
          (elim (Bool-cases (ltb now ev.when)) [
            | inl later ↦ rw later l
            | inr due ↦ rw due launched
          ])
  ]

  settle_at-IsLeaked :
      (o : Option ℕ) (pid cooldown now : ℕ) (m : Tables H)
      → (pid == p) ≡ false
      → IsLeaked m p
      → IsLeaked (settle_at hp o pid cooldown now m) p
  unfolding schedule
  settle_at-IsLeaked none pid cooldown now m other l = record {
    unowned = l.unowned;
    unattended = l.unattended;
    busy = rw other at ((release_lem m.gen pid).0 p) ∙ l.busy;
  }
  settle_at-IsLeaked (some current) pid cooldown now m other l =
      elim (Bool-cases (current == pid)) [
        | inl own ↦
            rw own (record { unowned = l.unowned; unattended = l.unattended; busy = l.busy })
        | inr gone ↦ rw gone (record {
          unowned = l.unowned;
          unattended = l.unattended;
          busy = rw other at ((release_lem m.gen pid).0 p) ∙ l.busy;
        })
      ]

  exit-IsLeaked : (pid now : ℕ) (m : Tables H) → IsLeaked m p → IsLeaked (exit hp pid now m) p
  unfolding exit settle
  exit-IsLeaked pid now m l = elim (Option-cases (lookup pid m.live)) [
    | inl e ↦ subst (λ o. IsLeaked (exit_at hp o pid now m) p) (sym e) l
    | inr (spec, e) ↦
        let other = differ p pid (λ k. lookup k m.live) spec l.unattended e in
        subst (λ o. IsLeaked (exit_at hp o pid now m) p) (sym e)
          (settle_at-IsLeaked (lookup spec.unit_id m.units) pid spec.cooldown now
            (record m { ps = delete pid m.ps; live = delete pid m.live }) other
            (record {
              unowned = l.unowned;
              unattended = none_deleted pid m.live l.unattended;
              busy = l.busy;
            }))
  ]

  carry : (a b : Tables H) → some a ≡ some b → IsLeaked a p → IsLeaked b p
  carry a b h l = subst (λ t. IsLeaked t p) (let e : a ≡ b = cc h in e) l

  step-IsLeaked :
      (a : Action) (m m' : Tables H)
      → IsValid hp m
      → IsLeaked m p
      → step hp a m ≡ some m'
      → IsLeaked m' p
  unfolding step add remove
  step-IsLeaked (adds uid argv cooldown now) m m' v l h =
      add-IsLeaked (record { unit_id = uid; argv = argv; cooldown = cooldown }) now m m' v l h
  step-IsLeaked (removes uid) m m' v l h = carry _ m' h (remove-IsLeaked uid m l)
  step-IsLeaked (polls outcome now) m m' v l h = carry _ m' h (poll-IsLeaked outcome now m v l)
  step-IsLeaked (exits pid now) m m' v l h = carry _ m' h (exit-IsLeaked pid now m l)

  run-IsLeaked :
      (actions : List Action) (m m' : Tables H)
      → IsValid hp m
      → IsLeaked m p
      → run hp actions m ≡ some m'
      → IsLeaked m' p
  unfolding run
  run-IsLeaked [] m m' v l h = carry m m' h l
  run-IsLeaked (a ∷ rest) m m' v l h = elim (Option-cases (step hp a m)) [
    | inl e ↦ absurd (cc (h, ap (λ o. continue hp o (λ t. run hp rest t)) e))
    | inr (t, e) ↦
        run-IsLeaked rest t m' (step-IsValid hp a m t v e) (step-IsLeaked a m t v l e)
          (sym (ap (λ o. continue hp o (λ t. run hp rest t)) e) ∙ h)
  ]

  -- When a unit is removed while its PID waits to be launched, in tables that agree, the PID stays
  -- in use after any further actions.
  pub remove-leaks :
      (uid : ℕ) (actions : List Action) (m m' : Tables H)
      → IsValid hp m
      → lookup uid m.units ≡ some p
      → is_some (due_at m.sched p) ≡ true
      → run hp actions (remove hp uid m) ≡ some m'
      → used m'.gen p ≡ true
  unfolding remove remove_unit remove_pid
  remove-leaks uid actions m m' v known due h =
      let own : (p == p) ≡ true = (nat_beq_iff p p).1 refl in
      let (s, (_, (no_live, (busy, _)))) = due-Status (v.status p) due in
      let l : IsLeaked (remove_unit hp uid m) p =
        subst (λ o. IsLeaked (remove_at hp o uid m) p) (sym known)
          (record { unowned = deleted p p m.specs own; unattended = no_live; busy = busy }) in
      (run-IsLeaked actions (remove_unit hp uid m) m' (remove-IsValid hp uid m v) l h).busy
