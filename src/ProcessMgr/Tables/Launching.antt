-- ===== src/ProcessMgr/Tables/Launching.antt =====
-- A launch keeps the tables in agreement (process_manager.go, process_manager2.go).
use zmux_server.Base.{
  ℕ, ◌+◌, ◌≡◌, refl, ap, ◌∙◌, subst, inl, inr, true, false, none, some, nat_eq, nat_beq_iff, ◌==◌,
  lookup, Map, insert, delete, inserted, untouched, deleted, undeleted, is_some, if◌then◌else◌,
  Bool-cases,
}
use zmux_server.ProcessMgr.LogManager.{LogManager, get}
use zmux_server.ProcessMgr.Heap.{Heap, Event}
use zmux_server.ProcessMgr.Scheduler.{push, next, pop}
use zmux_server.ProcessMgr.Scheduler.Laws.{
  due_at, push-due, push-IsValid, pop-due, pop-IsValid, next-least,
}
use zmux_server.ProcessMgr.Tables.{
  Spec, Tables, schedule, Launch, not_made, not_started, launch_spec,
}
use zmux_server.ProcessMgr.Tables.Status.{
  Status, waiting, Status-map, StatusAt, IsValid, due-Status,
}

module _ {H : Type 0} (hp : Heap H) where
  -- The event `ev` is taken off the scheduler and its PID is put back, or gets a process.
  module _ (m : Tables H) (ev : Event) (v : IsValid hp m) (head : next hp m.sched ≡ some ev) where
    head_due : is_some (due_at m.sched ev.id) ≡ true
    head_due = ap is_some ((next-least hp m.sched ev v.sched_ok head).0)

    requeued :
        (when j : ℕ)
        → due_at (push hp ev.id when (pop hp m.sched)) j
          ≡ (if ev.id == j then some when else due_at m.sched j)
    requeued when j = elim (Bool-cases (ev.id == j)) [
      | inl own ↦ rw own (rw own at (push-due hp ev.id when (pop hp m.sched) j))
      | inr other ↦ rw other (
          rw other at (push-due hp ev.id when (pop hp m.sched) j)
          ∙ rw other at (pop-due hp m.sched ev j head))
    ]

    -- Put back, with no process on record.
    requeue-IsValid :
        (when : ℕ) (logs : LogManager) (ps : Map ℕ (Unit {0}))
        → ((j : ℕ)
            → is_some (lookup j ps) ≡ (if ev.id == j then false else is_some (lookup j m.ps)))
        → IsValid hp
            (record m { logs = logs; ps = ps; sched = push hp ev.id when (pop hp m.sched) })
    requeue-IsValid when logs ps recorded = record {
      sched_ok =
          push-IsValid hp ev.id when (pop hp m.sched) (pop-IsValid hp m.sched ev v.sched_ok head);
      gen_ok = v.gen_ok;
      status = λ j. elim (Bool-cases (ev.id == j)) [
        | inl own ↦
            let same : ev.id ≡ j = (nat_beq_iff ev.id j).0 own in
            let due = subst (λ k. is_some (due_at m.sched k) ≡ true) same head_due in
            let (s, (spec, (no_live, (busy, _)))) = due-Status (v.status j) due in
            waiting s spec (ap is_some (rw own at (requeued when j))) no_live busy
              (rw own at (recorded j))
        | inr other ↦
            Status-map refl (ap is_some (rw other at (requeued when j))) refl refl
              (rw other at (recorded j)) (v.status j)
      ];
      unit_spec = v.unit_spec;
      spec_unit = v.spec_unit;
    }

    launched-status :
        (spec : Spec) (logs : LogManager)
        → lookup ev.id m.specs ≡ some spec
        → (j : ℕ)
        → StatusAt
            (record m {
              logs = logs;
              sched = pop hp m.sched;
              ps = insert ev.id tt m.ps;
              live = insert ev.id spec m.live;
            })
            j
    launched-status spec logs known j = elim (Bool-cases (ev.id == j)) [
      | inl own ↦
          let same : ev.id ≡ j = (nat_beq_iff ev.id j).0 own in
          let due = subst (λ k. is_some (due_at m.sched k) ≡ true) same head_due in
          let (s, (_, (_, (busy, _)))) = due-Status (v.status j) due in
          Status.running spec (subst (λ k. lookup k m.specs ≡ some spec) same known)
            (ap is_some (rw own at (pop-due hp m.sched ev j head)))
            (inserted ev.id j spec m.live own) busy (ap is_some (inserted ev.id j tt m.ps own))
      | inr other ↦
          Status-map refl (ap is_some (rw other at (pop-due hp m.sched ev j head)))
            (untouched ev.id j spec m.live other) refl
            (ap is_some (untouched ev.id j tt m.ps other)) (v.status j)
    ]

    -- The process that a launch puts on record is off again when it does not start.
    taken_back :
        (j : ℕ)
        → is_some (lookup j (delete ev.id (insert ev.id tt m.ps)))
          ≡ (if ev.id == j then false else is_some (lookup j m.ps))
    taken_back j = elim (Bool-cases (ev.id == j)) [
      | inl own ↦ rw own (ap is_some (deleted ev.id j (insert ev.id tt m.ps) own))
      | inr other ↦ rw other (
          ap is_some
            (undeleted ev.id j (insert ev.id tt m.ps) other ∙ untouched ev.id j tt m.ps other))
    ]

    never_put :
        (j : ℕ) → is_some (lookup j m.ps) ≡ (if ev.id == j then false else is_some (lookup j m.ps))
    never_put j = elim (Bool-cases (ev.id == j)) [
      | inl own ↦
          let same : ev.id ≡ j = (nat_beq_iff ev.id j).0 own in
          let due = subst (λ k. is_some (due_at m.sched k) ≡ true) same head_due in
          rw own ((due-Status (v.status j) due).1.1.1.1)
      | inr other ↦ rw other refl
    ]

    -- A launch of the head event has a spec, and finds no goroutine for its PID.
    pub head-Status : (s : Spec) × ((lookup ev.id m.specs ≡ some s) × (lookup ev.id m.live ≡ none))
    head-Status =
        let (s, (spec, (no_live, _))) = due-Status (v.status ev.id) head_due in (s, (spec, no_live))

    pub launch_spec-IsValid :
        (spec : Spec) (outcome : Launch) (now : ℕ)
        → lookup ev.id m.specs ≡ some spec
        → IsValid hp (launch_spec hp spec ev.id outcome now (record m { sched = pop hp m.sched }))
    unfolding launch_spec schedule
    launch_spec-IsValid spec not_made now known =
        requeue-IsValid (now + spec.cooldown) (get spec.unit_id m.logs).1 m.ps never_put
    launch_spec-IsValid spec not_started now known =
        requeue-IsValid (now + spec.cooldown) (get spec.unit_id m.logs).1
          (delete ev.id (insert ev.id tt m.ps)) taken_back
    launch_spec-IsValid spec Launch.running now known = record {
      sched_ok = pop-IsValid hp m.sched ev v.sched_ok head;
      gen_ok = v.gen_ok;
      status = launched-status spec (get spec.unit_id m.logs).1 known;
      unit_spec = v.unit_spec;
      spec_unit = v.spec_unit;
    }
