-- ===== src/ProcessMgr/Tables/Units.antt =====
-- `Add` and `Remove` keep the tables in agreement (process_manager.go, process_manager2.go).
use zmux_server.Base.{
  ℕ, ◌+◌, ◌≡◌, refl, ap, sym, ◌∙◌, subst, inl, inr, true, false, none, some, nat_eq, nat_beq_iff,
  ◌==◌, lookup, insert, inserted, untouched, deleted, undeleted, is_some, if◌then◌else◌, Bool-cases,
  Option-cases,
}
use zmux_server.ProcessMgr.PidAllocator.{PidAllocator, alloc, allocated, exhausted, unfinished}
use zmux_server.ProcessMgr.PidAllocator.Laws.{used, Result, fresh, full, alloc-Result}
use zmux_server.ProcessMgr.PidAllocator.Laws.{IsValid as GenIsValid}
use zmux_server.ProcessMgr.Heap.{Heap}
use zmux_server.ProcessMgr.Scheduler.Laws.{
  push-due, push-IsValid, remove-due, new_scheduler-IsValid,
}
use zmux_server.ProcessMgr.Scheduler.{new_scheduler}
use zmux_server.ProcessMgr.LogManager.{LogManager}
use zmux_server.ProcessMgr.PidAllocator.{Alloc, new_pid_allocator}
use zmux_server.ProcessMgr.PidAllocator.Laws.{new_pid_allocator-IsValid}
use zmux_server.ProcessMgr.Tables.{add_alloc, new_tables}
use zmux_server.ProcessMgr.Scheduler.Laws.{remove-IsValid as unschedule-IsValid}
use zmux_server.ProcessMgr.Tables.{
  Spec, Tables, schedule, add_pid, add_at, add, remove_pid, remove_at, remove,
}
use zmux_server.ProcessMgr.Tables.Status.{
  idle, waiting, Status-map, StatusAt, IsValid, free-Status, dropped-Status,
}

module _ {H : Type 0} (hp : Heap H) where
  add_pid-status :
      (pid : ℕ) (spec : Spec) (now : ℕ) (gen : PidAllocator) (m : Tables H)
      → IsValid hp m
      → used m.gen pid ≡ false
      → ((q : ℕ) → used gen q ≡ (if pid == q then true else used m.gen q))
      → (j : ℕ) → StatusAt (add_pid hp pid spec now gen m) j
  unfolding add_pid schedule
  add_pid-status pid spec now gen m v unused used' j = elim (Bool-cases (pid == j)) [
    | inl own ↦
        let same : pid ≡ j = (nat_beq_iff pid j).0 own in
        let (_, (no_live, no_ps)) = free-Status (v.status pid) unused in
        waiting spec (inserted pid j spec m.specs own)
          (ap is_some (rw own at (push-due hp pid (now + 0) m.sched j)))
          (subst (λ k. lookup k m.live ≡ none) same no_live) (rw own at (used' j))
          (subst (λ k. is_some (lookup k m.ps) ≡ false) same no_ps)
    | inr other ↦
        Status-map (untouched pid j spec m.specs other)
          (ap is_some (rw other at (push-due hp pid (now + 0) m.sched j))) refl
          (rw other at (used' j)) refl (v.status j)
  ]

  pub add_pid-IsValid :
      (pid : ℕ) (spec : Spec) (now : ℕ) (gen : PidAllocator) (m : Tables H)
      → IsValid hp m
      → lookup spec.unit_id m.units ≡ none
      → used m.gen pid ≡ false
      → ((q : ℕ) → used gen q ≡ (if pid == q then true else used m.gen q))
      → GenIsValid gen
      → IsValid hp (add_pid hp pid spec now gen m)
  unfolding add_pid schedule
  add_pid-IsValid pid spec now gen m v new unused used' gen_ok = record {
    sched_ok = push-IsValid hp pid (now + 0) m.sched v.sched_ok;
    gen_ok = gen_ok;
    status = add_pid-status pid spec now gen m v unused used';
    unit_spec = λ u p e. elim (Bool-cases (spec.unit_id == u)) [
      | inl own ↦
          let q : pid ≡ p = cc (e, inserted spec.unit_id u pid m.units own) in
          (
            spec,
            (
              inserted pid p spec m.specs ((nat_beq_iff pid p).1 q),
              (nat_beq_iff spec.unit_id u).0 own,
            ),
          )
      | inr other ↦
          let (s, (found, unit)) =
            v.unit_spec u p (sym (untouched spec.unit_id u pid m.units other) ∙ e) in
          elim (Bool-cases (pid == p)) [
            | inr q ↦ (s, (untouched pid p spec m.specs q ∙ found, unit))
            | inl q ↦ absurd (
                cc (
                  found,
                  ap (λ k. lookup k m.specs) ((nat_beq_iff pid p).0 q),
                  (free-Status (v.status pid) unused).0,
                ))
          ]
    ];
    spec_unit = λ p s e. elim (Bool-cases (pid == p)) [
      | inl own ↦
          let q : s ≡ spec = cc (e, inserted pid p spec m.specs own) in
          ap (λ t. lookup t.unit_id (insert spec.unit_id pid m.units)) q
          ∙ (inserted spec.unit_id spec.unit_id pid m.units
                ((nat_beq_iff spec.unit_id spec.unit_id).1 refl)
              ∙ ap some ((nat_beq_iff pid p).0 own))
      | inr other ↦
          let found = v.spec_unit p s (sym (untouched pid p spec m.specs other) ∙ e) in
          elim (Bool-cases (spec.unit_id == s.unit_id)) [
            | inr q ↦ untouched spec.unit_id s.unit_id pid m.units q ∙ found
            | inl q ↦ absurd (
                cc (
                  found,
                  new,
                  ap (λ k. lookup k m.units) ((nat_beq_iff spec.unit_id s.unit_id).0 q),
                ))
          ]
    ];
  }

  remove_pid-status :
      (uid pid : ℕ) (m : Tables H) → IsValid hp m → (j : ℕ) → StatusAt (remove_pid hp uid pid m) j
  unfolding remove_pid
  remove_pid-status uid pid m v j = elim (Bool-cases (pid == j)) [
    | inl own ↦
        Status-map (deleted pid j m.specs own)
          (ap is_some (rw own at (remove-due hp pid m.sched j))) refl refl
          (ap is_some (deleted pid j m.ps own)) (dropped-Status (v.status j))
    | inr other ↦
        Status-map (undeleted pid j m.specs other)
          (ap is_some (rw other at (remove-due hp pid m.sched j))) refl refl
          (ap is_some (undeleted pid j m.ps other)) (v.status j)
  ]

  pub remove_pid-IsValid :
      (uid pid : ℕ) (m : Tables H)
      → IsValid hp m
      → lookup uid m.units ≡ some pid
      → IsValid hp (remove_pid hp uid pid m)
  unfolding remove_pid
  remove_pid-IsValid uid pid m v known = record {
    sched_ok = unschedule-IsValid hp pid m.sched v.sched_ok;
    gen_ok = v.gen_ok;
    status = remove_pid-status uid pid m v;
    unit_spec = λ u p e. elim (Bool-cases (uid == u)) [
      | inl own ↦ absurd (cc (e, deleted uid u m.units own))
      | inr other ↦
          let (s, (found, unit)) = v.unit_spec u p (sym (undeleted uid u m.units other) ∙ e) in
          elim (Bool-cases (pid == p)) [
            | inr q ↦ (s, (undeleted pid p m.specs q ∙ found, unit))
            | inl q ↦
                let (t, (found', unit')) = v.unit_spec uid pid known in
                let s_t : s ≡ t =
                  cc (found, found', ap (λ k. lookup k m.specs) ((nat_beq_iff pid p).0 q)) in
                absurd (
                  cc (
                    other,
                    (nat_beq_iff uid u).1 (sym unit' ∙ ap (λ x. x.unit_id) (sym s_t) ∙ unit),
                  ))
          ]
    ];
    spec_unit = λ p s e. elim (Bool-cases (pid == p)) [
      | inl own ↦ absurd (cc (e, deleted pid p m.specs own))
      | inr other ↦
          let found = v.spec_unit p s (sym (undeleted pid p m.specs other) ∙ e) in
          elim (Bool-cases (uid == s.unit_id)) [
            | inr q ↦ undeleted uid s.unit_id m.units q ∙ found
            | inl q ↦
                let pid_p : pid ≡ p =
                  cc (known, found, ap (λ k. lookup k m.units) ((nat_beq_iff uid s.unit_id).0 q)) in
                absurd (cc (other, (nat_beq_iff pid p).1 pid_p))
          ]
    ];
  }

  add_alloc-IsValid :
      {r : Alloc} (spec : Spec) (now : ℕ) (m m' : Tables H)
      → IsValid hp m
      → Result m.gen r
      → lookup spec.unit_id m.units ≡ none
      → add_alloc hp r spec now m ≡ some m'
      → IsValid hp m'
  add_alloc-IsValid spec now m m' v (fresh p gen low high unused used' gen_ok same) new h =
      let q : add_pid hp p spec now gen m ≡ m' = cc h in
      subst (IsValid hp) q (add_pid-IsValid p spec now gen m v new unused used' gen_ok)
  add_alloc-IsValid spec now m m' v (full busy) new h = absurd (cc h)

  pub add-IsValid :
      (spec : Spec) (now : ℕ) (m m' : Tables H)
      → IsValid hp m
      → add hp spec now m ≡ some m'
      → IsValid hp m'
  unfolding add
  add-IsValid spec now m m' v h = elim (Option-cases (lookup spec.unit_id m.units)) [
    | inr (pid, known) ↦
        let q : m ≡ m' = cc (h, ap (λ o. add_at hp o spec now m) known) in subst (IsValid hp) q v
    | inl new ↦
        add_alloc-IsValid spec now m m' v (alloc-Result m.gen v.gen_ok) new
          (sym (ap (λ o. add_at hp o spec now m) new) ∙ h)
  ]

  pub remove-IsValid : (uid : ℕ) (m : Tables H) → IsValid hp m → IsValid hp (remove hp uid m)
  unfolding remove
  remove-IsValid uid m v = elim (Option-cases (lookup uid m.units)) [
    | inl e ↦ subst (λ o. IsValid hp (remove_at hp o uid m)) (sym e) v
    | inr (pid, e) ↦
        subst (λ o. IsValid hp (remove_at hp o uid m)) (sym e) (remove_pid-IsValid uid pid m v e)
  ]

  pub new_tables-IsValid : (logs : LogManager) → IsValid hp (new_tables hp logs)
  unfolding new_tables new_scheduler new_pid_allocator lookup
  new_tables-IsValid logs = record {
    sched_ok = new_scheduler-IsValid hp;
    gen_ok = new_pid_allocator-IsValid;
    status = λ p. idle refl refl refl refl;
    unit_spec = λ u p e. cc e;
    spec_unit = λ p s e. cc e;
  }

  add_alloc-live :
      (r : Alloc) (spec : Spec) (now : ℕ) (m m' : Tables H)
      → add_alloc hp r spec now m ≡ some m'
      → m'.live ≡ m.live
  unfolding add_pid schedule
  add_alloc-live (allocated pid gen) spec now m m' h =
      let q : m' ≡ add_pid hp pid spec now gen m = cc h in ap (λ t. t.live) q
  add_alloc-live exhausted spec now m m' h = absurd (cc h)
  add_alloc-live unfinished spec now m m' h = absurd (cc h)

  -- `Add` and `Remove` leave the goroutines alone.
  pub add-live :
      (spec : Spec) (now : ℕ) (m m' : Tables H) → add hp spec now m ≡ some m' → m'.live ≡ m.live
  unfolding add
  add-live spec now m m' h = elim (Option-cases (lookup spec.unit_id m.units)) [
    | inr (pid, known) ↦
        let q : m' ≡ m = cc (h, ap (λ o. add_at hp o spec now m) known) in ap (λ t. t.live) q
    | inl new ↦
        add_alloc-live (alloc m.gen) spec now m m' (sym (ap (λ o. add_at hp o spec now m) new) ∙ h)
  ]

  pub remove-live : (uid : ℕ) (m : Tables H) → (remove hp uid m).live ≡ m.live
  unfolding remove remove_pid
  remove-live uid m = elim (Option-cases (lookup uid m.units)) [
    | inl e ↦ ap (λ o. (remove_at hp o uid m).live) e
    | inr (pid, e) ↦ ap (λ o. (remove_at hp o uid m).live) e
  ]
