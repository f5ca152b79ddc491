-- ===== src/ProcessMgr/Tables/Settle.antt =====
-- What follows the end of a process keeps the tables in agreement (process_manager.go,
-- process_manager2.go).
use zmux_server.Base.{
  ℕ, ◌+◌, ◌≡◌, refl, ap, sym, ◌∙◌, subst, inl, inr, true, false, none, some, nat_eq, nat_beq_iff,
  ◌==◌, lookup, delete, deleted, undeleted, is_some, Bool-cases, Option-cases,
}
use zmux_server.ProcessMgr.PidAllocator.{PidAllocator}
use zmux_server.ProcessMgr.PidAllocator.{release as release_pid}
use zmux_server.ProcessMgr.PidAllocator.Laws.{used, release_lem}
use zmux_server.ProcessMgr.PidAllocator.Laws.{IsValid as GenIsValid}
use zmux_server.ProcessMgr.Heap.{Heap}
use zmux_server.ProcessMgr.Scheduler.Laws.{due_at, push-due, push-IsValid}
use zmux_server.ProcessMgr.Tables.{Spec, Tables, schedule, settle_at, settle}
use zmux_server.ProcessMgr.Tables.Status.{idle, waiting, Status-map, IsValid, live-Status}

release-IsValid : (a : PidAllocator) (p : ℕ) → GenIsValid a → GenIsValid (release_pid a p)
unfolding release_pid
release-IsValid a p v = record { low = v.low; high = v.high }

module _ {H : Type 0} (hp : Heap H) (pid cooldown now : ℕ) (spec : Spec) (m : Tables H)
    (v : IsValid hp m) (held : lookup pid m.live ≡ some spec) where
  abbrev ended : Tables H
  ended = record m { ps = delete pid m.ps; live = delete pid m.live }

  -- The unit still has this PID: it waits for its next launch.
  restart-IsValid : lookup pid m.specs ≡ some spec → IsValid hp (schedule hp pid cooldown now ended)
  unfolding schedule
  restart-IsValid known = record {
    sched_ok = push-IsValid hp pid (now + cooldown) m.sched v.sched_ok;
    gen_ok = v.gen_ok;
    status = λ j. elim (Bool-cases (pid == j)) [
      | inl own ↦
          let same : pid ≡ j = (nat_beq_iff pid j).0 own in
          let busy = (live-Status spec (v.status pid) held).1.1 in
          waiting spec (subst (λ k. lookup k m.specs ≡ some spec) same known)
            (ap is_some (rw own at (push-due hp pid (now + cooldown) m.sched j)))
            (deleted pid j m.live own) (subst (λ k. used m.gen k ≡ true) same busy)
            (ap is_some (deleted pid j m.ps own))
      | inr other ↦
          Status-map refl (ap is_some (rw other at (push-due hp pid (now + cooldown) m.sched j)))
            (undeleted pid j m.live other) refl (ap is_some (undeleted pid j m.ps other))
            (v.status j)
    ];
    unit_spec = v.unit_spec;
    spec_unit = v.spec_unit;
  }

  -- No unit has this PID any more: it is free again.
  retire-IsValid :
      lookup pid m.specs ≡ none → IsValid hp (record ended { gen = release_pid m.gen pid })
  retire-IsValid known = record {
    sched_ok = v.sched_ok;
    gen_ok = release-IsValid m.gen pid v.gen_ok;
    status = λ j. elim (Bool-cases (pid == j)) [
      | inl own ↦
          let same : pid ≡ j = (nat_beq_iff pid j).0 own in
          idle (subst (λ k. lookup k m.specs ≡ none) same known)
            (subst (λ k. is_some (due_at m.sched k) ≡ false) same
              (live-Status spec (v.status pid) held).1.0)
            (deleted pid j m.live own) (ap is_some (deleted pid j m.ps own))
      | inr other ↦
          Status-map refl refl (undeleted pid j m.live other)
            (rw other at ((release_lem m.gen pid).0 j)) (ap is_some (undeleted pid j m.ps other))
            (v.status j)
    ];
    unit_spec = v.unit_spec;
    spec_unit = v.spec_unit;
  }

  pub settle-IsValid : IsValid hp (settle hp pid spec.unit_id cooldown now m)
  unfolding settle
  settle-IsValid = elim ((live-Status spec (v.status pid) held).0) [
    | inl known ↦
        let self : (pid == pid) ≡ true = (nat_beq_iff pid pid).1 refl in
        let goes : settle_at hp (some pid) pid cooldown now ended
            ≡ schedule hp pid cooldown now ended =
          rw self refl in
        subst (λ o. IsValid hp (settle_at hp o pid cooldown now ended))
          (sym (v.spec_unit pid spec known)) (subst (IsValid hp) (sym goes) (restart-IsValid known))
    | inr gone ↦ elim (Option-cases (lookup spec.unit_id m.units)) [
      | inl e ↦
          subst (λ o. IsValid hp (settle_at hp o pid cooldown now ended)) (sym e)
            (retire-IsValid gone)
      | inr (current, e) ↦ elim (Bool-cases (current == pid)) [
        | inl q ↦
            let (s, (found, _)) = v.unit_spec spec.unit_id current e in
            absurd (cc (found, gone, ap (λ k. lookup k m.specs) ((nat_beq_iff current pid).0 q)))
        | inr q ↦
            let goes : settle_at hp (some current) pid cooldown now ended
                ≡ record ended { gen = release_pid m.gen pid } =
              rw q refl in
            subst (λ o. IsValid hp (settle_at hp o pid cooldown now ended)) (sym e)
              (subst (IsValid hp) (sym goes) (retire-IsValid gone))
      ]
    ]
  ]

-- The goroutine is gone afterwards, and no other.
pub settle-live :
    {H : Type 0} (hp : Heap H) (pid uid cooldown now : ℕ) (m : Tables H)
    → (settle hp pid uid cooldown now m).live ≡ delete pid m.live
unfolding settle schedule
settle-live hp pid uid cooldown now m =
    let after = record m { ps = delete pid m.ps; live = delete pid m.live } in
    elim (Option-cases (lookup uid m.units)) [
      | inl e ↦ ap (λ o. (settle_at hp o pid cooldown now after).live) e
      | inr (current, e) ↦
          ap (λ o. (settle_at hp o pid cooldown now after).live) e
          ∙ elim (Bool-cases (current == pid)) [ inl q ↦ rw q refl | inr q ↦ rw q refl ]
    ]
