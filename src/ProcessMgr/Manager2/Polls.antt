-- ===== src/ProcessMgr/Manager2/Polls.antt =====
-- A round of the main loop (process_manager2.go): the slot that is taken for a launch is kept by the
-- supervisor, or returned.
use zmux_server.Base.{
  ℕ, ◌≡◌, refl, ap, sym, ◌∙◌, subst, true, false, none, some, if◌then◌else◌, ltb, nat_eq,
  nat_beq_iff, ◌==◌, lookup, is_some, inserted, untouched, Bool-cases, Option-cases, inl, inr,
}
use zmux_server.ProcessMgr.SlotPool.{SlotPool, release, try_acquire}
use zmux_server.ProcessMgr.SlotPool.Laws.{holds, try_acquire_lem, release_lem}
use zmux_server.ProcessMgr.Heap.{Heap, Event}
use zmux_server.ProcessMgr.Scheduler.{next, pop}
use zmux_server.ProcessMgr.Tables.{
  Spec, Tables, Launch, not_made, not_started, or_spec, launch_spec, schedule,
}
use zmux_server.ProcessMgr.Tables.Status.{IsValid}
use zmux_server.ProcessMgr.Tables.Launching.{head-Status, launch_spec-IsValid}
use zmux_server.ProcessMgr.Manager2.{
  Manager2, warming, done, slot, launch_slot, launch, poll_taken, poll_at, poll,
}
use zmux_server.ProcessMgr.Manager2.Phases.{holds_preflight, holds_onflight, IsSound, Sound}
use zmux_server.ProcessMgr.Manager2.Steps.{goes_on}

module _ {H : Type 0} (hp : Heap H) where
  -- The head event of the scheduler is launched, with the preflight slot taken for it.
  module _ (m : Manager2 H) (v : IsSound hp m) (ev : Event)
      (head : next hp m.tables.sched ≡ some ev) where
    nobody : lookup ev.id m.phases ≡ none
    nobody =
        let (_, (_, no_live)) = head-Status hp m.tables ev v.tables_ok head in
        elim (Option-cases (lookup ev.id m.phases)) [
          | inl e ↦ e
          | inr (ph, e) ↦ absurd (cc (ap is_some e, v.supervised ev.id, ap is_some no_live))
        ]

    no_preflight : holds m.preflight ev.id ≡ false
    no_preflight = v.pre ev.id ∙ ap holds_preflight nobody

    module _ (s : SlotPool)
        (owners : (j : ℕ) → holds s j ≡ (if ev.id == j then true else holds m.preflight j)) where
      taken : Manager2 H
      taken = record m {
        tables = record (m.tables) { sched = pop hp m.tables.sched };
        preflight = s;
      }

      -- The slot is returned when the process does not run.
      returned :
          (t : Tables H)
          → IsValid hp t
          → t.live ≡ m.tables.live
          → Sound hp
              (slot (release s ev.id) (λ u. done (record taken { tables = t; preflight = u })))
      unfolding taken
      returned t t_ok live =
          let self : (ev.id == ev.id) ≡ true = (nat_beq_iff ev.id ev.id).1 refl in
          let (u, freed, owners') = release_lem s ev.id (rw self at (owners ev.id)) in
          goes_on hp (release s ev.id) u (λ u. done (record taken { tables = t; preflight = u }))
            freed
            (record {
              tables_ok = t_ok;
              supervised = λ j. v.supervised j ∙ ap (λ l. is_some (lookup j l)) (sym live);
              pre = λ j. elim (Bool-cases (ev.id == j)) [
                | inl own ↦
                    rw own at (owners' j)
                    ∙ (sym no_preflight
                        ∙ (v.pre ev.id
                            ∙ ap (λ k. holds_preflight (lookup k m.phases))
                                ((nat_beq_iff ev.id j).0 own)))
                | inr other ↦ rw other at (owners' j) ∙ (rw other at (owners j) ∙ v.pre j)
              ];
              on = v.on;
            })

      launch_slot-Sound :
          (spec : Spec) (outcome : Launch) (now : ℕ)
          → lookup ev.id m.tables.specs ≡ some spec
          → Sound hp (launch_slot hp spec ev.id outcome now taken)
      unfolding launch_slot taken launch_spec schedule
      launch_slot-Sound spec not_made now known =
          returned (launch_spec hp spec ev.id not_made now taken.tables)
            (launch_spec-IsValid hp m.tables ev v.tables_ok head spec not_made now known) refl
      launch_slot-Sound spec not_started now known =
          returned (launch_spec hp spec ev.id not_started now taken.tables)
            (launch_spec-IsValid hp m.tables ev v.tables_ok head spec not_started now known) refl
      launch_slot-Sound spec Launch.running now known = record {
        tables_ok =
            launch_spec-IsValid hp m.tables ev v.tables_ok head spec Launch.running now known;
        supervised = λ j. elim (Bool-cases (ev.id == j)) [
          | inl own ↦
              ap is_some (inserted ev.id j warming m.phases own)
              ∙ sym (ap is_some (inserted ev.id j spec m.tables.live own))
          | inr other ↦
              ap is_some (untouched ev.id j warming m.phases other)
              ∙ (v.supervised j ∙ sym (ap is_some (untouched ev.id j spec m.tables.live other)))
        ];
        pre = λ j. elim (Bool-cases (ev.id == j)) [
          | inl own ↦
              rw own at (owners j)
              ∙ ap holds_preflight (sym (inserted ev.id j warming m.phases own))
          | inr other ↦
              rw other at (owners j)
              ∙ (v.pre j ∙ ap holds_preflight (sym (untouched ev.id j warming m.phases other)))
        ];
        on = λ j. elim (Bool-cases (ev.id == j)) [
          | inl own ↦
              ap (holds m.onflight) (sym ((nat_beq_iff ev.id j).0 own))
              ∙ (v.on ev.id
                  ∙ (ap holds_onflight nobody
                      ∙ ap holds_onflight (sym (inserted ev.id j warming m.phases own))))
          | inr other ↦ v.on j ∙ ap holds_onflight (sym (untouched ev.id j warming m.phases other))
        ];
      }

    taken-Sound :
        (outcome : Launch) (now : ℕ)
        → Sound hp (slot (try_acquire m.preflight ev.id) (λ r. poll_taken hp ev outcome now m r))
    unfolding launch taken
    taken-Sound outcome now = elim (try_acquire_lem m.preflight ev.id) [
      | inl (_, held) ↦ absurd (cc (held, no_preflight))
      | inr (inl (refused, _, _)) ↦
          goes_on hp (try_acquire m.preflight ev.id) (m.preflight, false)
            (λ r. poll_taken hp ev outcome now m r) refused v
      | inr (inr (t, acquired, _, _, _, _, owners)) ↦
          let (spec, (known, _)) = head-Status hp m.tables ev v.tables_ok head in
          let q : spec ≡ or_spec (lookup ev.id m.tables.specs) = ap or_spec (sym known) in
          goes_on hp (try_acquire m.preflight ev.id) (t, true)
            (λ r. poll_taken hp ev outcome now m r) acquired
            (subst (λ x. Sound hp (launch_slot hp x ev.id outcome now (taken t owners))) q
              (launch_slot-Sound t owners spec outcome now known))
    ]

  pub poll-Sound :
      (outcome : Launch) (now : ℕ) (m : Manager2 H)
      → IsSound hp m
      → Sound hp (poll hp outcome now m)
  unfolding poll
  poll-Sound outcome now m v = elim (Option-cases (next hp m.tables.sched)) [
    | inl e ↦ subst (λ o. Sound hp (poll_at hp o outcome now m)) (sym e) v
    | inr (ev, e) ↦
        subst (λ o. Sound hp (poll_at hp o outcome now m)) (sym e)
          (elim (Bool-cases (ltb now ev.when)) [
            | inl later ↦ rw later v
            | inr due ↦ rw due (taken-Sound m v ev e outcome now)
          ])
  ]
