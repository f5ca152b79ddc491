-- ===== src/ProcessMgr/Manager2/Steps.antt =====
-- The steps of a supervisor and of the main loop (process_manager2.go).
use zmux_server.Base.{
  ℕ, ◌≡◌, refl, ap, sym, ◌∙◌, subst, Bool, true, false, some, if◌then◌else◌, nat_eq, nat_beq_iff,
  ◌==◌, lookup, insert, is_some, inserted, untouched, deleted, undeleted, Bool-cases, Option-cases,
  inl, inr,
}
use zmux_server.ProcessMgr.SlotPool.{SlotPool, Outcome, ok, release, try_acquire}
use zmux_server.ProcessMgr.SlotPool.Laws.{holds, try_acquire_lem, release_lem}
use zmux_server.ProcessMgr.Heap.{Heap}
use zmux_server.ProcessMgr.Tables.{or_spec, settle}
use zmux_server.ProcessMgr.Tables.Status.{IsValid}
use zmux_server.ProcessMgr.Tables.Settle.{settle-IsValid, settle-live}
use zmux_server.ProcessMgr.Manager2.{
  Manager2, Phase, warming, stopping, promoted, entering, active, leaving, exiting, Run, done, slot,
  handle_exit, set_phase, Signal, ready, died, entered, not_entered, ended, go, promote,
  advance_from, advance_at, advance,
}
use zmux_server.ProcessMgr.Manager2.Phases.{holds_preflight, holds_onflight, IsSound, Sound}

-- The owners of a pool that is left alone, as after a change at `pid`.
kept :
    (s : SlotPool) (pid : ℕ) (b : Bool)
    → holds s pid ≡ b
    → (j : ℕ) → holds s j ≡ (if pid == j then b else holds s j)
kept s pid b h j = elim (Bool-cases (pid == j)) [
  | inl own ↦ rw own (ap (holds s) (sym ((nat_beq_iff pid j).0 own)) ∙ h)
  | inr other ↦ rw other refl
]

-- What follows a call that is known to go well.
pub goes_on :
    {H A : Type 0} (hp : Heap H) (o : Outcome A) (a : A) (k : A → Run (Manager2 H))
    → o ≡ ok a
    → Sound hp (k a)
    → Sound hp (slot o k)
goes_on hp o a k e h = subst (λ x. Sound hp (slot x k)) (sym e) h

module _ {H : Type 0} (hp : Heap H) (pid : ℕ) (m : Manager2 H) (v : IsSound hp m) where
  -- A supervisor goes to the phase `ph`, and the pools change for its PID alone.
  phase-IsSound :
      (ph : Phase) (pre on : SlotPool)
      → is_some (lookup pid m.phases) ≡ true
      → ((j : ℕ)
          → holds pre j ≡ (if pid == j then holds_preflight (some ph) else holds m.preflight j))
      → ((j : ℕ) → holds on j ≡ (if pid == j then holds_onflight (some ph) else holds m.onflight j))
      → IsSound hp (record m { preflight = pre; onflight = on; phases = insert pid ph m.phases })
  phase-IsSound ph pre on known pre' on' = record {
    tables_ok = v.tables_ok;
    supervised = λ j. elim (Bool-cases (pid == j)) [
      | inl own ↦
          let same : pid ≡ j = (nat_beq_iff pid j).0 own in
          ap is_some (inserted pid j ph m.phases own)
          ∙ sym (sym (v.supervised j) ∙ ap (λ k. is_some (lookup k m.phases)) (sym same) ∙ known)
      | inr other ↦ ap is_some (untouched pid j ph m.phases other) ∙ v.supervised j
    ];
    pre = λ j. elim (Bool-cases (pid == j)) [
      | inl own ↦ rw own at (pre' j) ∙ ap holds_preflight (sym (inserted pid j ph m.phases own))
      | inr other ↦
          rw other at (pre' j)
          ∙ (v.pre j ∙ ap holds_preflight (sym (untouched pid j ph m.phases other)))
    ];
    on = λ j. elim (Bool-cases (pid == j)) [
      | inl own ↦ rw own at (on' j) ∙ ap holds_onflight (sym (inserted pid j ph m.phases own))
      | inr other ↦
          rw other at (on' j)
          ∙ (v.on j ∙ ap holds_onflight (sym (untouched pid j ph m.phases other)))
    ];
  }

  module _ (old : Phase) (at : lookup pid m.phases ≡ some old) where
    known : is_some (lookup pid m.phases) ≡ true
    known = ap is_some at

    pre_kept :
        (b : Bool)
        → holds_preflight (some old) ≡ b
        → (j : ℕ) → holds m.preflight j ≡ (if pid == j then b else holds m.preflight j)
    pre_kept b h = kept m.preflight pid b (v.pre pid ∙ ap holds_preflight at ∙ h)

    on_kept :
        (b : Bool)
        → holds_onflight (some old) ≡ b
        → (j : ℕ) → holds m.onflight j ≡ (if pid == j then b else holds m.onflight j)
    on_kept b h = kept m.onflight pid b (v.on pid ∙ ap holds_onflight at ∙ h)

    -- The phase changes, and no slot.
    move-IsSound :
        (ph : Phase)
        → holds_preflight (some old) ≡ holds_preflight (some ph)
        → holds_onflight (some old) ≡ holds_onflight (some ph)
        → IsSound hp (set_phase hp pid ph m)
    move-IsSound ph p o = phase-IsSound ph m.preflight m.onflight known (pre_kept _ p) (on_kept _ o)

    -- The preflight slot is returned.
    drop_preflight :
        (ph : Phase)
        → holds_preflight (some old) ≡ true
        → holds_preflight (some ph) ≡ false
        → holds_onflight (some old) ≡ holds_onflight (some ph)
        → Sound hp (
            slot
              (release m.preflight pid)
              (λ s. done (set_phase hp pid ph (record m { preflight = s }))))
    drop_preflight ph has gone o =
        let (t, freed, owners) =
          release_lem m.preflight pid (v.pre pid ∙ ap holds_preflight at ∙ has) in
        goes_on hp (release m.preflight pid) t
          (λ s. done (set_phase hp pid ph (record m { preflight = s }))) freed
          (phase-IsSound ph t m.onflight known
            (λ j. owners j ∙ ap (λ b. if pid == j then b else holds m.preflight j) (sym gone))
            (on_kept _ o))

    drop_onflight :
        (ph : Phase)
        → holds_onflight (some old) ≡ true
        → holds_onflight (some ph) ≡ false
        → holds_preflight (some old) ≡ holds_preflight (some ph)
        → Sound hp (
            slot
              (release m.onflight pid)
              (λ s. done (set_phase hp pid ph (record m { onflight = s }))))
    drop_onflight ph has gone p =
        let (t, freed, owners) =
          release_lem m.onflight pid (v.on pid ∙ ap holds_onflight at ∙ has) in
        goes_on hp (release m.onflight pid) t
          (λ s. done (set_phase hp pid ph (record m { onflight = s }))) freed
          (phase-IsSound ph m.preflight t known (pre_kept _ p)
            (λ j. owners j ∙ ap (λ b. if pid == j then b else holds m.onflight j) (sym gone)))

    -- `onflight.tryAcquire`
    promote-Sound :
        old ≡ warming → Sound hp (slot (try_acquire m.onflight pid) (λ r. promote hp pid m r))
    promote-Sound is_warming = elim (try_acquire_lem m.onflight pid) [
      | inl (_, held) ↦
          absurd (
            cc (held, v.on pid, ap holds_onflight at, ap (λ k. holds_onflight (some k)) is_warming))
      | inr (inl (refused, _, _)) ↦
          goes_on hp (try_acquire m.onflight pid) (m.onflight, false) (λ r. promote hp pid m r)
            refused
            (move-IsSound stopping (ap (λ k. holds_preflight (some k)) is_warming)
              (ap (λ k. holds_onflight (some k)) is_warming))
      | inr (inr (t, taken, _, _, _, _, owners)) ↦
          goes_on hp (try_acquire m.onflight pid) (t, true) (λ r. promote hp pid m r) taken
            (phase-IsSound promoted m.preflight t known
              (pre_kept true (ap (λ k. holds_preflight (some k)) is_warming)) owners)
    ]

    -- `handleExit`
    exit-IsSound :
        (now : ℕ)
        → old ≡ exiting
        → IsSound hp (handle_exit hp pid (or_spec (lookup pid m.tables.live)).unit_id now m)
    unfolding handle_exit
    exit-IsSound now is_exiting = elim (Option-cases (lookup pid m.tables.live)) [
      | inl gone ↦ absurd (cc (known, v.supervised pid, ap is_some gone))
      | inr (spec, e) ↦
          let cooldown = (or_spec (lookup pid m.tables.specs)).cooldown in
          let settled = settle-IsValid hp pid cooldown now spec m.tables v.tables_ok e in
          record {
            tables_ok =
                subst (λ o. IsValid hp (settle hp pid (or_spec o).unit_id cooldown now m.tables))
                  (sym e) settled;
            supervised = λ j.
                let live =
                  settle-live hp pid (or_spec (lookup pid m.tables.live)).unit_id cooldown now
                    m.tables in
                elim (Bool-cases (pid == j)) [
                  | inl own ↦
                      ap is_some (deleted pid j m.phases own)
                      ∙ ap is_some (sym (ap (lookup j) live ∙ deleted pid j m.tables.live own))
                  | inr other ↦
                      ap is_some (undeleted pid j m.phases other)
                      ∙ (v.supervised j
                          ∙ ap is_some
                              (sym (ap (lookup j) live ∙ undeleted pid j m.tables.live other)))
                ];
            pre = λ j. elim (Bool-cases (pid == j)) [
              | inl own ↦
                  let same : pid ≡ j = (nat_beq_iff pid j).0 own in
                  ap (holds m.preflight) (sym same)
                  ∙ (v.pre pid
                      ∙ (ap holds_preflight at
                          ∙ (ap (λ k. holds_preflight (some k)) is_exiting
                              ∙ ap holds_preflight (sym (deleted pid j m.phases own)))))
              | inr other ↦ v.pre j ∙ ap holds_preflight (sym (undeleted pid j m.phases other))
            ];
            on = λ j. elim (Bool-cases (pid == j)) [
              | inl own ↦
                  let same : pid ≡ j = (nat_beq_iff pid j).0 own in
                  ap (holds m.onflight) (sym same)
                  ∙ (v.on pid
                      ∙ (ap holds_onflight at
                          ∙ (ap (λ k. holds_onflight (some k)) is_exiting
                              ∙ ap holds_onflight (sym (deleted pid j m.phases own)))))
              | inr other ↦ v.on j ∙ ap holds_onflight (sym (undeleted pid j m.phases other))
            ];
          }
    ]

module _ {H : Type 0} (hp : Heap H) where
  advance_from-Sound :
      (ph : Phase) (signal : Signal) (pid now : ℕ) (m : Manager2 H)
      → IsSound hp m
      → lookup pid m.phases ≡ some ph
      → Sound hp (advance_from hp ph signal pid now m)
  unfolding advance_from
  advance_from-Sound warming ready pid now m v at = promote-Sound hp pid m v warming at refl
  advance_from-Sound warming died pid now m v at =
      move-IsSound hp pid m v warming at stopping refl refl
  advance_from-Sound stopping go pid now m v at =
      drop_preflight hp pid m v stopping at exiting refl refl refl
  advance_from-Sound promoted go pid now m v at =
      drop_preflight hp pid m v promoted at entering refl refl refl
  advance_from-Sound entering entered pid now m v at =
      move-IsSound hp pid m v entering at active refl refl
  advance_from-Sound entering not_entered pid now m v at =
      move-IsSound hp pid m v entering at leaving refl refl
  advance_from-Sound active ended pid now m v at =
      move-IsSound hp pid m v active at leaving refl refl
  advance_from-Sound leaving go pid now m v at =
      drop_onflight hp pid m v leaving at exiting refl refl refl
  advance_from-Sound exiting go pid now m v at = exit-IsSound hp pid m v exiting at now refl
  advance_from-Sound ph signal pid now m v at = v

  pub advance-Sound :
      (signal : Signal) (pid now : ℕ) (m : Manager2 H)
      → IsSound hp m
      → Sound hp (advance hp signal pid now m)
  unfolding advance
  advance-Sound signal pid now m v = elim (Option-cases (lookup pid m.phases)) [
    | inl e ↦ subst (λ o. Sound hp (advance_at hp o signal pid now m)) (sym e) v
    | inr (ph, e) ↦
        subst (λ o. Sound hp (advance_at hp o signal pid now m)) (sym e)
          (advance_from-Sound ph signal pid now m v e)
  ]
