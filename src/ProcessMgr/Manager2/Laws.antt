-- ===== src/ProcessMgr/Manager2/Laws.antt =====
-- The process manager of a client (process_manager2.go) over any sequence of calls, rounds of its main
-- loop and steps of its supervisors, in any order.
use zmux_server.Base.{
  ℕ, ◌≡◌, refl, ap, sym, ◌∙◌, subst, List, [], ◌∷◌, Bytes, lookup, is_some, Option-cases, inl, inr,
  nat_eq,
}
use zmux_server.Base.Int.{ℤ}
use zmux_server.ProcessMgr.LogManager.{LogManager}
use zmux_server.ProcessMgr.SlotPool.{SlotPool, new_slot_pool}
use zmux_server.ProcessMgr.SlotPool.Laws.{holds}
use zmux_server.ProcessMgr.Heap.{Heap}
use zmux_server.ProcessMgr.Limits.{update_limits}
use zmux_server.ProcessMgr.Limits.Laws.{update_limits-owners}
use zmux_server.ProcessMgr.Tables.{Spec, Tables, new_tables}
use zmux_server.ProcessMgr.Tables.{add as add_unit}
use zmux_server.ProcessMgr.Tables.{remove as remove_unit}
use zmux_server.ProcessMgr.Tables.Status.{IsValid}
use zmux_server.ProcessMgr.Tables.Units.{
  add-IsValid, add-live, remove-IsValid, remove-live, new_tables-IsValid,
}
use zmux_server.ProcessMgr.Manager2.{
  Manager2, Run, done, no_pid, slot_panic, limit_panic, or_no_pid, add, remove, limited, set_limits,
  new_process_manager2, Action, adds, removes, limits, polls, advances, step, continue, run,
}
use zmux_server.ProcessMgr.Manager2.Phases.{IsSound, Sound}
use zmux_server.ProcessMgr.Manager2.Steps.{advance-Sound}
use zmux_server.ProcessMgr.Manager2.Polls.{poll-Sound}

module _ {H : Type 0} (hp : Heap H) where
  -- The tables change, and the processes that run do not.
  tables-IsSound :
      (t : Tables H) (m : Manager2 H)
      → IsSound hp m
      → IsValid hp t
      → t.live ≡ m.tables.live
      → IsSound hp (record m { tables = t })
  tables-IsSound t m v t_ok live = record {
    tables_ok = t_ok;
    supervised = λ j. v.supervised j ∙ ap (λ l. is_some (lookup j l)) (sym live);
    pre = v.pre;
    on = v.on;
  }

  add-Sound :
      (uid : ℕ) (argv : List Bytes) (cooldown now : ℕ) (m : Manager2 H)
      → IsSound hp m
      → Sound hp (add hp uid argv cooldown now m)
  unfolding add
  add-Sound uid argv cooldown now m v =
      let spec : Spec = record { unit_id = uid; argv = argv; cooldown = cooldown } in
      elim (Option-cases (add_unit hp spec now m.tables)) [
        | inl e ↦ subst (λ o. Sound hp (or_no_pid m o)) (sym e) tt
        | inr (t, e) ↦
            subst (λ o. Sound hp (or_no_pid m o)) (sym e)
              (tables-IsSound t m v (add-IsValid hp spec now m.tables t v.tables_ok e)
                (add-live hp spec now m.tables t e))
      ]

  -- A pool with the same owners.
  holds-owners : (s t : SlotPool) → s.acquired_by ≡ t.acquired_by → (p : ℕ) → holds s p ≡ holds t p
  holds-owners s t same p = ap (λ l. is_some (lookup p l)) same

  set_limits-Sound :
      (max_pre max_on : ℤ) (m : Manager2 H)
      → IsSound hp m
      → Sound hp (set_limits hp max_pre max_on m)
  unfolding set_limits
  set_limits-Sound max_pre max_on m v =
      elim (Option-cases (update_limits max_pre max_on m.preflight m.onflight)) [
        | inl e ↦ subst (λ o. Sound hp (limited hp m o)) (sym e) tt
        | inr (r, e) ↦
            let owners = update_limits-owners max_pre max_on m.preflight m.onflight r.0 r.1 r.2 e in
            subst (λ o. Sound hp (limited hp m o)) (sym e)
              (record {
                tables_ok = v.tables_ok;
                supervised = v.supervised;
                pre = λ p. holds-owners r.0 m.preflight owners.0 p ∙ v.pre p;
                on = λ p. holds-owners r.1 m.onflight owners.1 p ∙ v.on p;
              })
      ]

  step-Sound : (a : Action) (m : Manager2 H) → IsSound hp m → Sound hp (step hp a m)
  unfolding step remove
  step-Sound (adds uid argv cooldown now) m v = add-Sound uid argv cooldown now m v
  step-Sound (removes uid) m v =
      tables-IsSound (remove_unit hp uid m.tables) m v (remove-IsValid hp uid m.tables v.tables_ok)
        (remove-live hp uid m.tables)
  step-Sound (limits max_pre max_on) m v = set_limits-Sound max_pre max_on m v
  step-Sound (polls outcome now) m v = poll-Sound hp outcome now m v
  step-Sound (advances signal pid now) m v = advance-Sound hp signal pid now m v

  continue-Sound :
      (r : Run (Manager2 H)) (k : Manager2 H → Run (Manager2 H))
      → Sound hp r
      → ((m : Manager2 H) → IsSound hp m → Sound hp (k m))
      → Sound hp (continue hp r k)
  continue-Sound (done m) k v then_ok = then_ok m v
  continue-Sound no_pid k v then_ok = v
  continue-Sound slot_panic k v then_ok = v
  continue-Sound limit_panic k v then_ok = v

  run-Sound : (actions : List Action) (m : Manager2 H) → IsSound hp m → Sound hp (run hp actions m)
  unfolding run
  run-Sound [] m v = v
  run-Sound (a ∷ rest) m v =
      continue-Sound (step hp a m) (λ t. run hp rest t) (step-Sound a m v)
        (λ t w. run-Sound rest t w)

  -- From a new manager with any limits, calls of `Add`, `Remove` and `UpdateLimits`, rounds of the
  -- main loop and steps of the supervisors never make a slot pool panic, in any order; and unless
  -- `alloc` or `UpdateLimits` panics, the tables agree in the end and the owners of the slots of
  -- each pool are exactly the supervisors whose phase holds one.
  pub run-new-Sound :
      (logs : LogManager) (max_preflight max_onflight : ℤ) (actions : List Action)
      → Sound hp (run hp actions (new_process_manager2 hp logs max_preflight max_onflight))
  unfolding new_process_manager2 new_slot_pool new_tables lookup
  run-new-Sound logs max_preflight max_onflight actions = run-Sound actions _ (record {
    tables_ok = new_tables-IsValid hp logs;
    supervised = λ p. refl;
    pre = λ p. refl;
    on = λ p. refl;
  })
