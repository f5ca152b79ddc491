-- ===== src/ProcessMgr/Manager2.antt =====
-- internal/infrastructure/processmgr/process_manager2.go: the process manager of a client, in which
-- slots limit the processes that warm up and those that are active. The lock makes each call atomic;
-- a supervisor goroutine takes and returns slots between its calls, so each such step is one action.
pub mod Phases
pub mod Steps
pub mod Polls
pub mod Laws
use zmux_server.Base.{
  ℕ, List, [], ◌∷◌, Bytes, Bool, true, false, Option, none, some, if◌then◌else◌, ltb, nat_eq, Map,
  lookup, insert, delete,
}
use zmux_server.Base.Int.{ℤ}
use zmux_server.ProcessMgr.LogManager.{LogManager, get}
use zmux_server.ProcessMgr.SlotPool.{
  SlotPool, new_slot_pool, Outcome, ok, panic, blocked, try_acquire, release,
}
use zmux_server.ProcessMgr.Heap.{Heap, Event}
use zmux_server.ProcessMgr.Scheduler.{next, pop}
use zmux_server.ProcessMgr.Tables.{
  Spec, Tables, Launch, not_made, not_started, or_spec, new_tables, launch_spec, settle,
}
use zmux_server.ProcessMgr.Tables.{add as add_unit}
use zmux_server.ProcessMgr.Tables.{remove as remove_unit}
use zmux_server.ProcessMgr.Limits.{update_limits}

-- Where the supervisor of a process stands in `superviseInstance`.
pub data Phase : Type 0 where
  -- waits for `Ready` or `Done`
  warming : Phase
  -- was refused, or its process is gone: about to return the preflight slot
  stopping : Phase
  -- has the onflight slot: about to return the preflight slot
  promoted : Phase
  -- about to call `Enter`
  entering : Phase
  -- waits for `Done`
  active : Phase
  -- about to return the onflight slot
  leaving : Phase
  -- about to run `handleExit`
  exiting : Phase

-- `ProcessManager2`
pub record Manager2 (H : Type 0) : Type 0 where
  pub tables : Tables H
  pub preflight : SlotPool
  pub onflight : SlotPool
  pub phases : Map ℕ Phase

-- What a step gives: a panic of `alloc`, of a slot pool, or of `UpdateLimits`.
pub data Run (A : Type 0) : Type 0 where
  done : A → Run A
  no_pid slot_panic limit_panic : Run A

-- A call of a slot pool. Those that are made here do not block.
abbrev pub slot : {A B : Type 0} → Outcome A → (A → Run B) → Run B
slot (ok a) k = k a
slot panic k = slot_panic
slot blocked k = slot_panic

abbrev pub or_no_pid : {H : Type 0} → Manager2 H → Option (Tables H) → Run (Manager2 H)
or_no_pid m none = no_pid
or_no_pid m (some t) = done (record m { tables = t })

module _ {H : Type 0} (hp : Heap H) where
  -- `NewProcessManager2`
  unfoldable pub new_process_manager2 : LogManager → ℤ → ℤ → Manager2 H
  new_process_manager2 logs max_preflight max_onflight = record {
    tables = new_tables hp logs;
    preflight = new_slot_pool max_preflight;
    onflight = new_slot_pool max_onflight;
    phases = [];
  }

  -- `Add`
  unfoldable pub add : ℕ → List Bytes → ℕ → ℕ → Manager2 H → Run (Manager2 H)
  add uid argv cooldown now m =
      or_no_pid m
        (add_unit hp (record { unit_id = uid; argv = argv; cooldown = cooldown }) now m.tables)

  -- `Remove`
  unfoldable pub remove : ℕ → Manager2 H → Manager2 H
  remove uid m = record m { tables = remove_unit hp uid m.tables }

  -- `launchProcessUnsafe`, given the spec: a launch that fails returns the slot.
  unfoldable pub launch_slot : Spec → ℕ → Launch → ℕ → Manager2 H → Run (Manager2 H)
  launch_slot spec pid Launch.running now m = done (record m {
    tables = launch_spec hp spec pid Launch.running now m.tables;
    phases = insert pid warming m.phases;
  })
  launch_slot spec pid not_made now m = slot (release m.preflight pid) (λ s.
      done (record m { tables = launch_spec hp spec pid not_made now m.tables; preflight = s }))
  launch_slot spec pid not_started now m = slot (release m.preflight pid) (λ s.
      done (record m { tables = launch_spec hp spec pid not_started now m.tables; preflight = s }))

  unfoldable pub launch : ℕ → Launch → ℕ → Manager2 H → Run (Manager2 H)
  launch pid outcome now m = launch_slot (or_spec (lookup pid m.tables.specs)) pid outcome now m

  -- Once `tryAcquire` has returned.
  abbrev pub poll_taken : Event → Launch → ℕ → Manager2 H → SlotPool × Bool → Run (Manager2 H)
  poll_taken ev outcome now m (s, false) = done (record m { preflight = s })
  poll_taken ev outcome now m (s, true) =
      launch ev.id outcome now
        (record m { tables = record (m.tables) { sched = pop hp m.tables.sched }; preflight = s })

  abbrev pub poll_at : Option Event → Launch → ℕ → Manager2 H → Run (Manager2 H)
  poll_at none outcome now m = done m
  poll_at (some ev) outcome now m =
      if ltb now ev.when
      then done m
      else slot (try_acquire m.preflight ev.id) (λ r. poll_taken ev outcome now m r)

  -- A round of `mainloop` under the lock. The waits for free slots before it only delay it, since the
  -- limits may change again before the lock is taken.
  unfoldable pub poll : Launch → ℕ → Manager2 H → Run (Manager2 H)
  poll outcome now m = poll_at (next hp m.tables.sched) outcome now m

  -- `handleExit`, with the restart delay of the spec on record
  unfoldable pub handle_exit : ℕ → ℕ → ℕ → Manager2 H → Manager2 H
  handle_exit pid uid now m = record m {
    tables = settle hp pid uid (or_spec (lookup pid m.tables.specs)).cooldown now m.tables;
    phases = delete pid m.phases;
  }

  abbrev pub set_phase : ℕ → Phase → Manager2 H → Manager2 H
  set_phase pid ph m = record m { phases = insert pid ph m.phases }

-- What a supervisor meets: a channel of the process, the result of `Enter`, or nothing to wait for.
pub data Signal : Type 0 where
  ready died entered not_entered ended go : Signal

module _ {H : Type 0} (hp : Heap H) where
  -- After `onflight.tryAcquire`
  abbrev pub promote : ℕ → Manager2 H → SlotPool × Bool → Run (Manager2 H)
  promote pid m (s, false) = done (set_phase hp pid stopping (record m { onflight = s }))
  promote pid m (s, true) = done (set_phase hp pid promoted (record m { onflight = s }))

  -- One step of `superviseInstance`. A signal that the phase does not wait for changes nothing.
  unfoldable pub advance_from : Phase → Signal → ℕ → ℕ → Manager2 H → Run (Manager2 H)
  advance_from warming ready pid now m = slot (try_acquire m.onflight pid) (λ r. promote pid m r)
  advance_from warming died pid now m = done (set_phase hp pid stopping m)
  advance_from stopping go pid now m =
      slot (release m.preflight pid)
        (λ s. done (set_phase hp pid exiting (record m { preflight = s })))
  advance_from promoted go pid now m =
      slot (release m.preflight pid)
        (λ s. done (set_phase hp pid entering (record m { preflight = s })))
  advance_from entering entered pid now m = done (set_phase hp pid active m)
  advance_from entering not_entered pid now m = done (set_phase hp pid leaving m)
  advance_from active ended pid now m = done (set_phase hp pid leaving m)
  advance_from leaving go pid now m =
      slot (release m.onflight pid)
        (λ s. done (set_phase hp pid exiting (record m { onflight = s })))
  advance_from exiting go pid now m =
      done (handle_exit hp pid (or_spec (lookup pid m.tables.live)).unit_id now m)
  advance_from ph signal pid now m = done m

  abbrev pub advance_at : Option Phase → Signal → ℕ → ℕ → Manager2 H → Run (Manager2 H)
  advance_at none signal pid now m = done m
  advance_at (some ph) signal pid now m = advance_from ph signal pid now m

  unfoldable pub advance : Signal → ℕ → ℕ → Manager2 H → Run (Manager2 H)
  advance signal pid now m = advance_at (lookup pid m.phases) signal pid now m

  abbrev pub limited : Manager2 H → Option (SlotPool × SlotPool × List ℕ) → Run (Manager2 H)
  limited m none = limit_panic
  limited m (some r) = done (record m { preflight = r.0; onflight = r.1 })

  -- `UpdateLimits`; closing the processes in excess changes nothing here.
  unfoldable pub set_limits : ℤ → ℤ → Manager2 H → Run (Manager2 H)
  set_limits max_pre max_on m = limited m (update_limits max_pre max_on m.preflight m.onflight)

-- What can happen to the manager.
pub data Action : Type 0 where
  adds : ℕ → List Bytes → ℕ → ℕ → Action
  removes : ℕ → Action
  limits : ℤ → ℤ → Action
  polls : Launch → ℕ → Action
  advances : Signal → ℕ → ℕ → Action

module _ {H : Type 0} (hp : Heap H) where
  unfoldable pub step : Action → Manager2 H → Run (Manager2 H)
  step (adds uid argv cooldown now) m = add hp uid argv cooldown now m
  step (removes uid) m = done (remove hp uid m)
  step (limits max_pre max_on) m = set_limits hp max_pre max_on m
  step (polls outcome now) m = poll hp outcome now m
  step (advances signal pid now) m = advance hp signal pid now m

  abbrev pub continue : Run (Manager2 H) → (Manager2 H → Run (Manager2 H)) → Run (Manager2 H)
  continue (done m) k = k m
  continue no_pid k = no_pid
  continue slot_panic k = slot_panic
  continue limit_panic k = limit_panic

  unfoldable pub run : List Action → Manager2 H → Run (Manager2 H)
  run [] m = done m
  run (a ∷ rest) m = continue (step a m) (λ t. run rest t)
