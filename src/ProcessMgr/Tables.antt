-- ===== src/ProcessMgr/Tables.antt =====
-- The tables that both process managers keep under their lock: internal/infrastructure/processmgr,
-- process_manager.go, and process_manager2.go, which repeats these parts of it.
pub mod Status
pub mod Units
pub mod Launching
pub mod Settle
use zmux_server.Base.{
  ℕ, ◌+◌, Bool, true, false, List, [], ◌∷◌, Option, none, some, Bytes, if◌then◌else◌, nat_eq, ◌==◌,
  Map, lookup, insert, delete,
}
use zmux_server.ProcessMgr.LogManager.{LogManager, get}
use zmux_server.ProcessMgr.PidAllocator.{
  PidAllocator, Alloc, allocated, exhausted, unfinished, alloc, new_pid_allocator,
}
use zmux_server.ProcessMgr.PidAllocator.{release as release_pid}
use zmux_server.ProcessMgr.Heap.{Heap}
use zmux_server.ProcessMgr.Scheduler.{Scheduler, new_scheduler, push}
use zmux_server.ProcessMgr.Scheduler.{remove as unschedule}

-- `execSpec`
pub record Spec : Type 0 where
  pub unit_id : ℕ
  pub argv : List Bytes
  pub cooldown : ℕ

-- `ps` says which PIDs have a process on record; `live` holds the goroutines that wait for the end of
-- a process, each with the spec that it got.
pub record Tables (H : Type 0) : Type 0 where
  pub logs : LogManager
  pub units : Map ℕ ℕ
  pub specs : Map ℕ Spec
  pub ps : Map ℕ (Unit {0})
  pub gen : PidAllocator
  pub sched : Scheduler H
  pub live : Map ℕ Spec

-- `m.specs[pid]`, the zero value for a missing one
abbrev pub or_spec : Option Spec → Spec
or_spec none = record { unit_id = 0; argv = []; cooldown = 0 }
or_spec (some s) = s

-- How a launch goes: `newProcess` fails, `Start` fails, or the process runs.
pub data Launch : Type 0 where
  not_made not_started running : Launch

module _ {H : Type 0} (hp : Heap H) where
  unfoldable pub new_tables : LogManager → Tables H
  new_tables logs = record {
    logs = logs;
    units = [];
    specs = [];
    ps = [];
    gen = new_pid_allocator;
    sched = new_scheduler hp;
    live = [];
  }

  -- `scheduleUnsafe` at the time `now`
  unfoldable pub schedule : ℕ → ℕ → ℕ → Tables H → Tables H
  schedule pid after now m = record m { sched = push hp pid (now + after) m.sched }

  -- `Add` of a new unit, once the PID is there
  unfoldable pub add_pid : ℕ → Spec → ℕ → PidAllocator → Tables H → Tables H
  unfolding schedule
  add_pid pid spec now gen m = schedule pid 0 now (record m {
    gen = gen;
    units = insert spec.unit_id pid m.units;
    specs = insert pid spec m.specs;
  })

  abbrev pub add_alloc : Alloc → Spec → ℕ → Tables H → Option (Tables H)
  add_alloc (allocated pid gen) spec now m = some (add_pid pid spec now gen m)
  add_alloc exhausted spec now m = none
  add_alloc unfinished spec now m = none

  abbrev pub add_at : Option ℕ → Spec → ℕ → Tables H → Option (Tables H)
  add_at (some pid) spec now m = some m
  add_at none spec now m = add_alloc (alloc m.gen) spec now m

  -- `Add`: `none` is the panic of `alloc`.
  unfoldable pub add : Spec → ℕ → Tables H → Option (Tables H)
  add spec now m = add_at (lookup spec.unit_id m.units) spec now m

  unfoldable pub remove_pid : ℕ → ℕ → Tables H → Tables H
  remove_pid uid pid m = record m {
    units = delete uid m.units;
    specs = delete pid m.specs;
    ps = delete pid m.ps;
    sched = unschedule hp pid m.sched;
  }

  abbrev pub remove_at : Option ℕ → ℕ → Tables H → Tables H
  remove_at none uid m = m
  remove_at (some pid) uid m = remove_pid uid pid m

  -- `Remove`; that it closes the process is not part of the tables.
  unfoldable pub remove : ℕ → Tables H → Tables H
  remove uid m = remove_at (lookup uid m.units) uid m

  -- `launchProcessUnsafe`, given the spec. That a process is put on record and taken off again is
  -- one call under the lock.
  unfoldable pub launch_spec : Spec → ℕ → Launch → ℕ → Tables H → Tables H
  launch_spec spec pid outcome now m =
      let logged = record m { logs = (get spec.unit_id m.logs).1 } in
      elim outcome [
        | not_made ↦ schedule pid spec.cooldown now logged
        | not_started ↦
            schedule pid spec.cooldown now (record logged { ps = delete pid (insert pid tt m.ps) })
        | running ↦ record logged { ps = insert pid tt m.ps; live = insert pid spec m.live }
      ]

  -- What the goroutine of a process does under the lock once the process has ended.
  abbrev pub settle_at : Option ℕ → ℕ → ℕ → ℕ → Tables H → Tables H
  settle_at none pid cooldown now m = record m { gen = release_pid m.gen pid }
  settle_at (some current) pid cooldown now m =
      if current == pid
      then schedule pid cooldown now m
      else record m { gen = release_pid m.gen pid }

  unfoldable pub settle : ℕ → ℕ → ℕ → ℕ → Tables H → Tables H
  settle pid uid cooldown now m =
      settle_at (lookup uid m.units) pid cooldown now
        (record m { ps = delete pid m.ps; live = delete pid m.live })
