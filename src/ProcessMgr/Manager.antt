-- ===== src/ProcessMgr/Manager.antt =====
-- internal/infrastructure/processmgr/process_manager.go: the process manager of the channels without
-- a client. Its lock makes each call, each round of the main loop and each exit handler atomic.
pub mod Laws
pub mod Leaks
use zmux_server.Base.{
  ℕ, List, [], ◌∷◌, Bytes, Option, none, some, if◌then◌else◌, ltb, nat_eq, lookup,
}
use zmux_server.ProcessMgr.LogManager.{LogManager}
use zmux_server.ProcessMgr.Heap.{Heap, Event}
use zmux_server.ProcessMgr.Scheduler.{next, pop}
use zmux_server.ProcessMgr.Tables.{Spec, Tables, Launch, or_spec, new_tables, launch_spec, settle}
use zmux_server.ProcessMgr.Tables.{add as add_unit}
use zmux_server.ProcessMgr.Tables.{remove as remove_unit}

module _ {H : Type 0} (hp : Heap H) where
  -- `NewProcessManager`
  unfoldable pub new_process_manager : LogManager → Tables H
  new_process_manager logs = new_tables hp logs

  -- `Add` at the time `now`: `none` is the panic of `alloc`.
  unfoldable pub add : ℕ → List Bytes → ℕ → ℕ → Tables H → Option (Tables H)
  add uid argv cooldown now m =
      add_unit hp (record { unit_id = uid; argv = argv; cooldown = cooldown }) now m

  -- `Remove`
  unfoldable pub remove : ℕ → Tables H → Tables H
  remove uid m = remove_unit hp uid m

  -- `launchProcessUnsafe`
  unfoldable pub launch : ℕ → Launch → ℕ → Tables H → Tables H
  launch pid outcome now m = launch_spec hp (or_spec (lookup pid m.specs)) pid outcome now m

  abbrev pub poll_at : Option Event → Launch → ℕ → Tables H → Tables H
  poll_at none outcome now m = m
  poll_at (some ev) outcome now m =
      if ltb now ev.when then m else launch ev.id outcome now (record m { sched = pop hp m.sched })

  -- A round of `mainloop` under the lock.
  unfoldable pub poll : Launch → ℕ → Tables H → Tables H
  poll outcome now m = poll_at (next hp m.sched) outcome now m

  abbrev pub exit_at : Option Spec → ℕ → ℕ → Tables H → Tables H
  exit_at none pid now m = m
  exit_at (some spec) pid now m = settle hp pid spec.unit_id spec.cooldown now m

  -- The exit handler of the process with a PID.
  unfoldable pub exit : ℕ → ℕ → Tables H → Tables H
  exit pid now m = exit_at (lookup pid m.live) pid now m

-- What can happen to the manager, with the time.
pub data Action : Type 0 where
  adds : ℕ → List Bytes → ℕ → ℕ → Action
  removes : ℕ → Action
  polls : Launch → ℕ → Action
  exits : ℕ → ℕ → Action

module _ {H : Type 0} (hp : Heap H) where
  unfoldable pub step : Action → Tables H → Option (Tables H)
  step (adds uid argv cooldown now) m = add hp uid argv cooldown now m
  step (removes uid) m = some (remove hp uid m)
  step (polls outcome now) m = some (poll hp outcome now m)
  step (exits pid now) m = some (exit hp pid now m)

  abbrev pub continue : Option (Tables H) → (Tables H → Option (Tables H)) → Option (Tables H)
  continue none k = none
  continue (some m) k = k m

  -- A sequence of actions; `none` once one panics.
  unfoldable pub run : List Action → Tables H → Option (Tables H)
  run [] m = some m
  run (a ∷ rest) m = continue (step a m) (λ t. run rest t)
