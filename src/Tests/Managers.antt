-- ===== src/Tests/Managers.antt =====
-- Process managers with two units, over a heap that is a table of events.
use zmux_server.Base.{
  ℕ, ◌≡◌, refl, true, List, [], ◌∷◌, some, none, Bytes, codes, lookup, nat_eq, insert, delete,
  Option,
}
use zmux_server.Base.Int.{pos}
use zmux_server.ProcessMgr.Heap.Table.{Table, table_heap}
use zmux_server.ProcessMgr.Heap.Earliest.{earliest}
use zmux_server.ProcessMgr.Scheduler.{next, push, pop, new_scheduler}
use zmux_server.ProcessMgr.Scheduler.{remove as remove_event}
use zmux_server.ProcessMgr.Scheduler.Effects.{Call, pushes, removes, pops}
use zmux_server.ProcessMgr.PidAllocator.Laws.{used}
use zmux_server.ProcessMgr.Tables.{
  Tables, Launch, new_tables, add_pid, remove_pid, schedule, launch_spec, settle,
}
use zmux_server.ProcessMgr.Tables.{add as add_unit}
use zmux_server.ProcessMgr.Tables.{remove as remove_unit}
use zmux_server.ProcessMgr.PidAllocator.{alloc, alloc_loop, new_pid_allocator, release}
use zmux_server.ProcessMgr.LogManager.{get}
use zmux_server.ProcessMgr.Manager.{
  new_process_manager, Action, adds, polls, exits, step, run, add, remove, poll, exit, launch,
}
use zmux_server.ProcessMgr.Manager.Laws.{run-new-IsValid, run-IsServed, IsServed}
use zmux_server.ProcessMgr.Manager.Leaks.{remove-leaks}
use zmux_server.ProcessMgr.Manager2.{new_process_manager2, ready, go, entered, ended}
use zmux_server.ProcessMgr.Manager2.{run as run2}
use zmux_server.ProcessMgr.Manager2.{Action as Action2}
use zmux_server.ProcessMgr.Manager2.Laws.{run-new-Sound}
use zmux_server.ProcessMgr.Manager2.Phases.{Sound}

abbrev argv : List Bytes
argv = codes "remux" ∷ []

abbrev some_calls : List Call
some_calls = pushes 3 10 ∷ pushes 7 20 ∷ pushes 3 30 ∷ pops ∷ removes 3 ∷ pops ∷ []

abbrev two_units : List Action
two_units = adds 1 argv 5 0 ∷ adds 2 argv 5 0 ∷ polls Launch.running 1 ∷ exits 1 2 ∷ []

abbrev or_new : Option (Tables Table) → Tables Table
or_new none = new_process_manager table_heap []
or_new (some m) = m

abbrev served : Tables Table
served = or_new (run table_heap two_units (new_process_manager table_heap []))

run-IsServed_example :
    ((used served.gen 1 ≡ true) × IsServed table_heap served 1 1)
    × ((w : ℕ) → lookup w served.units ≡ some 1 → w ≡ 1)
unfolding table_heap run step add remove poll exit launch new_process_manager new_tables add_unit
    remove_unit add_pid schedule launch_spec settle remove_event push next pop new_scheduler
    earliest insert delete lookup alloc alloc_loop new_pid_allocator release get remove_pid
run-IsServed_example = run-IsServed table_heap [] two_units served 1 1 refl refl

-- The first unit waits for its launch, is removed, and is added again.
abbrev waiting : Tables Table
waiting = or_new (run table_heap (adds 1 argv 5 0 ∷ []) (new_process_manager table_heap []))

abbrev later : List Action
later = polls Launch.running 3 ∷ adds 1 argv 5 4 ∷ []

remove-leaks_example :
    used (or_new (run table_heap later (remove table_heap 1 waiting))).gen 1 ≡ true
unfolding table_heap run step add remove poll exit launch new_process_manager new_tables add_unit
    remove_unit add_pid schedule launch_spec settle remove_event push next pop new_scheduler
    earliest insert delete lookup alloc alloc_loop new_pid_allocator release get remove_pid
remove-leaks_example =
    remove-leaks table_heap 1 1 later waiting
      (or_new (run table_heap later (remove table_heap 1 waiting)))
      (run-new-IsValid table_heap [] (adds 1 argv 5 0 ∷ []) waiting refl) refl refl refl

-- A process warms up, is promoted and ends, while a second one is refused a slot.
abbrev two_clients : List Action2
two_clients =
    Action2.adds 1 argv 5 0
    ∷ Action2.adds 2 argv 5 0
    ∷ Action2.polls Launch.running 1
    ∷ Action2.polls Launch.running 1
    ∷ Action2.advances ready 1 2
    ∷ Action2.advances go 1 2
    ∷ Action2.advances entered 1 2
    ∷ Action2.limits (pos 2) (pos 1)
    ∷ Action2.polls Launch.running 3
    ∷ Action2.advances ready 2 4
    ∷ Action2.advances ended 1 5
    ∷ Action2.advances go 1 5
    ∷ Action2.advances go 1 5
    ∷ []

run-new-Sound_example :
    Sound table_heap
      (run2 table_heap two_clients (new_process_manager2 table_heap [] (pos 1) (pos 1)))
run-new-Sound_example = run-new-Sound table_heap [] (pos 1) (pos 1) two_clients
