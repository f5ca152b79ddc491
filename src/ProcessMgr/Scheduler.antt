-- ===== src/ProcessMgr/Scheduler.antt =====
-- internal/infrastructure/processmgr/scheduler.go: the pending events, at most one for a PID.
pub mod Laws
pub mod Effects
use zmux_server.Base.{ℕ, [], Option, none, some, nat_eq, Map, lookup, insert, delete}
use zmux_server.ProcessMgr.Heap.{Event, Heap}

-- `scheduler`; `entries` holds the event of an id.
pub record Scheduler (H : Type 0) : Type 0 where
  pub h : H
  pub entries : Map ℕ Event

module _ {H : Type 0} (hp : Heap H) where
  unfoldable pub new_scheduler : Scheduler H
  new_scheduler = record { h = hp.nothing; entries = [] }

  -- `remove`, given the entry
  abbrev pub remove_entry : Option Event → ℕ → Scheduler H → Scheduler H
  remove_entry none id s = s
  remove_entry (some ev) id s = record { h = hp.remove ev.id s.h; entries = delete id s.entries }

  unfoldable pub remove : ℕ → Scheduler H → Scheduler H
  remove id s = remove_entry (lookup id s.entries) id s

  unfoldable pub push : ℕ → ℕ → Scheduler H → Scheduler H
  unfolding remove
  push id when s =
      let t = remove_entry (lookup id s.entries) id s in
      let ev : Event = record { id = id; when = when } in
      record { h = hp.push ev t.h; entries = insert id ev t.entries }

  -- `h[0]`
  unfoldable pub next : Scheduler H → Option Event
  next s = hp.top s.h

  abbrev pub pop_entry : Option Event → Scheduler H → Scheduler H
  pop_entry none s = s
  pop_entry (some ev) s = record { h = hp.pop s.h; entries = delete ev.id s.entries }

  unfoldable pub pop : Scheduler H → Scheduler H
  pop s = pop_entry (hp.top s.h) s
