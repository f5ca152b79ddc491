-- ===== src/ProcessMgr/Scheduler/Effects.antt =====
-- What each call of the scheduler (scheduler.go) does to the times for which ids are scheduled.
use zmux_server.Base.{ℕ, ◌≤◌, ◌≡◌, List, [], ◌∷◌, Option, none, some, if◌then◌else◌, nat_eq, ◌==◌}
use zmux_server.ProcessMgr.Heap.{Event, Heap}
use zmux_server.ProcessMgr.Scheduler.{Scheduler, remove, push, next, pop}
use zmux_server.ProcessMgr.Scheduler.Laws.{due_at}

-- A call that changes the scheduler.
pub data Call : Type 0 where
  pushes : ℕ → ℕ → Call
  removes : ℕ → Call
  pops : Call

-- The times for which ids are scheduled.
abbrev Times : Type 0
Times = ℕ → Option ℕ

-- The time of one id is set and all others are kept.
abbrev Sets : ℕ → Option ℕ → Times → Times → Type 0
Sets i o f g = (j : ℕ) → g j ≡ (if i == j then o else f j)

-- An id is not scheduled, or not before a time.
abbrev NotBefore : ℕ → Option ℕ → Type 0
NotBefore w none = Unit
NotBefore w (some t) = w ≤ t

-- What a call does to the times, given the event that `next` showed before it.
abbrev Effect : Call → Option Event → Times → Times → Type 0
Effect (pushes id when) shown f g = Sets id (some when) f g
Effect (removes id) shown f g = Sets id none f g
Effect pops none f g = (j : ℕ) → (f j ≡ none) × (g j ≡ none)
Effect pops (some ev) f g =
    (f ev.id ≡ some ev.when) × ((j : ℕ) → NotBefore ev.when (f j)) × Sets ev.id none f g

module _ {H : Type 0} (hp : Heap H) where
  abbrev step : Call → Scheduler H → Scheduler H
  step (pushes id when) s = push hp id when s
  step (removes id) s = remove hp id s
  step pops s = pop hp s

  -- Each of a sequence of calls has its effect.
  abbrev pub HaveEffects : List Call → Scheduler H → Type 0
  HaveEffects [] s = Unit
  HaveEffects (c ∷ cs) s =
      Effect c (next hp s) (due_at s) (due_at (step c s)) × HaveEffects cs (step c s)
