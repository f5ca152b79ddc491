-- ===== src/ProcessMgr/Heap.antt =====
-- What internal/infrastructure/processmgr/scheduler.go relies on in container/heap, over its heap of
-- events: an event for each id, with the time when it is due.
pub mod Earliest
pub mod Table
use zmux_server.Base.{
  ℕ, ◌≤◌, ◌≡◌, refl, ap, sym, ◌∙◌, Bool, true, false, List, [], ◌∷◌, Option, none, some,
  if◌then◌else◌, leb, nat_eq, nat_beq_iff, ◌==◌, Map, lookup, insert, delete, lookup-insert,
  lookup-delete, Bool-cases, Option-cases, Distinct, insert-Distinct, delete-Distinct, inl, inr,
  arith,
}
use zmux_server.ProcessMgr.EventHeap.{before}

-- `schedEvent` as the scheduler uses it; its index is what `Remove` finds the event by (EventHeap),
-- so here the id stands for it.
pub record Event : Type 0 where
  pub id : ℕ
  pub when : ℕ

-- The heap as the scheduler uses it: `Push`, `h[0]`, `Pop` and `Remove`. `due` is what the heap holds
-- under an id. Which of several events with one time comes first is left open; `h[0]` is one before
-- which, for `Less`, no event comes.
pub record Heap (H : Type 0) : Type 0 where
  pub nothing : H
  pub push : Event → H → H
  pub top : H → Option Event
  pub pop : H → H
  pub remove : ℕ → H → H
  pub due : ℕ → H → Option ℕ
  pub due-nothing : (j : ℕ) → due j nothing ≡ none
  pub due-push :
      (ev : Event) (h : H) (j : ℕ)
      → due ev.id h ≡ none
      → due j (push ev h) ≡ (if ev.id == j then some ev.when else due j h)
  pub due-remove : (i : ℕ) (h : H) (j : ℕ) → due j (remove i h) ≡ (if i == j then none else due j h)
  pub due-pop :
      (ev : Event) (h : H) (j : ℕ)
      → top h ≡ some ev
      → due j (pop h) ≡ (if ev.id == j then none else due j h)
  pub due-top : (ev : Event) (h : H) → top h ≡ some ev → due ev.id h ≡ some ev.when
  pub top-least :
      (ev : Event) (h : H) (j t : ℕ) → top h ≡ some ev → due j h ≡ some t → before t ev.when ≡ false
  pub top-none : (h : H) (j : ℕ) → top h ≡ none → due j h ≡ none
