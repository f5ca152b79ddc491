-- ===== src/Tests/Heaps.antt =====
-- A heap of two events.
use zmux_server.ProcessMgr.EventHeap.Swaps.{exchanged, swap_lem}
use zmux_server.Base.{ℕ, ◌≡◌, ◌⊎◌, some, none, true, is_some, get_elem?, List, [], ◌∷◌, refl}
use zmux_server.Base.Int.{pos}
use zmux_server.ProcessMgr.EventHeap.{SchedEvent, swap, push, pop}
use zmux_server.ProcessMgr.EventHeap.Laws.{
  Call, swaps, pushes, pops, step, run, IsIndexed, run-IsIndexed,
}

abbrev some_calls : List Call
some_calls = pushes 3 10 ∷ pushes 7 5 ∷ swaps 0 1 ∷ pops ∷ []

abbrev left : List SchedEvent
left = record { id = 7; when = 5; index = pos 0 } ∷ []

run-IsIndexed_example : IsIndexed left
unfolding run step swap push pop
run-IsIndexed_example = run-IsIndexed some_calls [] left (λ k ev e. absurd (cc e)) refl

abbrev two_events : List SchedEvent
two_events =
    record { id = 3; when = 10; index = pos 0 } ∷ record { id = 7; when = 5; index = pos 1 } ∷ []

swap_lem_example :
    ((swap 0 1 two_events ≡ none)
      × ((get_elem? two_events 0 ≡ none) ⊎ (get_elem? two_events 1 ≡ none)))
    ⊎ ((t : List SchedEvent) × (swap 0 1 two_events ≡ some t)
        × (is_some (get_elem? two_events 0) ≡ true)
        × (is_some (get_elem? two_events 1) ≡ true)
        × ((k : ℕ) → get_elem? t k ≡ exchanged 0 1 two_events k))
swap_lem_example = swap_lem 0 1 two_events
