-- ===== src/ProcessMgr/EventHeap.antt =====
-- internal/infrastructure/processmgr/scheduler.go: `eventHeap`, the methods that container/heap works
-- with. The events are the objects of the slice, so each stands in it once.
pub mod Laws
pub mod Swaps
use zmux_server.Base.{
  ℕ, zero, suc, ◌-◌, Bool, List, [], ◌∷◌, ◌++◌, Option, none, some, get_elem?, length, ltb, take,
}
use zmux_server.Base.Int.{ℤ, pos, negsuc}

-- `schedEvent`
pub record SchedEvent : Type 0 where
  pub id : ℕ
  pub when : ℕ
  pub index : ℤ

abbrev pub update_at : ℕ → (SchedEvent → SchedEvent) → List SchedEvent → List SchedEvent
update_at i f [] = []
update_at zero f (x ∷ xs) = f x ∷ xs
update_at (suc i) f (x ∷ xs) = x ∷ update_at i f xs

-- `h[i].index = i`
abbrev pub mark : ℕ → List SchedEvent → List SchedEvent
mark i h = update_at i (λ ev. record ev { index = pos i }) h

-- `Len`
unfoldable pub heap_length : List SchedEvent → ℕ
heap_length h = length h

-- `time.Time.Before`, on times as numbers
abbrev pub before : ℕ → ℕ → Bool
before a b = ltb a b

abbrev pub less_of : Option SchedEvent → Option SchedEvent → Option Bool
less_of none b = none
less_of (some a) none = none
less_of (some a) (some b) = some (before a.when b.when)

-- `Less`; `none` is the panic of an index out of range, here and below.
unfoldable pub less : ℕ → ℕ → List SchedEvent → Option Bool
less i j h = less_of (get_elem? h i) (get_elem? h j)

abbrev pub swap_of :
    Option SchedEvent → Option SchedEvent → ℕ → ℕ → List SchedEvent → Option (List SchedEvent)
swap_of none b i j h = none
swap_of (some a) none i j h = none
swap_of (some a) (some b) i j h =
    some (mark j (mark i (update_at j (λ _. a) (update_at i (λ _. b) h))))

-- `Swap`
unfoldable pub swap : ℕ → ℕ → List SchedEvent → Option (List SchedEvent)
swap i j h = swap_of (get_elem? h i) (get_elem? h j) i j h

-- `Push`
unfoldable pub push : SchedEvent → List SchedEvent → List SchedEvent
push ev h = h ++ (record ev { index = pos (length h) } ∷ [])

abbrev pub pop_of : Option SchedEvent → List SchedEvent → Option (SchedEvent × List SchedEvent)
pop_of none h = none
pop_of (some ev) h = some (record ev { index = negsuc 0 }, take (length h - 1) h)

abbrev pub last : List SchedEvent → Option SchedEvent
last [] = none
last (x ∷ xs) = get_elem? (x ∷ xs) (length xs)

-- `Pop`
unfoldable pub pop : List SchedEvent → Option (SchedEvent × List SchedEvent)
pop h = pop_of (last h) h
