-- ===== src/ProcessMgr/SlotPool/Waiting.antt =====
-- A slot pool (processmgr/slot_pool.go) with the calls of `acquire` that wait for a slot. Each call
-- is atomic up to a wait. A waiting call may be woken at any time, which includes every wake-up by
-- `Signal` and `Broadcast`.
pub mod Laws
use zmux_server.Base.{
  ℕ, ◌≡◌, refl, ap, sym, ◌∙◌, Bool, true, false, List, [], ◌∷◌, Option, none, some, nat_eq, ◌==◌,
  nat_beq_iff, if◌then◌else◌, lookup, Bool-cases, Option-cases, inl, inr, is_some, subst,
}
use zmux_server.Base.Int.{ℤ, leb_ℤ}
use zmux_server.ProcessMgr.SlotPool.{
  SlotPool, Outcome, ok, panic, blocked, take_slot, acquire, acquire_round, try_acquire, release,
  update_limit,
}
use zmux_server.ProcessMgr.SlotPool.Laws.{
  IsValid, holds, take_slot-IsValid, try_acquire-IsValid, release-IsValid, holds-insert,
  try_acquire_lem, release_lem,
}

-- A slot pool, and the ids of the calls of `acquire` that wait.
pub record Pool : Type 0 where
  pub slots : SlotPool
  pub waiting : List ℕ

-- A call, or a wake-up of a waiting `acquire` of an id.
pub data Call : Type 0 where
  acquires tries releases wakes : ℕ → Call
  limits : ℤ → Call

abbrev pub waits : ℕ → List ℕ → Bool
waits id [] = false
waits id (x ∷ xs) = if x == id then true else waits id xs

abbrev pub remove_one : ℕ → List ℕ → List ℕ
remove_one id [] = []
remove_one id (x ∷ xs) = if x == id then xs else x ∷ remove_one id xs

abbrev pub entered : Outcome SlotPool → ℕ → Pool → Option Pool
entered (ok t) id p = some (record p { slots = t })
entered panic id p = none
entered blocked id p = some (record p { waiting = id ∷ p.waiting })

abbrev pub woken : Outcome SlotPool → ℕ → Pool → Option Pool
woken (ok t) id p = some (record { slots = t; waiting = remove_one id p.waiting })
woken panic id p = none
woken blocked id p = some p

abbrev pub tried : Outcome (SlotPool × Bool) → Pool → Option Pool
tried (ok (t, _)) p = some (record p { slots = t })
tried panic p = none
tried blocked p = some p

abbrev pub released : Outcome SlotPool → Pool → Option Pool
released (ok t) p = some (record p { slots = t })
released panic p = none
released blocked p = some p

-- The pool after a call or a wake-up; `none` when the call panics.
unfoldable pub step : Call → Pool → Option Pool
step (acquires id) p = entered (acquire p.slots id) id p
step (tries id) p = tried (try_acquire p.slots id) p
step (releases id) p = released (release p.slots id) p
step (wakes id) p = if waits id p.waiting then woken (acquire_round p.slots id) id p else some p
step (limits n) p = some (record p { slots = update_limit p.slots n })

unfoldable pub run : List Call → Pool → Option Pool
run [] p = some p
run (c ∷ cs) p = elim (step c p) [ none ↦ none | some t ↦ run cs t ]

-- No slot is asked for under an id whose `acquire` waits.
abbrev pub IsFresh : Call → Pool → Type 0
IsFresh (acquires id) p = waits id p.waiting ≡ false
IsFresh (tries id) p = waits id p.waiting ≡ false
IsFresh (releases id) p = Unit
IsFresh (wakes id) p = Unit
IsFresh (limits n) p = Unit

abbrev pub AreFresh : List Call → Pool → Type 0
AreFresh [] p = Unit
AreFresh (c ∷ cs) p = IsFresh c p × elim (step c p) [ none ↦ Unit | some t ↦ AreFresh cs t ]

abbrev pub Once : List ℕ → Type 0
Once [] = Unit
Once (x ∷ xs) = (waits x xs ≡ false) × Once xs

-- No waiting id owns a slot.
abbrev pub IsOutside : List ℕ → SlotPool → Type 0
IsOutside xs s = (j : ℕ) → waits j xs ≡ true → holds s j ≡ false

-- The count is the number of owners, no id waits twice, and no waiting id owns a slot.
pub record IsExact (p : Pool) : Type 0 where
  pub valid : IsValid p.slots
  pub once : Once p.waiting
  pub outside : IsOutside p.waiting p.slots
