-- ===== src/ProcessMgr/SlotPool.antt =====
-- internal/infrastructure/processmgr/slot_pool.go: a semaphore whose slots have owners. The mutex
-- makes each call atomic. A panic is the result `panic`; a blocked `acquire` is `blocked`.
pub mod Laws
pub mod Waiting
use zmux_server.Base.{
  ℕ, Bool, true, false, List, [], Option, none, some, nat_eq, if◌then◌else◌, Map, lookup, insert,
  delete, keys,
}
use zmux_server.Base.Int.{ℤ, pos, negsuc, incr, decr, leb_ℤ, ltb_ℤ}

pub record SlotPool : Type 0 where
  pub max_cap : ℤ
  pub usage : ℤ
  pub acquired_by : Map ℕ (Unit {0})

unfoldable pub new_slot_pool : ℤ → SlotPool
new_slot_pool max = record { max_cap = max; usage = pos 0; acquired_by = [] }

-- What a call gives back.
pub data Outcome {ℓ} (A : Type ℓ) : Type ℓ where
  ok : A → Outcome A
  panic : Outcome A
  -- `s.cond.Wait()`: the state is left as it is, and the test is made again after a wake-up
  blocked : Outcome A

-- `s.usage++; s.acquiredBy[id] = struct{}{}`
unfoldable pub take_slot : SlotPool → ℕ → SlotPool
take_slot s id = record s { usage = incr s.usage; acquired_by = insert id tt s.acquired_by }

-- One round of the loop of `acquire`, at its start or after a wake-up: the capacity alone is tested.
unfoldable pub acquire_round : SlotPool → ℕ → Outcome SlotPool
unfolding take_slot
acquire_round s id = if leb_ℤ s.max_cap s.usage then blocked else ok (take_slot s id)

-- `acquire`, up to its end or its first wait: the owner is tested once, before the loop.
unfoldable pub acquire : SlotPool → ℕ → Outcome SlotPool
unfolding acquire_round
acquire s id = elim (lookup id s.acquired_by) [ some _ ↦ panic | none ↦ acquire_round s id ]

unfoldable pub try_acquire : SlotPool → ℕ → Outcome (SlotPool × Bool)
unfolding take_slot
try_acquire s id = elim (lookup id s.acquired_by) [
  | some _ ↦ panic
  | none ↦ if leb_ℤ s.max_cap s.usage then ok (s, false) else ok (take_slot s id, true)
]

-- One round of `waitSlot`.
unfoldable pub wait_slot : SlotPool → Outcome SlotPool
wait_slot s = if leb_ℤ s.max_cap s.usage then blocked else ok s

unfoldable pub release : SlotPool → ℕ → Outcome SlotPool
release s id = elim (lookup id s.acquired_by) [
  | none ↦ panic
  | some _ ↦ ok (record s { acquired_by = delete id s.acquired_by; usage = decr s.usage })
]

-- Go returns the owners in no fixed order.
unfoldable pub list_acquired : SlotPool → List ℕ
list_acquired s = keys s.acquired_by

unfoldable pub update_limit : SlotPool → ℤ → SlotPool
update_limit s new_cap = record s { max_cap = if ltb_ℤ new_cap (pos 0) then pos 0 else new_cap }

unfoldable pub capacity : SlotPool → ℤ
capacity s = s.max_cap

unfoldable pub current : SlotPool → ℤ
current s = s.usage
