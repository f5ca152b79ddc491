-- ===== src/ProcessMgr/PidAllocator.antt =====
-- internal/infrastructure/processmgr/pid_allocator.go: process ids from 1 to `pid_max`, handed out in
-- turn with wrap-around. The mutex makes each call atomic.
pub mod Laws
use zmux_server.Base.{
  ℕ, zero, suc, ◌+◌, Bool, List, [], Option, none, some, ◌==◌, nat_eq, ltb, if◌then◌else◌, Map,
  lookup, insert, delete,
}

pub record PidAllocator : Type 0 where
  pub next : ℕ
  pub in_use : Map ℕ (Unit {0})
  pub pid_max : ℕ

unfoldable pub new_pid_allocator : PidAllocator
new_pid_allocator = record { next = 1; in_use = []; pid_max = 32768 }

pub data Alloc : Type 0 where
  allocated : ℕ → PidAllocator → Alloc
  -- the panic "PIDAllocator exhausted"
  exhausted : Alloc
  -- the model's fuel ran out
  unfinished : Alloc

-- `a.next++; if a.next > a.pidMax { a.next = 1 }`
abbrev pub advance : PidAllocator → ℕ
advance a = if ltb a.pid_max (a.next + 1) then 1 else a.next + 1

-- The `for` loop of `alloc`, one round to a unit of fuel.
unfoldable pub alloc_loop : ℕ → ℕ → PidAllocator → Alloc
alloc_loop zero start a = unfinished
alloc_loop (suc fuel) start a =
    let p = a.next in
    let b : PidAllocator = record a { next = advance a } in
    let again = if b.next == start then exhausted else alloc_loop fuel start b in
    elim (lookup p a.in_use) [
      | some _ ↦ again
      | none ↦ allocated p (record b { in_use = insert p tt b.in_use })
    ]

-- The loop stops when it has gone once round, so `pid_max` rounds are enough.
unfoldable pub alloc : PidAllocator → Alloc
unfolding alloc_loop
alloc a = alloc_loop a.pid_max a.next a

unfoldable pub release : PidAllocator → ℕ → PidAllocator
release a pid = record a { in_use = delete pid a.in_use }
