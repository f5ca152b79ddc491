-- ===== src/ProcessMgr/PidAllocator/Laws.antt =====
-- The PID allocator (processmgr/pid_allocator.go): what `alloc` returns, and when it panics.
use zmux_server.Base.{
  ℕ, zero, suc, ◌+◌, ◌-◌, ◌≤◌, ◌<◌, ◌≡◌, ◌≢◌, refl, sym, Bool, true, false, none, some, ◌==◌,
  nat_eq, nat_beq_iff, leb, if◌then◌else◌, lookup, insert, arith, Bool-cases, Option-cases, inl,
  inr, is_some, subst, lookup-insert, lookup-delete,
}
use zmux_server.ProcessMgr.PidAllocator.{
  PidAllocator, new_pid_allocator, Alloc, allocated, exhausted, advance, alloc_loop, alloc, release,
}

abbrev pub used : PidAllocator → ℕ → Bool
used a p = is_some (lookup p a.in_use)

-- The counter stays among the PIDs.
pub record IsValid (a : PidAllocator) : Type 0 where
  pub low : 1 ≤ a.next
  pub high : a.next ≤ a.pid_max

-- The PID that the counter shows `k` rounds after `start`.
after : ℕ → ℕ → ℕ → ℕ
after n start k = if leb (start + k) n then start + k else start + k - n

-- What `alloc` may return, on an allocator whose counter stood at `a.next`.
pub data Result (a : PidAllocator) : Alloc → Type 0 where
  -- a free PID, which is now in use; no other changes
  fresh :
      (p : ℕ) (b : PidAllocator)
      → 1 ≤ p
      → p ≤ a.pid_max
      → used a p ≡ false
      → ((q : ℕ) → used b q ≡ (if p == q then true else used a q))
      → IsValid b
      → b.pid_max ≡ a.pid_max
      → Result a (allocated p b)
  -- every PID is in use
  full : ((q : ℕ) → 1 ≤ q → q ≤ a.pid_max → used a q ≡ true) → Result a exhausted

-- The rounds at which the counter shows `q`.
rounds_to : ℕ → ℕ → ℕ → ℕ
rounds_to n start q = if leb start q then q - start else q + n - start

after-rounds_to :
    (n start q : ℕ)
    → 1 ≤ start
    → start ≤ n
    → 1 ≤ q
    → q ≤ n
    → (rounds_to n start q < n) × (after n start (rounds_to n start q) ≡ q)
unfolding after rounds_to
after-rounds_to n start q a b c d = ground arith

alloc_loop_free :
    (fuel start : ℕ) (b : PidAllocator)
    → lookup b.next b.in_use ≡ none
    → alloc_loop (suc fuel) start b
      ≡ allocated b.next (record b { next = advance b; in_use = insert b.next tt b.in_use })
unfolding alloc_loop
alloc_loop_free fuel start b free = rw (alloc_loop, free)

alloc_loop_busy :
    (fuel start : ℕ) (b : PidAllocator) (u : Unit {0})
    → lookup b.next b.in_use ≡ some u
    → alloc_loop (suc fuel) start b ≡ (
        if advance b == start
        then exhausted
        else alloc_loop fuel start (record b { next = advance b }))
unfolding alloc_loop
alloc_loop_busy fuel start b u busy = rw (alloc_loop, busy)

not_beq : (m n : ℕ) → m ≢ n → (m == n) ≡ false
not_beq m n h = ground (arith, h)

module _ (a : PidAllocator) (v : IsValid a) where
  abbrev at_round : ℕ → PidAllocator
  at_round k = record a { next = after a.pid_max a.next k }

  after_range : (k : ℕ) → k < a.pid_max → IsValid (at_round k)
  unfolding after
  after_range k h = ground (arith, v.low, v.high)

  advance-after :
      (k : ℕ) → suc k < a.pid_max → advance (at_round k) ≡ after a.pid_max a.next (suc k)
  unfolding after
  advance-after k h = ground (arith, v.low, v.high)

  after-ne-start : (k : ℕ) → suc k < a.pid_max → after a.pid_max a.next (suc k) ≢ a.next
  unfolding after
  after-ne-start k h e = ground (arith, v.low, v.high)

  advance_last : (k : ℕ) → suc k ≡ a.pid_max → advance (at_round k) ≡ a.next
  unfolding after
  advance_last k h = ground (arith, v.low, v.high)

  advance-IsValid : (b : PidAllocator) → IsValid b → IsValid (record b { next = advance b })
  advance-IsValid b w = ground (arith, w.low, w.high)

  Passed : ℕ → Type 0
  Passed k = (j : ℕ) → j < k → used a (after a.pid_max a.next j) ≡ true

  Passed-suc : (k : ℕ) → Passed k → used a (after a.pid_max a.next k) ≡ true → Passed (suc k)
  unfolding Passed
  Passed-suc k passed now j h = elim (Bool-cases (j == k)) [
    | inl e ↦ rw ((nat_beq_iff j k).0 e) now
    | inr ne ↦ passed j (ground arith)
  ]

  Passed-full :
      (k : ℕ)
      → suc k ≡ a.pid_max
      → Passed (suc k)
      → (q : ℕ) → 1 ≤ q
      → q ≤ a.pid_max
      → used a q ≡ true
  unfolding Passed
  Passed-full k e passed q lo hi =
      let (lt, hit) = after-rounds_to a.pid_max a.next q v.low v.high lo hi in
      subst (λ p. used a p ≡ true) hit (passed (rounds_to a.pid_max a.next q) (omega arith))

  allocated-Result :
      (b : PidAllocator)
      → IsValid b
      → b.pid_max ≡ a.pid_max
      → b.in_use ≡ a.in_use
      → lookup b.next a.in_use ≡ none
      → Result a
          (allocated b.next (record b { next = advance b; in_use = insert b.next tt b.in_use }))
  allocated-Result b w same_max same_use free =
      fresh b.next _ w.low (omega (arith, w.high)) (rw free)
        (λ q.
          rw (same_use, lookup-insert b.next q tt a.in_use)
            (elim (Bool-cases (b.next == q)) [ inl e ↦ rw e | inr e ↦ rw e ]))
        (record { low = (advance-IsValid b w).low; high = (advance-IsValid b w).high }) same_max

  -- With `k` rounds done every PID passed is in use.
  Round : ℕ → Type 0
  Round fuel =
      (k : ℕ)
      → suc k + fuel ≡ a.pid_max
      → Passed k
      → Result a (alloc_loop (suc fuel) a.next (at_round k))

  -- A round, given what holds of the rounds after it.
  round_cases :
      (fuel k : ℕ)
      → suc k + fuel ≡ a.pid_max
      → Passed k
      → (Passed (suc k)
          → Result a (
              if advance (at_round k) == a.next
              then exhausted
              else alloc_loop fuel a.next (record a { next = advance (at_round k) })))
      → Result a (alloc_loop (suc fuel) a.next (at_round k))
  round_cases fuel k e passed busy_case =
      elim (Option-cases (lookup (after a.pid_max a.next k) a.in_use)) [
        | inl free ↦
            rw (alloc_loop_free fuel a.next (at_round k) free)
              (allocated-Result (at_round k) (after_range k (omega arith)) refl refl free)
        | inr (u, busy) ↦
            rw (alloc_loop_busy fuel a.next (at_round k) u busy)
              (busy_case (Passed-suc k passed (rw busy)))
      ]

  loop-Result : (fuel : ℕ) → Round fuel
  unfolding Round
  loop-Result zero k e passed = round_cases zero k e passed λ passed'.
      rw (advance_last k (omega arith), (nat_beq_iff a.next a.next).1 refl)
        (full (Passed-full k (omega arith) passed'))
  loop-Result (suc fuel) k e passed = round_cases (suc fuel) k e passed λ passed'.
      rw (advance-after k (omega arith), not_beq _ _ (after-ne-start k (omega arith)))
        (loop-Result fuel (suc k) (omega arith) passed')

  -- On a valid allocator `alloc` ends within its rounds: it returns a free PID in range, which is
  -- then the one more in use, or panics with every PID in range in use.
  pub alloc-Result : Result a (alloc a)
  unfolding alloc
  alloc-Result =
      let enough : a.pid_max ≡ suc (a.pid_max - 1) = omega (arith, v.low, v.high) in
      let start : after a.pid_max a.next 0 ≡ a.next = unfold after in ground (arith, v.high) in
      subst (λ n. Result a (alloc_loop n a.next a)) (sym enough)
        (subst (λ n. Result a (alloc_loop (suc (a.pid_max - 1)) a.next (record a { next = n })))
          start
          (unfold Round Passed in
            loop-Result (a.pid_max - 1) 0 (omega (arith, enough)) (λ j h. absurd (omega arith))))

-- A released PID is free, and no other PID changes; so is the counter left alone.
pub release_lem :
    (a : PidAllocator) (p : ℕ)
    → ((q : ℕ) → used (release a p) q ≡ (if p == q then false else used a q))
      × ((release a p).next ≡ a.next)
unfolding release
release_lem a p = (
  λ q. rw (lookup-delete p q a.in_use) (elim (Bool-cases (p == q)) [ inl e ↦ rw e | inr e ↦ rw e ]),
  refl,
)

pub new_pid_allocator-IsValid : IsValid new_pid_allocator
unfolding new_pid_allocator
new_pid_allocator-IsValid = record { low = omega arith; high = omega arith }
