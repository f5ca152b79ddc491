-- ===== src/ProcessMgr/SlotPool/Laws.antt =====
-- The slot pool (processmgr/slot_pool.go): its count is the number of its owners.
use zmux_server.Base.{deleted, undeleted, Bool-cases}
use zmux_server.Base.{
  ℕ, zero, suc, ◌≡◌, ◌⊎◌, refl, ap, Bool, true, false, none, nat_eq, nat_beq_iff, if◌then◌else◌,
  is_some, lookup, insert, delete, length, arith, Distinct, insert-Distinct, ◌==◌, delete-Distinct,
  length-insert, length-delete, lookup-insert, lookup-delete, Option-cases, inl, inr, Bool-cases,
}
use zmux_server.Base.Int.{ℤ, pos, incr, decr, leb_ℤ, ltb_ℤ, not_leb→ltb, decr-incr}
use zmux_server.ProcessMgr.SlotPool.{
  SlotPool, new_slot_pool, ok, panic, take_slot, try_acquire, release,
}

pub record IsValid (s : SlotPool) : Type 0 where
  pub distinct : Distinct s.acquired_by
  pub counted : s.usage ≡ pos (length s.acquired_by)

-- `id` owns a slot.
abbrev pub holds : SlotPool → ℕ → Bool
holds s id = is_some (lookup id s.acquired_by)

pub take_slot-IsValid :
    (s : SlotPool) (id : ℕ) → lookup id s.acquired_by ≡ none → IsValid s → IsValid (take_slot s id)
unfolding take_slot
take_slot-IsValid s id free v = record {
  distinct = insert-Distinct id tt s.acquired_by v.distinct;
  counted = rw (v.counted, length-insert id tt s.acquired_by free);
}

pub try_acquire-IsValid :
    (s t : SlotPool) (done : Bool) (id : ℕ)
    → IsValid s
    → try_acquire s id ≡ ok (t, done)
    → IsValid t
unfolding try_acquire
try_acquire-IsValid s t done id v h = elim (Option-cases (lookup id s.acquired_by)) [
  | inl free ↦ ground (arith, take_slot-IsValid s id free v)
  | inr (u, held) ↦ ground arith
]

decr-length : (n m : ℕ) → suc n ≡ m → decr (pos m) ≡ pos n
decr-length n zero h = absurd (omega arith)
decr-length n (suc m) h = ap pos (omega arith)

pub release-IsValid : (s t : SlotPool) (id : ℕ) → IsValid s → release s id ≡ ok t → IsValid t
unfolding release
release-IsValid s t id v h = elim (Option-cases (lookup id s.acquired_by)) [
  | inl free ↦ ground arith
  | inr (u, held) ↦ ground (
    arith,
    delete-Distinct id s.acquired_by v.distinct,
    decr-length (length (delete id s.acquired_by)) (length s.acquired_by)
        (length-delete id s.acquired_by u v.distinct held),
  )
]

pub new_slot_pool-IsValid : (max : ℤ) → IsValid (new_slot_pool max)
unfolding new_slot_pool
new_slot_pool-IsValid max = record { distinct = tt; counted = refl }

pub holds-insert :
    (s : SlotPool) (id j : ℕ) → holds (take_slot s id) j ≡ (if id == j then true else holds s j)
unfolding take_slot
holds-insert s id j =
    rw (lookup-insert id j tt s.acquired_by)
      (elim (Bool-cases (id == j)) [ inl e ↦ rw e | inr e ↦ rw e ])

-- `tryAcquire` panics when the id holds a slot, refuses when the count has reached the capacity,
-- and otherwise takes a slot for the id and for no other.
pub try_acquire_lem :
    (s : SlotPool) (id : ℕ)
    → ((try_acquire s id ≡ panic) × (holds s id ≡ true))
      ⊎ ((try_acquire s id ≡ ok (s, false))
          × (holds s id ≡ false)
          × (leb_ℤ s.max_cap s.usage ≡ true))
      ⊎ ((t : SlotPool) × (try_acquire s id ≡ ok (t, true))
          × (holds s id ≡ false)
          × (ltb_ℤ s.usage s.max_cap ≡ true)
          × (t.usage ≡ incr s.usage)
          × (t.max_cap ≡ s.max_cap)
          × ((j : ℕ) → holds t j ≡ (if id == j then true else holds s j)))
unfolding try_acquire
try_acquire_lem s id = elim (Option-cases (lookup id s.acquired_by)) [
  | inr (u, held) ↦ inl (rw (held, try_acquire), rw held)
  | inl free ↦ elim (Bool-cases (leb_ℤ s.max_cap s.usage)) [
    | inl over ↦ inr (inl (rw (free, try_acquire, over), rw free, over))
    | inr under ↦ inr (
        inr (
          take_slot s id,
          rw (free, try_acquire, under),
          rw free,
          not_leb→ltb s.usage s.max_cap under,
          unfold take_slot in refl,
          unfold take_slot in refl,
          holds-insert s id,
        ))
  ]
]

released :
    (s : SlotPool) (id : ℕ)
    → lookup id s.acquired_by ≡ none
    → (u : SlotPool) × (release (take_slot s id) id ≡ ok u)
      × (u.usage ≡ s.usage)
      × (u.max_cap ≡ s.max_cap)
      × ((j : ℕ) → holds u j ≡ holds s j)
unfolding release take_slot
released s id free = (
  record s { acquired_by = delete id (insert id tt s.acquired_by); usage = decr (incr s.usage) },
  rw (release, lookup-insert id id tt s.acquired_by, (nat_beq_iff id id).1 refl),
  decr-incr s.usage,
  refl,
  λ j.
      rw (lookup-delete id j (insert id tt s.acquired_by), lookup-insert id j tt s.acquired_by)
        (elim (Bool-cases (id == j)) [
          | inl e ↦ rw (e, ← (nat_beq_iff id j).0 e, free)
          | inr e ↦ rw e
        ]),
)

-- A release after a successful `tryAcquire` restores the count, the limit and the owners.
pub release-try_acquire :
    (s t : SlotPool) (id : ℕ)
    → try_acquire s id ≡ ok (t, true)
    → (u : SlotPool) × (release t id ≡ ok u)
      × (u.usage ≡ s.usage)
      × (u.max_cap ≡ s.max_cap)
      × ((j : ℕ) → holds u j ≡ holds s j)
unfolding try_acquire
release-try_acquire s t id h = elim (Option-cases (lookup id s.acquired_by)) [
  | inr (u, held) ↦ absurd (ground arith)
  | inl free ↦ elim (Bool-cases (leb_ℤ s.max_cap s.usage)) [
    | inl over ↦ absurd (ground arith)
    | inr under ↦ let e : take_slot s id ≡ t = ground arith in rw (← e) (released s id free)
  ]
]

-- The owner of a slot can give it back, and no other owner is touched.
pub release_lem :
    (s : SlotPool) (id : ℕ)
    → holds s id ≡ true
    → (t : SlotPool) × (release s id ≡ ok t)
      × ((j : ℕ) → holds t j ≡ (if id == j then false else holds s j))
unfolding release
release_lem s id held = elim (Option-cases (lookup id s.acquired_by)) [
  | inl free ↦ absurd (cc (held, ap is_some free))
  | inr (u, e) ↦
      let t = record s { acquired_by = delete id s.acquired_by; usage = decr s.usage } in
      (
        t,
        rw (release, e) refl,
        λ j. elim (Bool-cases (id == j)) [
          | inl own ↦ rw own (ap is_some (deleted id j s.acquired_by own))
          | inr other ↦ rw other (ap is_some (undeleted id j s.acquired_by other))
        ],
      )
]
