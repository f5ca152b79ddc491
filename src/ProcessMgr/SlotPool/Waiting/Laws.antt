-- ===== src/ProcessMgr/SlotPool/Waiting/Laws.antt =====
-- What the calls on a slot pool (processmgr/slot_pool.go) and the wake-ups of waiting calls keep.
use zmux_server.Base.{
  ℕ, ◌≡◌, refl, ap, sym, ◌∙◌, Bool, true, false, List, [], ◌∷◌, none, some, nat_eq, ◌==◌,
  nat_beq_iff, lookup, Bool-cases, Option-cases, inl, inr, is_some, subst,
}
use zmux_server.Base.Int.{ℤ, leb_ℤ}
use zmux_server.ProcessMgr.SlotPool.{
  SlotPool, panic, take_slot, acquire, acquire_round, try_acquire, release, update_limit,
}
use zmux_server.ProcessMgr.SlotPool.Laws.{
  IsValid, holds, take_slot-IsValid, try_acquire-IsValid, release-IsValid, holds-insert,
  try_acquire_lem, release_lem,
}
use zmux_server.ProcessMgr.SlotPool.Waiting.{
  Pool, Call, acquires, tries, releases, wakes, limits, waits, remove_one, entered, woken, tried,
  released, step, run, IsFresh, AreFresh, Once, IsOutside, IsExact,
}

remove_one-waits : (id j : ℕ) (xs : List ℕ) → waits j (remove_one id xs) ≡ true → waits j xs ≡ true
remove_one-waits id j [] h = h
remove_one-waits id j (x ∷ xs) h = elim (Bool-cases (x == id)) [
  | inl own ↦ elim (Bool-cases (x == j)) [ inl e ↦ rw e refl | inr e ↦ rw e (rw own at h) ]
  | inr other ↦ elim (Bool-cases (x == j)) [
    | inl e ↦ rw e refl
    | inr e ↦ rw e (remove_one-waits id j xs (rw (other, e) at h))
  ]
]

not_true : (b : Bool) → (b ≡ true → ⊥) → b ≡ false
not_true true h = absurd (h refl)
not_true false h = refl

remove_one-Once : (id : ℕ) (xs : List ℕ) → Once xs → Once (remove_one id xs)
remove_one-Once id [] v = tt
remove_one-Once id (x ∷ xs) (new, v) = elim (Bool-cases (x == id)) [
  | inl own ↦ rw own v
  | inr other ↦ rw other (
    not_true (waits x (remove_one id xs)) (λ e. cc (new, remove_one-waits id x xs e)),
    remove_one-Once id xs v,
  )
]

remove_one-gone : (id : ℕ) (xs : List ℕ) → Once xs → waits id (remove_one id xs) ≡ false
remove_one-gone id [] v = refl
remove_one-gone id (x ∷ xs) (new, v) = elim (Bool-cases (x == id)) [
  | inl own ↦ rw own (ap (λ k. waits k xs) (sym ((nat_beq_iff x id).0 own)) ∙ new)
  | inr other ↦ rw (other, other) (remove_one-gone id xs v)
]

take_slot-IsOutside :
    (id : ℕ) (xs : List ℕ) (s : SlotPool)
    → waits id xs ≡ false
    → IsOutside xs s
    → IsOutside xs (take_slot s id)
take_slot-IsOutside id xs s new v j h = elim (Bool-cases (id == j)) [
  | inl own ↦ absurd (cc (new, h, (nat_beq_iff id j).0 own))
  | inr other ↦ holds-insert s id j ∙ rw other (v j h)
]

free : (s : SlotPool) (id : ℕ) → holds s id ≡ false → lookup id s.acquired_by ≡ none
free s id h = elim (Option-cases (lookup id s.acquired_by)) [
  | inl e ↦ e
  | inr (u, e) ↦ absurd (cc (h, ap is_some e))
]

taken-IsExact :
    (id : ℕ) (xs : List ℕ) (s : SlotPool)
    → holds s id ≡ false
    → waits id xs ≡ false
    → IsValid s
    → Once xs
    → IsOutside xs s
    → IsExact (record { slots = take_slot s id; waiting = xs })
taken-IsExact id xs s unowned new v once outside = record {
  valid = take_slot-IsValid s id (free s id unowned) v;
  once = once;
  outside = take_slot-IsOutside id xs s new outside;
}

release-free : (s : SlotPool) (id : ℕ) → lookup id s.acquired_by ≡ none → release s id ≡ panic
unfolding release
release-free s id h = rw (release, h) refl

acquires-IsExact :
    (id : ℕ) (p q : Pool)
    → waits id p.waiting ≡ false
    → IsExact p
    → entered (acquire p.slots id) id p ≡ some q
    → IsExact q
unfolding acquire acquire_round
acquires-IsExact id p q new v h = elim (Option-cases (lookup id p.slots.acquired_by)) [
  | inr (u, held) ↦ absurd (cc (rw (acquire, held) at h))
  | inl unowned ↦ elim (Bool-cases (leb_ℤ p.slots.max_cap p.slots.usage)) [
    | inl full ↦
        let e : record p { waiting = id ∷ p.waiting } ≡ q = cc (rw (acquire, unowned, full) at h) in
        subst IsExact e (record {
          valid = v.valid;
          once = (new, v.once);
          outside = λ j w. elim (Bool-cases (id == j)) [
            | inl own ↦
                ap (λ k. holds p.slots k) (sym ((nat_beq_iff id j).0 own)) ∙ ap is_some unowned
            | inr other ↦ v.outside j (rw other at w)
          ];
        })
    | inr room ↦
        let e : record p { slots = take_slot p.slots id } ≡ q =
          cc (rw (acquire, unowned, room) at h) in
        subst IsExact e
          (taken-IsExact id p.waiting p.slots (ap is_some unowned) new v.valid v.once v.outside)
  ]
]

wakes-IsExact :
    (id : ℕ) (p q : Pool)
    → waits id p.waiting ≡ true
    → IsExact p
    → woken (acquire_round p.slots id) id p ≡ some q
    → IsExact q
unfolding acquire_round
wakes-IsExact id p q waiting v h = elim (Bool-cases (leb_ℤ p.slots.max_cap p.slots.usage)) [
  | inl full ↦ subst IsExact (let e : p ≡ q = cc (rw (acquire_round, full) at h) in e) v
  | inr room ↦
      let left = remove_one id p.waiting in
      let e : record { slots = take_slot p.slots id; waiting = left } ≡ q =
        cc (rw (acquire_round, room) at h) in
      subst IsExact e (
        taken-IsExact id left p.slots (v.outside id waiting) (remove_one-gone id p.waiting v.once)
          v.valid (remove_one-Once id p.waiting v.once)
          (λ j w. v.outside j (remove_one-waits id j p.waiting w)))
]

tries-IsExact :
    (id : ℕ) (p q : Pool)
    → waits id p.waiting ≡ false
    → IsExact p
    → tried (try_acquire p.slots id) p ≡ some q
    → IsExact q
tries-IsExact id p q new v h = elim (try_acquire_lem p.slots id) [
  | inl (panics, held) ↦ absurd (cc (rw panics at h))
  | inr (inl (full, _, _)) ↦ subst IsExact (let e : p ≡ q = cc (rw full at h) in e) v
  | inr (inr (t, taken, unowned, _, _, _, owners)) ↦
      let e : record p { slots = t } ≡ q = cc (rw taken at h) in
      subst IsExact e (record {
        valid = try_acquire-IsValid p.slots t true id v.valid taken;
        once = v.once;
        outside = λ j w. owners j ∙ elim (Bool-cases (id == j)) [
          | inl own ↦ absurd (cc (new, w, (nat_beq_iff id j).0 own))
          | inr other ↦ rw other (v.outside j w)
        ];
      })
]

releases-IsExact :
    (id : ℕ) (p q : Pool) → IsExact p → released (release p.slots id) p ≡ some q → IsExact q
releases-IsExact id p q v h = elim (Bool-cases (holds p.slots id)) [
  | inr unowned ↦ absurd (cc (rw (release-free p.slots id (free p.slots id unowned)) at h))
  | inl held ↦
      let (t, gone, owners) = release_lem p.slots id held in
      let e : record p { slots = t } ≡ q = cc (rw gone at h) in
      subst IsExact e (record {
        valid = release-IsValid p.slots t id v.valid gone;
        once = v.once;
        outside = λ j w. owners j ∙ elim (Bool-cases (id == j)) [
          | inl own ↦ rw own refl
          | inr other ↦ rw other (v.outside j w)
        ];
      })
]

limits-IsExact :
    (n : ℤ) (p : Pool) → IsExact p → IsExact (record p { slots = update_limit p.slots n })
unfolding update_limit
limits-IsExact n p v = record {
  valid = record { distinct = v.valid.distinct; counted = v.valid.counted };
  once = v.once;
  outside = v.outside;
}

step-IsExact : (c : Call) (p q : Pool) → IsFresh c p → IsExact p → step c p ≡ some q → IsExact q
unfolding step
step-IsExact (acquires id) p q new v h = acquires-IsExact id p q new v h
step-IsExact (tries id) p q new v h = tries-IsExact id p q new v h
step-IsExact (releases id) p q new v h = releases-IsExact id p q v h
step-IsExact (wakes id) p q new v h = elim (Bool-cases (waits id p.waiting)) [
  | inl waiting ↦ wakes-IsExact id p q waiting v (rw (step, waiting) at h)
  | inr none_waits ↦ subst IsExact (let e : p ≡ q = cc (rw (step, none_waits) at h) in e) v
]
step-IsExact (limits n) p q new v h =
    subst IsExact (let e : record p { slots = update_limit p.slots n } ≡ q = cc h in e)
      (limits-IsExact n p v)

-- Any calls on a slot pool and wake-ups of its waiting calls, without a panic and with no slot
-- asked for under an id whose `acquire` waits, keep this: the count is the number of owners, no
-- id waits twice, and no waiting id owns a slot.
pub run-IsExact :
    (cs : List Call) (p q : Pool) → AreFresh cs p → IsExact p → run cs p ≡ some q → IsExact q
unfolding run
run-IsExact [] p q new v h = subst IsExact (let e : p ≡ q = cc h in e) v
run-IsExact (c ∷ cs) p q (new, more) v h = elim (Option-cases (step c p)) [
  | inl e ↦ absurd (cc (rw (run, e) at h))
  | inr (t, e) ↦ run-IsExact cs t q (rw e at more) (step-IsExact c p t new v e) (rw (run, e) at h)
]
