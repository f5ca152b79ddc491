-- ===== src/ProcessMgr/Limits/Laws.antt =====
-- What a change of the limits does to a slot pool (process_manager2.go, UpdateLimits).
use zmux_server.Base.{Option-cases, ◌∙◌, ◌+◌, true, ◌≢◌, ◌⊎◌, ◌↔◌}
use zmux_server.Base.{
  ℕ, zero, suc, ap, sym, nat_eq, ◌-◌, ◌≤◌, ◌≡◌, refl, false, List, [], ◌∷◌, none, some, ltb, length,
  take, keys, arith, Bool-cases, inl, inr,
}
use zmux_server.Base.Int.{ℤ, pos, negsuc, ltb_ℤ}
use zmux_server.ProcessMgr.SlotPool.{SlotPool, update_limit, capacity, list_acquired}
use zmux_server.ProcessMgr.Limits.{to_close, same_limit, adjust, update_limits}

length-take_within : (n : ℕ) (xs : List ℕ) → n ≤ length xs → length (take n xs) ≡ n
length-take_within zero xs h = refl
length-take_within (suc n) [] h = absurd (omega arith)
length-take_within (suc n) (x ∷ xs) h = ap suc (length-take_within n xs (omega arith))

-- A change of a pool to another limit that is not negative does not panic, sets the limit,
-- leaves the owners, and closes exactly as many of them as exceed the limit.
pub adjust_lem :
    (m : ℕ) (s : SlotPool)
    → same_limit (capacity s) (pos m) ≡ false
    → (t : SlotPool) × ((pids : List ℕ) × ((adjust (pos m) s ≡ some (t, pids))
          × ((t.max_cap ≡ pos m)
              × ((t.acquired_by ≡ s.acquired_by)
                  × ((pids ≡ take (length pids) (list_acquired s))
                      × (length pids ≡ length (list_acquired s) - m))))))
unfolding adjust to_close update_limit list_acquired
adjust_lem m s changed =
    let owners = keys s.acquired_by in
    let bounded : ltb (length owners) (length owners - m) ≡ false = ground arith in
    let unclamped : ltb m 0 ≡ false = ground arith in
    elim (Bool-cases (ltb m (length owners))) [
      | inl over ↦
          let within : length (take (length owners - m) owners) ≡ length owners - m =
            length-take_within (length owners - m) owners (omega arith) in
          (
            update_limit s (pos m),
            (
              take (length owners - m) owners,
              (
                rw (changed, over, bounded) refl,
                (rw unclamped refl, (refl, (ap (λ k. take k owners) (sym within), within))),
              ),
            ),
          )
      | inr room ↦
          let none_over : 0 ≡ length owners - m = ground arith in
          (
            update_limit s (pos m),
            ([], (rw (changed, room) refl, (rw unclamped refl, (refl, (refl, none_over))))),
          )
    ]

same_limit_iff : (a b : ℤ) → (same_limit a b ≡ true) ↔ (a ≡ b)
same_limit_iff (pos a) (pos b) = (λ h. ap pos (ground arith), λ h. ground arith)
same_limit_iff (pos a) (negsuc b) = (λ h. cc, λ h. cc)
same_limit_iff (negsuc a) (pos b) = (λ h. cc, λ h. cc)
same_limit_iff (negsuc a) (negsuc b) = (λ h. ap negsuc (ground arith), λ h. ground arith)

-- The limit is negative, and it is not the limit in force.
abbrev pub CutsBelow : ℤ → SlotPool → Type 0
CutsBelow limit s = (ltb_ℤ limit (pos 0) ≡ true) × (s.max_cap ≢ limit)

to_close-negative : (n : ℕ) (owners : List ℕ) → to_close (negsuc n) owners ≡ none
unfolding to_close
to_close-negative n owners =
    let beyond : ltb (length owners) (length owners + suc n) ≡ true = ground arith in rw beyond refl

adjust_iff : (limit : ℤ) (s : SlotPool) → (adjust limit s ≡ none) ↔ CutsBelow limit s
unfolding adjust capacity
adjust_iff limit s = elim (Bool-cases (same_limit s.max_cap limit)) [
  | inl same ↦ (
    λ h. absurd (cc (rw (adjust, same) at h)),
    λ (negative, other). absurd (other ((same_limit_iff s.max_cap limit).0 same)),
  )
  | inr changed ↦ changed_iff limit s changed
]
  where
    changed_iff :
        (limit : ℤ) (s : SlotPool)
        → same_limit s.max_cap limit ≡ false
        → (adjust limit s ≡ none) ↔ CutsBelow limit s
    changed_iff (pos m) s changed = (
      λ h. absurd (cc (h, (adjust_lem m s changed).1.1.0)),
      λ (negative, other). absurd (ground arith),
    )
    changed_iff (negsuc n) s changed = (
      λ h. (refl, λ e. cc (changed, (same_limit_iff s.max_cap (negsuc n)).1 e)),
      λ h. rw (adjust, changed, to_close-negative) refl,
    )

-- `UpdateLimits` panics exactly when one of the two limits that it is given is negative and is
-- not the one in force.
pub update_limits_iff :
    (max_pre max_on : ℤ) (preflight onflight : SlotPool)
    → (update_limits max_pre max_on preflight onflight ≡ none)
      ↔ (CutsBelow max_pre preflight ⊎ CutsBelow max_on onflight)
unfolding update_limits
update_limits_iff max_pre max_on pre on = elim (Option-cases (adjust max_pre pre)) [
  | inl e ↦ (λ h. inl ((adjust_iff max_pre pre).0 e), λ h. rw (update_limits, e) refl)
  | inr ((a, first), e) ↦ elim (Option-cases (adjust max_on on)) [
    | inl f ↦ (λ h. inr ((adjust_iff max_on on).0 f), λ h. rw (update_limits, e, f) refl)
    | inr ((b, second), f) ↦ (
      λ h. absurd (cc (rw (update_limits, e, f) at h)),
      λ h. elim h [
        | inl p ↦ absurd (cc (e, (adjust_iff max_pre pre).1 p))
        | inr p ↦ absurd (cc (f, (adjust_iff max_on on).1 p))
      ],
    )
  ]
]

adjust-owners :
    (limit : ℤ) (s t : SlotPool) (pids : List ℕ)
    → adjust limit s ≡ some (t, pids)
    → t.acquired_by ≡ s.acquired_by
unfolding adjust update_limit
adjust-owners limit s t pids h = elim (Bool-cases (same_limit (capacity s) limit)) [
  | inl same ↦ ap (λ x. x.acquired_by) (let q : t ≡ s = cc (rw same at h) in q)
  | inr changed ↦ elim (Option-cases (to_close limit (list_acquired (update_limit s limit)))) [
    | inl e ↦ absurd (cc (rw (changed, e) at h))
    | inr (closed, e) ↦
        ap (λ x. x.acquired_by) (let q : t ≡ update_limit s limit = cc (rw (changed, e) at h) in q)
  ]
]

-- A change of the limits leaves the owners of both pools.
pub update_limits-owners :
    (max_pre max_on : ℤ) (pre on pre' on' : SlotPool) (pids : List ℕ)
    → update_limits max_pre max_on pre on ≡ some (pre', on', pids)
    → (pre'.acquired_by ≡ pre.acquired_by) × (on'.acquired_by ≡ on.acquired_by)
unfolding update_limits
update_limits-owners max_pre max_on pre on pre' on' pids h =
    elim (Option-cases (adjust max_pre pre)) [
      | inl e ↦ absurd (cc (rw (update_limits, e) at h))
      | inr ((a, first), e) ↦ elim (Option-cases (adjust max_on on)) [
        | inl f ↦ absurd (cc (rw (update_limits, e, f) at h))
        | inr ((b, second), f) ↦
            let q = rw (update_limits, e, f) at h in
            let a_pre : pre' ≡ a = cc q in
            let b_on : on' ≡ b = cc q in
            (
              ap (λ x. x.acquired_by) a_pre ∙ adjust-owners max_pre pre a first e,
              ap (λ x. x.acquired_by) b_on ∙ adjust-owners max_on on b second f,
            )
      ]
    ]
