-- ===== src/B2bService/Counters.antt =====
-- The loops of `RegisterChannel` and `UnregisterChannel` over the outputs of a channel.
use zmux_server.Base.{
  ℕ, zero, suc, ◌+◌, ◌≡◌, refl, ap, ◌∙◌, true, List, [], ◌∷◌, Option, none, some, Bytes, Map,
  if◌then◌else◌, lookup, insert, lookup-insert, nat_eq, bytes_eq, nat_beq_iff, bytes_beq_iff, ◌==◌,
  Bool-cases, Option-cases, inl, inr, arith, is_some,
}
use zmux_server.Base.Int.{ℤ, pos, incr, decr}
use zmux_server.Channel.Types.{Output}
use zmux_server.B2bClient.Quota.{or_zero}

abbrev pub Usages : Type 0
Usages = Map ℕ (Map Bytes ℤ)

abbrev pub bump_in : (ℤ → ℤ) → Bytes → Map Bytes ℤ → Map Bytes ℤ
bump_in op ref m = insert ref (op (or_zero (lookup ref m))) m

-- `usage[b][ref]++` with `op` for `++`, in the inner map found at `b`
abbrev pub bump_at : (ℤ → ℤ) → ℕ → Bytes → Option (Map Bytes ℤ) → Usages → Option Usages
bump_at op b ref none us = none
bump_at op b ref (some m) us = some (insert b (bump_in op ref m) us)

unfoldable pub bump : (ℤ → ℤ) → ℕ → Bytes → Usages → Option Usages
bump op b ref us = bump_at op b ref (lookup b us) us

unfoldable pub count_outputs : (ℤ → ℤ) → ℕ → List Output → Usages → Option Usages
unfolding bump
count_outputs op b [] us = some us
count_outputs op b (o ∷ os) us =
    if o.enabled
    then elim (bump op b o.ref us) [ none ↦ none | some us' ↦ count_outputs op b os us' ]
    else count_outputs op b os us

abbrev pub or_empty : Option (Map Bytes ℤ) → Map Bytes ℤ
or_empty none = []
or_empty (some m) = m

-- The counter of client `c` for the ref `r`.
abbrev pub count_at : ℕ → Bytes → Usages → ℤ
count_at c r us = or_zero (lookup r (or_empty (lookup c us)))

-- How many enabled outputs have the ref `r`.
abbrev pub enabled_of : Bytes → List Output → ℕ
enabled_of r [] = 0
enabled_of r (o ∷ os) =
    if o.enabled
    then (if o.ref == r then suc (enabled_of r os) else enabled_of r os)
    else enabled_of r os

abbrev pub times : ℕ → (ℤ → ℤ) → ℤ → ℤ
times zero op z = z
times (suc n) op z = times n op (op z)

pub times-incr : (n k : ℕ) → times n incr (pos k) ≡ pos (n + k)
times-incr zero k = ap pos (let e : k ≡ 0 + k = omega arith in e)
times-incr (suc n) k =
    times-incr n (suc k) ∙ ap pos (let e : n + suc k ≡ suc n + k = omega arith in e)

pub times-decr : (n k : ℕ) → times n decr (pos (n + k)) ≡ pos k
times-decr zero k = ap pos (let e : 0 + k ≡ k = omega arith in e)
times-decr (suc n) k =
    ap (λ m. times (suc n) decr (pos m)) (let e : suc n + k ≡ suc (n + k) = omega arith in e)
    ∙ times-decr n k

bump_in-at :
    (op : ℤ → ℤ) (ref r : Bytes) (m : Map Bytes ℤ)
    → or_zero (lookup r (bump_in op ref m))
      ≡ (if ref == r then op (or_zero (lookup r m)) else or_zero (lookup r m))
bump_in-at op ref r m =
    ground (arith, bytes_beq_iff ref r, lookup-insert ref r (op (or_zero (lookup ref m))) m)

bump_at-count :
    (op : ℤ → ℤ) (b c : ℕ) (ref r : Bytes) (m : Map Bytes ℤ) (us : Usages)
    → lookup b us ≡ some m
    → count_at c r (insert b (bump_in op ref m) us) ≡ (
        if b == c
        then (if ref == r then op (count_at c r us) else count_at c r us)
        else count_at c r us)
bump_at-count op b c ref r m us h =
    ground (arith, nat_beq_iff b c, lookup-insert b c (bump_in op ref m) us, bump_in-at op ref r m)

bump-count :
    (op : ℤ → ℤ) (b c : ℕ) (ref r : Bytes) (us us' : Usages)
    → bump op b ref us ≡ some us'
    → count_at c r us' ≡ (
        if b == c
        then (if ref == r then op (count_at c r us) else count_at c r us)
        else count_at c r us)
unfolding bump
bump-count op b c ref r us us' h = elim (Option-cases (lookup b us)) [
  | inl missing ↦ cc (h, ap (λ l. bump_at op b ref l us) missing)
  | inr (m, found) ↦
      let e : us' ≡ insert b (bump_in op ref m) us =
        cc (h, ap (λ l. bump_at op b ref l us) found) in
      ap (count_at c r) e ∙ bump_at-count op b c ref r m us found
]

bump-known :
    (op : ℤ → ℤ) (b c : ℕ) (ref : Bytes) (us : Usages)
    → is_some (lookup b us) ≡ true
    → is_some (lookup c us) ≡ true
    → (us' : Usages) × ((bump op b ref us ≡ some us') × (is_some (lookup c us') ≡ true))
unfolding bump
bump-known op b c ref us h k = elim (Option-cases (lookup b us)) [
  | inl missing ↦ absurd (cc (h, ap is_some missing))
  | inr (m, found) ↦ (
    insert b (bump_in op ref m) us,
    (
      ap (λ l. bump_at op b ref l us) found,
      ground (arith, nat_beq_iff b c, lookup-insert b c (bump_in op ref m) us),
    ),
  )
]

pub count_outputs-count :
    (op : ℤ → ℤ) (b c : ℕ) (r : Bytes) (os : List Output) (us us' : Usages)
    → count_outputs op b os us ≡ some us'
    → count_at c r us'
      ≡ (if b == c then times (enabled_of r os) op (count_at c r us) else count_at c r us)
unfolding count_outputs
count_outputs-count op b c r [] us us' h = ground arith
count_outputs-count op b c r (o ∷ os) us us' h = elim (Bool-cases o.enabled) [
  | inr off ↦ rw off (count_outputs-count op b c r os us us' (rw off at h))
  | inl on ↦ elim (Option-cases (bump op b o.ref us)) [
    | inl missing ↦ absurd (cc (rw (on, missing) at h))
    | inr (us1, e) ↦
        let rest = count_outputs-count op b c r os us1 us' (rw (on, e) at h) in
        let here = bump-count op b c o.ref r us us1 e in
        elim (Bool-cases (b == c)) [
          | inr other ↦ rw other (rw other at rest ∙ rw other at here)
          | inl own ↦ elim (Bool-cases (o.ref == r)) [
            | inl this ↦
                rw (own, on, this)
                  (rw own at rest ∙ ap (times (enabled_of r os) op) (rw (own, this) at here))
            | inr that ↦
                rw (own, on, that)
                  (rw own at rest ∙ ap (times (enabled_of r os) op) (rw (own, that) at here))
          ]
        ]
  ]
]

pub count_outputs-known :
    (op : ℤ → ℤ) (b c : ℕ) (os : List Output) (us : Usages)
    → is_some (lookup b us) ≡ true
    → is_some (lookup c us) ≡ true
    → (us' : Usages) × ((count_outputs op b os us ≡ some us') × (is_some (lookup c us') ≡ true))
unfolding count_outputs
count_outputs-known op b c [] us h k = (us, (refl, k))
count_outputs-known op b c (o ∷ os) us h k =
    let (us1, (e1, h1)) = bump-known op b b o.ref us h h in
    elim (Bool-cases o.enabled) [
      | inr off ↦
          let (us2, (e2, k2)) = count_outputs-known op b c os us h k in
          (us2, (rw (off, e2) refl, k2))
      | inl on ↦
          let (us3, (e3, k3)) = bump-known op b c o.ref us h k in
          let same : us1 ≡ us3 = cc (e1, e3) in
          let k1 : is_some (lookup c us1) ≡ true = cc (k3, ap (λ u. is_some (lookup c u)) same) in
          let (us2, (e2, k2)) = count_outputs-known op b c os us1 h1 k1 in
          (us2, (rw (on, e1, e2) refl, k2))
    ]
