-- ===== src/ObjectStore/Values.antt =====
-- The object store (objectstore.go) as a map in the order of its keys.
use zmux_server.Base.{
  ℕ, ◌≡◌, refl, List, [], ◌∷◌, ◌++◌, Option, none, some, nat_eq, nat_beq_iff, ◌==◌, if◌then◌else◌,
  length, set, lookup, arith, Bool-cases, Option-cases, inl, inr,
}
use zmux_server.ObjectStore.Index.{Ascending, index_of, Indexes}
use zmux_server.ObjectStore.{Store, empty}

module _ {ℓ} {V : Type ℓ} where
  -- The value that stands beside an id.
  unfoldable pub value_at : ℕ → List ℕ → List V → Option V
  value_at k [] vs = none
  value_at k (x ∷ xs) [] = none
  value_at k (x ∷ xs) (v ∷ vs) = if x == k then some v else value_at k xs vs

  -- The ids are positive and in ascending order, each with its position on record and a value
  -- beside it; the map has these ids and these values, and no more.
  pub record IsValid (s : Store V) : Type ℓ where
    pub ordered : Ascending 0 s.ids
    pub indexed : Indexes s.pos s.ids
    pub aligned : length s.vals ≡ length s.ids
    pub agree : (k : ℕ) → lookup k s.by_id ≡ value_at k s.ids s.vals

  pub value_at-append :
      (k : ℕ) (xs ys : List ℕ) (vs ws : List V)
      → length vs ≡ length xs
      → value_at k (xs ++ ys) (vs ++ ws)
        ≡ elim (value_at k xs vs) [ none ↦ value_at k ys ws | some v ↦ some v ]
  unfolding value_at
  value_at-append k [] ys [] ws e = refl
  value_at-append k [] ys (v ∷ vs) ws e = absurd (omega arith)
  value_at-append k (x ∷ xs) ys [] ws e = absurd (omega arith)
  value_at-append k (x ∷ xs) ys (v ∷ vs) ws e = ground (arith, value_at-append k xs ys vs ws)

  pub value_at-set :
      (k id i : ℕ) (xs : List ℕ) (vs : List V) (v : V)
      → length vs ≡ length xs
      → index_of id xs ≡ some i
      → value_at k xs (set vs i v) ≡ (if id == k then some v else value_at k xs vs)
  unfolding value_at index_of
  value_at-set k id i [] vs v e f = cc
  value_at-set k id i (x ∷ xs) [] v e f = absurd (omega arith)
  value_at-set k id i (x ∷ xs) (w ∷ vs) v e f = elim (Bool-cases (x == id)) [
    | inl here ↦ ground (arith, nat_beq_iff x id, nat_beq_iff id k)
    | inr there ↦ elim (Option-cases (index_of id xs)) [
      | inl g ↦ ground arith
      | inr (j, g) ↦ ground (arith, value_at-set k id j xs vs v)
    ]
  ]

  pub value_at_missing :
      (k : ℕ) (xs : List ℕ) (vs : List V) → index_of k xs ≡ none → value_at k xs vs ≡ none
  unfolding value_at index_of
  value_at_missing k [] vs e = refl
  value_at_missing k (x ∷ xs) [] e = refl
  value_at_missing k (x ∷ xs) (v ∷ vs) e = ground (arith, value_at_missing k xs vs)

  pub empty-IsValid : IsValid empty
  unfolding empty lookup index_of value_at
  empty-IsValid = record { ordered = tt; indexed = λ k. refl; aligned = refl; agree = λ k. refl }
