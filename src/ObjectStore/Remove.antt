-- ===== src/ObjectStore/Remove.antt =====
-- Delete (objectstore.go) keeps the store in order, and drops one entry; what the reads then return.
use zmux_server.Base.{
  ℕ, zero, suc, ◌<◌, ◌≡◌, refl, sym, ap, ◌∙◌, subst, List, [], ◌∷◌, ◌++◌, none, some, nat_eq,
  nat_beq_iff, ◌==◌, if◌then◌else◌, length, take, drop, lookup, delete, lookup-insert,
  lookup-delete, arith, Bool-cases, Option-cases, inl, inr, length-append,
}
use zmux_server.ObjectStore.Index.{
  remove_at, reindex, last_lt, Ascending, index_of, reindex-Indexes, Ascending-tail, Ascending-skip,
  parts_apart, index_of-splits, index_of-lt, length-take_le, drop-remove_at, index_of_gone,
  index_of-head, index_of_outside,
}
use zmux_server.ObjectStore.{Store, upsert, remove, get_one}
use zmux_server.ObjectStore.Values.{value_at, IsValid, value_at_missing}

module _ {ℓ} {V : Type ℓ} (id : ℕ) where
  -- An id and its value leave from between two parts.
  value_at-remove :
      (k : ℕ) (xs ys : List ℕ) (vs ws : List V) (w : V)
      → length vs ≡ length xs
      → index_of id (xs ++ ys) ≡ none
      → value_at k (xs ++ ys) (vs ++ ws)
        ≡ (if id == k then none else value_at k (xs ++ (id ∷ ys)) (vs ++ (w ∷ ws)))
  unfolding value_at index_of
  value_at-remove k [] ys [] ws w e f = elim (Bool-cases (id == k)) [
    | inl same ↦ rw (same, ← (nat_beq_iff id k).0 same) (value_at_missing id ys ws f)
    | inr other ↦ rw (other, value_at)
  ]
  value_at-remove k [] ys (v ∷ vs) ws w e f = absurd (omega arith)
  value_at-remove k (x ∷ xs) ys [] ws w e f = absurd (omega arith)
  value_at-remove k (x ∷ xs) ys (v ∷ vs) ws w e f = elim (Option-cases (index_of id (xs ++ ys))) [
    | inr (j, g) ↦ absurd (ground arith)
    | inl g ↦ ground (
      arith,
      value_at-remove k xs ys vs ws w,
      nat_beq_iff x id,
      nat_beq_iff x k,
      nat_beq_iff id k,
    )
  ]

  removed-IsValid :
      (s : Store V) (xs ys : List ℕ) (vs ws : List V) (w : V)
      → IsValid s
      → s.ids ≡ xs ++ (id ∷ ys)
      → s.vals ≡ vs ++ (w ∷ ws)
      → length vs ≡ length xs
      → IsValid (record {
        by_id = delete id s.by_id;
        ids = xs ++ ys;
        vals = vs ++ ws;
        pos = reindex (length xs) ys (delete id s.pos);
      })
  removed-IsValid s xs ys vs ws w v ei ev el = record {
    ordered = up;
    indexed =
        reindex-Indexes xs ys 0 (delete id s.pos) (Ascending-tail 0 xs ys up) known
          (λ k j. parts_apart 0 k j xs ys up);
    aligned = omega (
      arith,
      length-append xs (id ∷ ys),
      length-append vs (w ∷ ws),
      length-append xs ys,
      length-append vs ws,
      ap length ei,
      ap length ev,
      v.aligned,
    );
    agree = λ k.
        rw (lookup-delete id k s.by_id, v.agree k, ei, ev)
          (sym (value_at-remove k xs ys vs ws w el gone));
  }
    where
      full : Ascending 0 (xs ++ (id ∷ ys))
      full = rw (← ei) v.ordered

      up : Ascending 0 (xs ++ ys)
      up = Ascending-skip 0 id xs ys full

      gone : index_of id (xs ++ ys) ≡ none
      gone = index_of_gone 0 id xs ys full

      known : (k : ℕ) → index_of k ys ≡ none → lookup k (delete id s.pos) ≡ index_of k xs
      known k e = elim (Bool-cases (id == k)) [
        | inl same ↦
            rw (lookup-delete id k s.pos, same, ← (nat_beq_iff id k).0 same)
              (sym (index_of-head id xs ys gone))
        | inr other ↦
            rw (lookup-delete id k s.pos, other, v.indexed k, ei)
              (index_of_outside k id xs ys other e)
      ]

  split_at :
      (i : ℕ) (vs : List V) → i < length vs → (w : V) × (vs ≡ take i vs ++ (w ∷ drop (suc i) vs))
  split_at i [] h = absurd (omega arith)
  split_at zero (v ∷ vs) h = (v, refl)
  split_at (suc i) (v ∷ vs) h = let (w, e) = split_at i vs (omega arith) in (w, ap (λ t. v ∷ t) e)

  -- `Delete` keeps the ids in ascending order, each with its position and its value.
  pub remove-IsValid : (s : Store V) → IsValid s → IsValid (remove id s)
  unfolding remove remove_at
  remove-IsValid s v = elim (Option-cases (lookup id s.pos)) [
    | inl e ↦ rw (e, remove) v
    | inr (i, e) ↦
        let found : index_of id s.ids ≡ some i = sym (v.indexed id) ∙ e in
        let lt : i < length s.ids = index_of-lt id i s.ids found in
        let n = length-take_le i s.ids (omega arith) in
        let (w, ev) = split_at i s.vals (omega (arith, v.aligned)) in
        let valid =
          removed-IsValid s (take i s.ids) (drop (suc i) s.ids) (take i s.vals)
            (drop (suc i) s.vals) w v (index_of-splits id i s.ids found) ev
            (length-take_le i s.vals (omega (arith, v.aligned)) ∙ sym n) in
        rw (e, remove, drop-remove_at i s.ids (omega arith))
          (subst
            (λ m. IsValid (record {
              by_id = delete id s.by_id;
              ids = take i s.ids ++ drop (suc i) s.ids;
              vals = take i s.vals ++ drop (suc i) s.vals;
              pos = reindex m (drop (suc i) s.ids) (delete id s.pos);
            }))
            n valid)
  ]

  -- After `Delete` on an ordered store the id is gone and every other id has the value that it
  -- had.
  pub get_one-remove :
      (j : ℕ) (s : Store V)
      → IsValid s
      → get_one j (remove id s) ≡ (if id == j then none else get_one j s)
  unfolding remove get_one
  get_one-remove j s v = elim (Option-cases (lookup id s.pos)) [
    | inr (i, e) ↦ rw (e, remove) (lookup-delete id j s.by_id)
    | inl e ↦ elim (Bool-cases (id == j)) [
      | inl same ↦
          rw (e, remove, same, ← (nat_beq_iff id j).0 same)
            (v.agree id ∙ value_at_missing id s.ids s.vals (sym (v.indexed id) ∙ e))
      | inr other ↦ rw (e, remove, other)
    ]
  ]

  -- After `Upsert` the id has the new value and every other id the value that it had.
  pub get_one-upsert :
      (j : ℕ) (value : V) (s : Store V)
      → get_one j (upsert id value s) ≡ (if id == j then some value else get_one j s)
  unfolding upsert get_one
  get_one-upsert j value s = elim (Option-cases (lookup id s.pos)) [
    | inr (i, e) ↦ rw (e, upsert) (lookup-insert id j value s.by_id)
    | inl e ↦ elim (Bool-cases (last_lt s.ids id)) [
      | inl last ↦ rw (e, upsert, last) (lookup-insert id j value s.by_id)
      | inr inner ↦ rw (e, upsert, inner) (lookup-insert id j value s.by_id)
    ]
  ]
