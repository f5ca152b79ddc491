-- ===== src/ObjectStore/Upsert.antt =====
-- Upsert (objectstore.go) keeps the store in order, and writes one entry.
use zmux_server.Base.{
  ℕ, ◌<◌, ◌≤◌, ◌≡◌, refl, sym, ap, ◌∙◌, subst, List, [], ◌∷◌, ◌++◌, none, some, nat_eq, nat_beq_iff,
  ◌==◌, if◌then◌else◌, length, take, drop, set, Map, lookup, insert, lookup-insert, arith,
  Bool-cases, Option-cases, inl, inr, length-append, length-set, take-append-drop, append-nil,
}
use zmux_server.ObjectStore.Index.{
  insert_at, reindex, search, last_lt, Ascending, index_of, reindex-Indexes, Ascending-tail,
  parts_apart, insert_at-Ascending, search-le, last_lt-Ascending, length-take_le, index_of-append,
  index_of-tail, drop-insert_at,
}
use zmux_server.ObjectStore.{Store, upsert}
use zmux_server.ObjectStore.Values.{value_at, IsValid, value_at-set}

module _ {ℓ} {V : Type ℓ} (id : ℕ) (value : V) where
  agree-insert :
      (by_id : Map ℕ V) (xs : List ℕ) (vs : List V) (xs' : List ℕ) (vs' : List V)
      → ((k : ℕ) → lookup k by_id ≡ value_at k xs vs)
      → ((k : ℕ) → value_at k xs' vs' ≡ (if id == k then some value else value_at k xs vs))
      → (k : ℕ) → lookup k (insert id value by_id) ≡ value_at k xs' vs'
  agree-insert by_id xs vs xs' vs' h g k = rw (lookup-insert id k value by_id, g k, h k)

  -- A new id between two parts.
  value_at-insert :
      (k : ℕ) (xs ys : List ℕ) (vs ws : List V)
      → length vs ≡ length xs
      → index_of id (xs ++ ys) ≡ none
      → value_at k (xs ++ (id ∷ ys)) (vs ++ (value ∷ ws))
        ≡ (if id == k then some value else value_at k (xs ++ ys) (vs ++ ws))
  unfolding value_at index_of
  value_at-insert k [] ys [] ws e f = refl
  value_at-insert k [] ys (v ∷ vs) ws e f = absurd (omega arith)
  value_at-insert k (x ∷ xs) ys [] ws e f = absurd (omega arith)
  value_at-insert k (x ∷ xs) ys (v ∷ vs) ws e f = elim (Option-cases (index_of id (xs ++ ys))) [
    | inr (j, g) ↦ absurd (ground arith)
    | inl g ↦
        ground (
          arith,
          value_at-insert k xs ys vs ws,
          nat_beq_iff x id,
          nat_beq_iff x k,
          nat_beq_iff id k,
        )
  ]

  -- The general insertion, between the ids `xs` and `ys`.
  between-IsValid :
      (s : Store V) (xs ys : List ℕ) (vs ws : List V)
      → IsValid s
      → s.ids ≡ xs ++ ys
      → s.vals ≡ vs ++ ws
      → length vs ≡ length xs
      → index_of id s.ids ≡ none
      → Ascending 0 (xs ++ (id ∷ ys))
      → IsValid (record {
        by_id = insert id value s.by_id;
        ids = xs ++ (id ∷ ys);
        vals = vs ++ (value ∷ ws);
        pos = reindex (length xs) (id ∷ ys) s.pos;
      })
  between-IsValid s xs ys vs ws v ei ev el free up = record {
    ordered = up;
    indexed =
        reindex-Indexes xs (id ∷ ys) 0 s.pos (Ascending-tail 0 xs (id ∷ ys) up) known
          (λ k j. parts_apart 0 k j xs (id ∷ ys) up);
    aligned = omega (
      arith,
      length-append xs (id ∷ ys),
      length-append vs (value ∷ ws),
      length-append xs ys,
      length-append vs ws,
      ap length ei,
      ap length ev,
      v.aligned,
    );
    agree =
        agree-insert s.by_id (xs ++ ys) (vs ++ ws) _ _ (λ k. v.agree k ∙ (rw (ei, ev)))
          (λ k. value_at-insert k xs ys vs ws el (rw (← ei) free));
  }
    where
      known : (k : ℕ) → index_of k (id ∷ ys) ≡ none → lookup k s.pos ≡ index_of k xs
      known k e =
          v.indexed k ∙ (rw (ei, index_of-append k xs ys) (ground (arith, index_of-tail k id ys e)))

  inner-IsValid :
      (s : Store V)
      → 0 < id
      → IsValid s
      → lookup id s.pos ≡ none
      → let i = search id s.ids in
        IsValid (record {
          ids = insert_at i id s.ids;
          vals = insert_at i value s.vals;
          by_id = insert id value s.by_id;
          pos = reindex i (drop i (insert_at i id s.ids)) s.pos;
        })
  unfolding insert_at
  inner-IsValid s positive v e =
      let i = search id s.ids in
      let le : i ≤ length s.ids = search-le id s.ids in
      let n = length-take_le i s.ids le in
      let free : index_of id s.ids ≡ none = sym (v.indexed id) ∙ e in
      let valid =
        between-IsValid s (take i s.ids) (drop i s.ids) (take i s.vals) (drop i s.vals) v
          (sym (take-append-drop i s.ids)) (sym (take-append-drop i s.vals))
          (length-take_le i s.vals (omega (arith, le, v.aligned)) ∙ sym n) free
          (insert_at-Ascending 0 id s.ids positive free v.ordered) in
      rw (drop-insert_at i id s.ids le) (
        subst
          (λ m. IsValid (record {
            by_id = insert id value s.by_id;
            ids = take i s.ids ++ (id ∷ drop i s.ids);
            vals = take i s.vals ++ (value ∷ drop i s.vals);
            pos = reindex m (id ∷ drop i s.ids) s.pos;
          }))
          n valid)

  -- `Upsert` under a positive id keeps the ids in ascending order, each with its position and its
  -- value.
  pub upsert-IsValid : (s : Store V) → 0 < id → IsValid s → IsValid (upsert id value s)
  unfolding upsert
  upsert-IsValid s positive v = elim (Option-cases (lookup id s.pos)) [
    | inr (idx, e) ↦
        rw (e, upsert)
          (record {
            ordered = v.ordered;
            indexed = v.indexed;
            aligned = length-set s.vals idx value ∙ v.aligned;
            agree =
                agree-insert s.by_id s.ids s.vals s.ids (set s.vals idx value) v.agree (λ k.
                  value_at-set k id idx s.ids s.vals value v.aligned (sym (v.indexed id) ∙ e));
          })
    | inl e ↦ elim (Bool-cases (last_lt s.ids id)) [
      | inl last ↦
          rw (e, upsert, last)
            (between-IsValid s s.ids [] s.vals [] v (sym (append-nil s.ids))
              (sym (append-nil s.vals)) v.aligned (sym (v.indexed id) ∙ e)
              (last_lt-Ascending 0 id s.ids positive last v.ordered))
      | inr inner ↦ rw (e, upsert, inner) (inner-IsValid s positive v e)
    ]
  ]
