-- ===== src/DataStore/Positions.antt =====
-- The index of datastore.go keeps the ids in order, each with its position.
use zmux_server.Base.{
  ℕ, suc, ◌<◌, ◌≡◌, refl, sym, ap, ◌∙◌, subst, Bool, true, false, List, [], ◌∷◌, ◌++◌, none, some,
  nat_eq, nat_beq_iff, ◌==◌, if◌then◌else◌, length, leb, take, drop, lookup, delete, lookup-delete,
  arith, Bool-cases, Option-cases, inl, inr, take-append-drop, get_elem?, is_some,
}
use zmux_server.ObjectStore.Index.{
  insert_at, remove_at, reindex, search, Ascending, index_of, Indexes, reindex-Indexes,
  Ascending-tail, Ascending-skip, parts_apart, insert_at-Ascending, search-le, length-take_le,
  index_of-append, index_of-tail, drop-insert_at, drop-remove_at, index_of-splits, index_of-lt,
  index_of_gone, index_of-head, index_of_outside,
}
use zmux_server.DataStore.{
  Index, holds_id, insert_new, insert_at_pos, index_insert, index_remove_at, removed_at,
}

-- The ids are positive and in ascending order, each with its position, and nothing else has one.
pub record IsIndex (s : Index) : Type 0 where
  pub ordered : Ascending 0 s.ids
  pub indexed : Indexes s.pos s.ids

abbrev pub has_id : ℕ → List ℕ → Bool
has_id k xs = is_some (index_of k xs)

has_id-cons : (k x : ℕ) (xs : List ℕ) → has_id k (x ∷ xs) ≡ (if x == k then true else has_id k xs)
unfolding index_of
has_id-cons k x xs = elim (Option-cases (index_of k xs)) [
  | inl e ↦ ground (arith, e)
  | inr (j, e) ↦ ground (arith, e)
]

-- Whose positions there are once an id has been put in or taken out.
has_id-insert :
    (k id : ℕ) (xs ys : List ℕ)
    → has_id k (xs ++ (id ∷ ys)) ≡ (if id == k then true else has_id k (xs ++ ys))
has_id-insert k id [] ys = has_id-cons k id ys
has_id-insert k id (x ∷ xs) ys =
    rw (has_id-cons k x (xs ++ (id ∷ ys)), has_id-cons k x (xs ++ ys), has_id-insert k id xs ys)
      (elim (Bool-cases (x == k)) [
        | inl e ↦ elim (Bool-cases (id == k)) [ inl f ↦ rw (e, f) refl | inr f ↦ rw (e, f) refl ]
        | inr e ↦ rw e refl
      ])

between-IsIndex :
    (id : ℕ) (s : Index) (xs ys : List ℕ)
    → IsIndex s
    → s.ids ≡ xs ++ ys
    → Ascending 0 (xs ++ (id ∷ ys))
    → IsIndex (record { ids = xs ++ (id ∷ ys); pos = reindex (length xs) (id ∷ ys) s.pos })
between-IsIndex id s xs ys v split up = record {
  ordered = up;
  indexed =
      reindex-Indexes xs (id ∷ ys) 0 s.pos (Ascending-tail 0 xs (id ∷ ys) up)
        (λ k e.
          v.indexed k
          ∙ (rw (split, index_of-append k xs ys) (ground (arith, index_of-tail k id ys e))))
        (λ k j. parts_apart 0 k j xs (id ∷ ys) up);
}

without-IsIndex :
    (id : ℕ) (s : Index) (xs ys : List ℕ)
    → IsIndex s
    → s.ids ≡ xs ++ (id ∷ ys)
    → IsIndex (record { ids = xs ++ ys; pos = reindex (length xs) ys (delete id s.pos) })
without-IsIndex id s xs ys v split =
    let full : Ascending 0 (xs ++ (id ∷ ys)) = rw (← split) v.ordered in
    let up = Ascending-skip 0 id xs ys full in
    let gone = index_of_gone 0 id xs ys full in
    record {
      ordered = up;
      indexed =
          reindex-Indexes xs ys 0 (delete id s.pos) (Ascending-tail 0 xs ys up)
            (λ k e. elim (Bool-cases (id == k)) [
              | inl same ↦
                  rw (lookup-delete id k s.pos, same, ← (nat_beq_iff id k).0 same)
                    (sym (index_of-head id xs ys gone))
              | inr other ↦
                  rw (lookup-delete id k s.pos, other, v.indexed k, split)
                    (index_of_outside k id xs ys other e)
            ])
            (λ k j. parts_apart 0 k j xs ys up);
    }

free_at-search :
    (id : ℕ) (xs : List ℕ)
    → index_of id xs ≡ none
    → holds_id (get_elem? xs (search id xs)) id ≡ false
unfolding search index_of
free_at-search id [] free = refl
free_at-search id (x ∷ xs) free = elim (Option-cases (index_of id xs)) [
  | inl e ↦ elim (Bool-cases (leb id x)) [
    | inl here ↦ rw (search, here) (ground (arith, e))
    | inr there ↦ rw (search, there) (free_at-search id xs e)
  ]
  | inr (j, e) ↦ ground (arith, e)
]

take-length : (xs : List ℕ) → take (length xs) xs ≡ xs
take-length [] = refl
take-length (x ∷ xs) = ap (λ t. x ∷ t) (take-length xs)

drop-length : (xs : List ℕ) → drop (length xs) xs ≡ []
drop-length [] = refl
drop-length (x ∷ xs) = drop-length xs

-- The index after `id` has been put where the search says.
abbrev with_id : ℕ → Index → Index
with_id id s = record {
  ids = take (search id s.ids) s.ids ++ (id ∷ drop (search id s.ids) s.ids);
  pos = reindex (search id s.ids) (id ∷ drop (search id s.ids) s.ids) s.pos;
}

insert_new-with_id :
    (id : ℕ) (s : Index) → index_of id s.ids ≡ none → insert_new id s ≡ with_id id s
unfolding insert_new insert_at reindex
insert_new-with_id id s free = elim (Bool-cases (search id s.ids == length s.ids)) [
  | inl last ↦
      let at : search id s.ids ≡ length s.ids =
        (nat_beq_iff (search id s.ids) (length s.ids)).0 last in
      rw
        (
          insert_new,
          at,
          (nat_beq_iff (length s.ids) (length s.ids)).1 refl,
          take-length s.ids,
          drop-length s.ids,
        )
        refl
  | inr inner ↦
      rw
        (
          insert_new,
          inner,
          free_at-search id s.ids free,
          drop-insert_at (search id s.ids) id s.ids (search-le id s.ids),
        )
        refl
]

-- What becomes of an index: it stays in order, and `id` has a position afterwards or not.
abbrev pub Becomes : Index → Index → ℕ → Bool → Type 0
Becomes s t id there =
    IsIndex t × ((k : ℕ) → has_id k t.ids ≡ (if id == k then there else has_id k s.ids))

-- `indexInsert` of a new id
pub index_insert-Becomes :
    (id : ℕ) (s : Index)
    → 0 < id
    → IsIndex s
    → lookup id s.pos ≡ none
    → Becomes s (index_insert id s) id true
unfolding index_insert
index_insert-Becomes id s positive v new =
    let i = search id s.ids in
    let free : index_of id s.ids ≡ none = sym (v.indexed id) ∙ new in
    let split : s.ids ≡ take i s.ids ++ drop i s.ids = sym (take-append-drop i s.ids) in
    let kept =
      between-IsIndex id s (take i s.ids) (drop i s.ids) v split
        (insert_at-Ascending 0 id s.ids positive free v.ordered) in
    let kept' : IsIndex (with_id id s) =
      subst
        (λ n. IsIndex (record {
          ids = take i s.ids ++ (id ∷ drop i s.ids);
          pos = reindex n (id ∷ drop i s.ids) s.pos;
        }))
        (length-take_le i s.ids (search-le id s.ids)) kept in
    let whole : index_insert id s ≡ with_id id s =
      ap (λ o. insert_at_pos o id s) new ∙ insert_new-with_id id s free in
    subst (λ t. Becomes s t id true) (sym whole)
      (
        kept',
        λ k.
            has_id-insert k id (take i s.ids) (drop i s.ids)
            ∙ ap (λ l. if id == k then true else has_id k l) (take-append-drop i s.ids),
      )

get_elem-index_of : (k i : ℕ) (xs : List ℕ) → index_of k xs ≡ some i → get_elem? xs i ≡ some k
unfolding index_of
get_elem-index_of k i [] h = absurd (cc h)
get_elem-index_of k i (x ∷ xs) h = elim (Option-cases (index_of k xs)) [
  | inl e ↦ ground (arith, e, nat_beq_iff x k)
  | inr (j, e) ↦ ground (arith, e, nat_beq_iff x k, get_elem-index_of k j xs e)
]

-- `indexRemoveAt`
pub index_remove_at-Becomes :
    (i id : ℕ) (s : Index)
    → IsIndex s
    → lookup id s.pos ≡ some i
    → Becomes s (index_remove_at i s) id false
unfolding index_remove_at remove_at reindex
index_remove_at-Becomes i id s v known =
    let found : index_of id s.ids ≡ some i = sym (v.indexed id) ∙ known in
    let lt : i < length s.ids = index_of-lt id i s.ids found in
    let split = index_of-splits id i s.ids found in
    let kept = without-IsIndex id s (take i s.ids) (drop (suc i) s.ids) v split in
    let gone = index_of_gone 0 id (take i s.ids) (drop (suc i) s.ids) (rw (← split) v.ordered) in
    let same : index_remove_at i s ≡ record {
      ids = take i s.ids ++ drop (suc i) s.ids;
      pos = reindex (length (take i s.ids)) (drop (suc i) s.ids) (delete id s.pos);
    } =
      ap (λ o. removed_at o i s) (get_elem-index_of id i s.ids found)
      ∙ (rw (drop-remove_at i s.ids (omega arith), length-take_le i s.ids (omega arith)) refl) in
    subst (λ t. Becomes s t id false) (sym same)
      (
        kept,
        λ k. elim (Bool-cases (id == k)) [
          | inl own ↦ rw (own, ← (nat_beq_iff id k).0 own) (ap is_some gone)
          | inr other ↦
              let inserted = has_id-insert k id (take i s.ids) (drop (suc i) s.ids) in
              rw other (sym (rw other at inserted) ∙ ap (has_id k) (sym split))
        ],
      )
