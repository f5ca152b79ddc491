-- ===== src/ObjectStore/Index.antt =====
-- The ordered ids and their positions, as objectstore.go and datastore.go keep them.
use zmux_server.Base.{
  ℕ, zero, suc, ◌+◌, ◌≤◌, ◌<◌, ◌≡◌, refl, ap, Bool, true, false, List, [], ◌∷◌, ◌++◌, Option, none,
  some, nat_eq, nat_beq_iff, ltb, leb, ◌==◌, if◌then◌else◌, length, take, drop, Map, lookup, insert,
  lookup-insert, arith, Bool-cases, Option-cases, inl, inr,
}

-- `append(xs, 0)`, `copy(xs[i+1:], xs[i:])`, `xs[i] = x`
unfoldable pub insert_at {ℓ} : {A : Type ℓ} → ℕ → A → List A → List A
insert_at i x xs = take i xs ++ (x ∷ drop i xs)

-- `copy(xs[i:], xs[i+1:])`, `xs = xs[:len(xs)-1]`
unfoldable pub remove_at {ℓ} : {A : Type ℓ} → ℕ → List A → List A
remove_at i xs = take i xs ++ drop (suc i) xs

-- `for k := i; k < len(ids); k++ { pos[ids[k]] = k }`, over the ids from `i` on
unfoldable pub reindex : ℕ → List ℕ → Map ℕ ℕ → Map ℕ ℕ
reindex i [] pos = pos
reindex i (x ∷ xs) pos = reindex (suc i) xs (insert x i pos)

-- `sort.Search(len(ids), func(j int) bool { return ids[j] >= id })`: on ids in ascending order, the
-- first position whose id is at least `id`, or the length.
unfoldable pub search : ℕ → List ℕ → ℕ
search id [] = 0
search id (x ∷ xs) = if leb id x then 0 else suc (search id xs)

-- `n == 0 || id > ids[n-1]`
unfoldable pub last_lt : List ℕ → ℕ → Bool
last_lt [] id = true
last_lt (x ∷ []) id = ltb x id
last_lt (x ∷ y ∷ xs) id = last_lt (y ∷ xs) id

-- Strictly ascending, from above `low` on.
abbrev pub Ascending : ℕ → List ℕ → Type 0
Ascending low [] = Unit
Ascending low (x ∷ xs) = (low < x) × Ascending x xs

-- The position of an id.
unfoldable pub index_of : ℕ → List ℕ → Option ℕ
index_of k [] = none
index_of k (x ∷ xs) =
    if x == k then some 0 else elim (index_of k xs) [ none ↦ none | some j ↦ some (suc j) ]

-- Every id has its position on record, and nothing else has one.
abbrev pub Indexes : Map ℕ ℕ → List ℕ → Type 0
Indexes pos ids = (k : ℕ) → lookup k pos ≡ index_of k ids

index_of_below : (k low : ℕ) (xs : List ℕ) → Ascending low xs → k ≤ low → index_of k xs ≡ none
unfolding index_of
index_of_below k low [] a h = refl
index_of_below k low (x ∷ xs) a h = ground (arith, index_of_below k x xs a.1)

abbrev shift : ℕ → Option ℕ → Option ℕ
shift n none = none
shift n (some j) = some (n + j)

-- After the loop, the ids that it went over have their new positions; the others keep theirs.
reindex_lem :
    (i low k : ℕ) (xs : List ℕ) (pos : Map ℕ ℕ)
    → Ascending low xs
    → lookup k (reindex i xs pos)
      ≡ elim (index_of k xs) [ none ↦ lookup k pos | some j ↦ some (i + j) ]
unfolding reindex index_of
reindex_lem i low k [] pos a = refl
reindex_lem i low k (x ∷ xs) pos a = ground (
  arith,
  reindex_lem (suc i) x k xs (insert x i pos) a.1,
  lookup-insert x k i pos,
  index_of_below k x xs a.1,
)

pub index_of-append :
    (k : ℕ) (xs ys : List ℕ)
    → index_of k (xs ++ ys)
      ≡ elim (index_of k xs) [ none ↦ shift (length xs) (index_of k ys) | some j ↦ some j ]
unfolding index_of
index_of-append k [] ys = ground arith
index_of-append k (x ∷ xs) ys = ground (arith, index_of-append k xs ys)

pub length-take_le {ℓ} : {A : Type ℓ} (i : ℕ) (xs : List A) → i ≤ length xs → length (take i xs) ≡ i
length-take_le zero xs h = refl
length-take_le (suc i) [] h = absurd (omega arith)
length-take_le (suc i) (x ∷ xs) h = ap suc (length-take_le i xs (omega arith))

pub drop-append {ℓ} : {A : Type ℓ} (xs ys : List A) → drop (length xs) (xs ++ ys) ≡ ys
drop-append [] ys = refl
drop-append (x ∷ xs) ys = drop-append xs ys

-- The loop over the tail restores the positions, when those in the head are right already.
pub reindex-Indexes :
    (head tail : List ℕ) (low : ℕ) (pos : Map ℕ ℕ)
    → Ascending low tail
    → ((k : ℕ) → index_of k tail ≡ none → lookup k pos ≡ index_of k head)
    → ((k j : ℕ) → index_of k tail ≡ some j → index_of k head ≡ none)
    → Indexes (reindex (length head) tail pos) (head ++ tail)
reindex-Indexes head tail low pos a known apart k =
    rw (reindex_lem (length head) low k tail pos a, index_of-append k head tail)
      (elim (Option-cases (index_of k tail)) [
        | inl e ↦ rw (e, known k e) (ground arith)
        | inr (j, e) ↦ rw (e, apart k j e, e)
      ])

Ascending-weaken : (low low' : ℕ) (xs : List ℕ) → low ≤ low' → Ascending low' xs → Ascending low xs
Ascending-weaken low low' [] h a = tt
Ascending-weaken low low' (x ∷ xs) h a = (omega arith, a.1)

pub Ascending-tail :
    (low : ℕ) (head tail : List ℕ) → Ascending low (head ++ tail) → Ascending low tail
Ascending-tail low [] tail a = a
Ascending-tail low (x ∷ head) tail a =
    Ascending-weaken low x tail (omega arith) (Ascending-tail x head tail a.1)

-- Leaving out one id.
pub Ascending-skip :
    (low x : ℕ) (head tail : List ℕ)
    → Ascending low (head ++ (x ∷ tail))
    → Ascending low (head ++ tail)
Ascending-skip low x [] tail a = Ascending-weaken low x tail (omega arith) a.1
Ascending-skip low x (y ∷ head) tail a = (a.0, Ascending-skip y x head tail a.1)

-- No id stands in both parts.
pub parts_apart :
    (low k j : ℕ) (head tail : List ℕ)
    → Ascending low (head ++ tail)
    → index_of k tail ≡ some j
    → index_of k head ≡ none
unfolding index_of
parts_apart low k j [] tail a e = refl
parts_apart low k j (x ∷ head) tail a e = ground (
  arith,
  parts_apart x k j head tail a.1 e,
  index_of_below k x (head ++ tail) a.1,
  index_of-append k head tail,
)

-- An id that has a position splits the ids.
pub index_of-splits :
    (k i : ℕ) (xs : List ℕ) → index_of k xs ≡ some i → xs ≡ take i xs ++ (k ∷ drop (suc i) xs)
unfolding index_of
index_of-splits k i [] e = cc
index_of-splits k i (x ∷ xs) e = elim (Bool-cases (x == k)) [
  | inl here ↦ ground (arith, nat_beq_iff x k)
  | inr there ↦ elim (Option-cases (index_of k xs)) [
    | inl f ↦ ground arith
    | inr (j, f) ↦ ground (arith, index_of-splits k j xs f)
  ]
]

pub index_of-lt : (k i : ℕ) (xs : List ℕ) → index_of k xs ≡ some i → i < length xs
unfolding index_of
index_of-lt k i [] e = cc
index_of-lt k i (x ∷ xs) e = elim (Option-cases (index_of k xs)) [
  | inl f ↦ ground arith
  | inr (j, f) ↦ ground (arith, index_of-lt k j xs f)
]

-- A new id goes where the search says.
pub insert_at-Ascending :
    (low id : ℕ) (xs : List ℕ)
    → low < id
    → index_of id xs ≡ none
    → Ascending low xs
    → Ascending low (take (search id xs) xs ++ (id ∷ drop (search id xs) xs))
unfolding search index_of
insert_at-Ascending low id [] h e a = (h, tt)
insert_at-Ascending low id (x ∷ xs) h e a = elim (Bool-cases (leb id x)) [
  | inl below ↦ rw (below, search) (ground (arith, nat_beq_iff x id))
  | inr above ↦ elim (Option-cases (index_of id xs)) [
    | inl f ↦ rw (above, search) (a.0, insert_at-Ascending x id xs (ground arith) f a.1)
    | inr (j, f) ↦ ground arith
  ]
]

pub search-le : (id : ℕ) (xs : List ℕ) → search id xs ≤ length xs
unfolding search
search-le id [] = omega arith
search-le id (x ∷ xs) = ground (arith, search-le id xs)

last_lt-below :
    (x y id : ℕ) (xs : List ℕ) → last_lt (y ∷ xs) id ≡ true → Ascending x (y ∷ xs) → x < id
unfolding last_lt
last_lt-below x y id [] l a = ground arith
last_lt-below x y id (z ∷ xs) l a = let h : y < id = last_lt-below y z id xs l a.1 in omega arith

-- An id above the last one is new, and may be put at the end.
pub last_lt-Ascending :
    (low id : ℕ) (xs : List ℕ)
    → low < id
    → last_lt xs id ≡ true
    → Ascending low xs
    → Ascending low (xs ++ id ∷ [])
unfolding last_lt
last_lt-Ascending low id [] h l a = (h, tt)
last_lt-Ascending low id (x ∷ []) h l a = ground arith
last_lt-Ascending low id (x ∷ y ∷ xs) h l a =
    (a.0, last_lt-Ascending x id (y ∷ xs) (last_lt-below x y id xs l a.1) l a.1)

pub index_of-tail : (k x : ℕ) (xs : List ℕ) → index_of k (x ∷ xs) ≡ none → index_of k xs ≡ none
unfolding index_of
index_of-tail k x xs e = ground arith

-- The ids from position `i` on, after an insertion there.
pub drop-insert_at {ℓ} :
    {A : Type ℓ} (i : ℕ) (x : A) (xs : List A)
    → i ≤ length xs
    → drop i (insert_at i x xs) ≡ x ∷ drop i xs
unfolding insert_at
drop-insert_at zero x xs h = refl
drop-insert_at (suc i) x [] h = absurd (omega arith)
drop-insert_at (suc i) x (y ∷ xs) h = drop-insert_at i x xs (omega arith)

pub drop-remove_at {ℓ} :
    {A : Type ℓ} (i : ℕ) (xs : List A) → i ≤ length xs → drop i (remove_at i xs) ≡ drop (suc i) xs
unfolding remove_at
drop-remove_at zero xs h = refl
drop-remove_at (suc i) [] h = absurd (omega arith)
drop-remove_at (suc i) (y ∷ xs) h = drop-remove_at i xs (omega arith)

-- An id in an ascending list stands there once.
pub index_of_gone :
    (low id : ℕ) (xs ys : List ℕ) → Ascending low (xs ++ (id ∷ ys)) → index_of id (xs ++ ys) ≡ none
unfolding index_of
index_of_gone low id [] ys a = index_of_below id id ys a.1 (omega arith)
index_of_gone low id (x ∷ xs) ys a = ground (
  arith,
  index_of_gone x id xs ys a.1,
  index_of_below id x (xs ++ (id ∷ ys)) a.1,
  index_of-append id xs (id ∷ ys),
)

pub index_of-head : (k : ℕ) (xs ys : List ℕ) → index_of k (xs ++ ys) ≡ none → index_of k xs ≡ none
index_of-head k xs ys e = ground (arith, index_of-append k xs ys)

pub index_of_outside :
    (k id : ℕ) (xs ys : List ℕ)
    → (id == k) ≡ false
    → index_of k ys ≡ none
    → index_of k (xs ++ (id ∷ ys)) ≡ index_of k xs
unfolding index_of
index_of_outside k id xs ys other e = ground (arith, index_of-append k xs (id ∷ ys))
