-- ===== src/DataStore/View.antt =====
-- The data store (datastore.go) as a map from ids to values, and what a call may do to it.
use zmux_server.Base.{
  ℕ, ◌≤◌, ◌≡◌, ◌≢◌, refl, sym, ap, Bool, true, false, Option, none, some, Bytes, nat_eq,
  nat_beq_iff, ◌==◌, if◌then◌else◌, lookup, is_some, arith, Bool-cases, inl, inr,
}
use zmux_server.DataStore.Server.{Redis}
use zmux_server.DataStore.Keys.{record_key-injective, record_key-apart}
use zmux_server.DataStore.Positions.{IsIndex, has_id, Becomes}
use zmux_server.DataStore.{
  Index, DataStore, record_key, sequence_key, Answer, created, value, done, not_found, Call,
  creates, updates, deletes, gets,
}

-- What a call does to the map from ids to values, for each answer.
abbrev pub Same : (ℕ → Option Bytes) → (ℕ → Option Bytes) → Type 0
Same before after = (j : ℕ) → after j ≡ before j

abbrev pub Writes : ℕ → Option Bytes → (ℕ → Option Bytes) → (ℕ → Option Bytes) → Type 0
Writes id o before after = (j : ℕ) → after j ≡ (if id == j then o else before j)

abbrev pub Others : ℕ → (ℕ → Option Bytes) → (ℕ → Option Bytes) → Type 0
Others id before after = (j : ℕ) → (id == j) ≡ false → after j ≡ before j

abbrev pub Effect : Call → Answer → (ℕ → Option Bytes) → (ℕ → Option Bytes) → Type 0
Effect (creates v) (created id) before after = (before id ≡ none) × Writes id (some v) before after
Effect (creates v) _ before after = Same before after
Effect (updates id v) done before after = Writes id (some v) before after
Effect (updates id v) not_found before after = (before id ≡ none) × Same before after
Effect (updates id v) _ before after = Others id before after
Effect (deletes id) done before after = Writes id none before after
Effect (deletes id) _ before after = Others id before after
Effect (gets id) (value v) before after = (before id ≡ some v) × Same before after
Effect (gets id) not_found before after = (before id ≡ none) × Same before after
Effect (gets id) _ before after = Same before after

module _ {R : Type 0} (rd : Redis R) (prefix : Bytes) where
  -- The value under an id of the index.
  abbrev pub view : DataStore R → ℕ → Option Bytes
  view s j = if is_some (lookup j s.index.pos) then rd.holds (record_key prefix j) s.rdb else none

  -- The index is in order, and no id is above the counter.
  pub record IsValid (s : DataStore R) : Type 0 where
    pub index_ok : IsIndex s.index
    pub below : (k : ℕ) → has_id k s.index.ids ≡ true → k ≤ rd.counter (sequence_key prefix) s.rdb

  abbrev pub Good : Call → DataStore R → Answer × DataStore R → Type 0
  Good c s (a, t) = IsValid t × Effect c a (view s) (view t)

  pub other_key : (i j : ℕ) → (i == j) ≡ false → record_key prefix j ≢ record_key prefix i
  other_key i j other h =
      let same = record_key-injective prefix j i h in
      absurd (cc ((nat_beq_iff i j).1 (sym same), other))

  pub listed : (s : Index) (k : ℕ) → IsIndex s → is_some (lookup k s.pos) ≡ has_id k s.ids
  listed s k v = ap is_some (v.indexed k)

  -- Redis changes, and the index does not.
  pub same-IsValid :
      (s : DataStore R) (r : R)
      → IsValid s
      → rd.counter (sequence_key prefix) s.rdb ≤ rd.counter (sequence_key prefix) r
      → IsValid (record s { rdb = r })
  same-IsValid s r v le = record {
    index_ok = v.index_ok;
    below = λ k h. omega (arith, v.below k h, le);
  }

  -- The index changes for one id, and Redis for its key.
  pub moved :
      (s t : DataStore R) (id : ℕ) (b : Bool)
      → IsIndex s.index
      → Becomes s.index t.index id b
      → ((j : ℕ)
          → (id == j) ≡ false
          → rd.holds (record_key prefix j) t.rdb ≡ rd.holds (record_key prefix j) s.rdb)
      → Writes id (if b then rd.holds (record_key prefix id) t.rdb else none) (view s) (view t)
  moved s t id b v (w, has) kept j =
      rw (listed t.index j w, has j, listed s.index j v)
        (elim (Bool-cases (id == j)) [
          | inl own ↦ rw (own, ← (nat_beq_iff id j).0 own) refl
          | inr other ↦ rw (other, kept j other) refl
        ])

  pub unlisted : (s : DataStore R) (id : ℕ) → lookup id s.index.pos ≡ none → view s id ≡ none
  unlisted s id e = rw e refl

  -- Redis changes at most the key of `id`, and the index stays.
  pub others :
      (s : DataStore R) (r : R) (id : ℕ)
      → ((j : ℕ)
          → (id == j) ≡ false
          → rd.holds (record_key prefix j) r ≡ rd.holds (record_key prefix j) s.rdb)
      → Others id (view s) (view (record s { rdb = r }))
  others s r id kept j other =
      ap (λ o. if is_some (lookup j s.index.pos) then o else none) (kept j other)

  pub rewritten :
      (s : DataStore R) (r : R) (id i : ℕ)
      → lookup id s.index.pos ≡ some i
      → ((j : ℕ)
          → (id == j) ≡ false
          → rd.holds (record_key prefix j) r ≡ rd.holds (record_key prefix j) s.rdb)
      → Writes id (rd.holds (record_key prefix id) r) (view s) (view (record s { rdb = r }))
  rewritten s r id i known kept j = elim (Bool-cases (id == j)) [
    | inl own ↦ rw (own, ← (nat_beq_iff id j).0 own, known) refl
    | inr other ↦ rw other (others s r id kept j other)
  ]

  pub unchanged :
      (s : DataStore R) (r : R)
      → ((j : ℕ) → rd.holds (record_key prefix j) r ≡ rd.holds (record_key prefix j) s.rdb)
      → Same (view s) (view (record s { rdb = r }))
  unchanged s r kept j = ap (λ o. if is_some (lookup j s.index.pos) then o else none) (kept j)

  pub set_others :
      (id : ℕ) (v : Bytes) (r : R) (j : ℕ)
      → (id == j) ≡ false
      → rd.holds (record_key prefix j) (rd.set (record_key prefix id) v r).1
        ≡ rd.holds (record_key prefix j) r
  set_others id v r j other =
      (rd.set-other (record_key prefix id) v (record_key prefix j) r (other_key id j other)).0

  pub set_counter :
      (id : ℕ) (v : Bytes) (r : R)
      → rd.counter (sequence_key prefix) (rd.set (record_key prefix id) v r).1
        ≡ rd.counter (sequence_key prefix) r
  set_counter id v r =
      (rd.set-other (record_key prefix id) v (sequence_key prefix) r
        (λ h. record_key-apart prefix id (sym h))).1

  pub del_others :
      (id : ℕ) (r : R) (j : ℕ)
      → (id == j) ≡ false
      → rd.holds (record_key prefix j) (rd.del (record_key prefix id) r).1
        ≡ rd.holds (record_key prefix j) r
  del_others id r j other =
      (rd.del-other (record_key prefix id) (record_key prefix j) r (other_key id j other)).0

  pub del_counter :
      (id : ℕ) (r : R)
      → rd.counter (sequence_key prefix) (rd.del (record_key prefix id) r).1
        ≡ rd.counter (sequence_key prefix) r
  del_counter id r =
      (rd.del-other (record_key prefix id) (sequence_key prefix) r
        (λ h. record_key-apart prefix id (sym h))).1

  pub incr_records :
      (r : R) (j : ℕ)
      → rd.holds (record_key prefix j) (rd.incr (sequence_key prefix) r).1
        ≡ rd.holds (record_key prefix j) r
  incr_records r j =
      rd.incr-other (sequence_key prefix) (record_key prefix j) r (record_key-apart prefix j)
