-- ===== src/ObjectStore.antt =====
-- internal/infrastructure/objectstore/objectstore.go: an in-memory table of values under ids, listed
-- in the order of the ids. The lock makes each call atomic. Ids are positive: they come from the
-- Redis counter, or from keys that are checked to be positive.
pub mod Index
pub mod Values
pub mod Upsert
pub mod Remove
use zmux_server.Base.{
  ℕ, zero, suc, ◌-◌, Bool, true, false, List, [], ◌∷◌, ◌++◌, Option, none, some, nat_eq, ltb, leb,
  ◌==◌, if◌then◌else◌, length, take, drop, set, Map, lookup, insert, delete, is_some,
}
use Index.{insert_at, remove_at, reindex, search, last_lt}

-- `storeState`
pub record Store {ℓ} (V : Type ℓ) : Type ℓ where
  pub by_id : Map ℕ V
  pub ids : List ℕ
  pub vals : List V
  pub pos : Map ℕ ℕ

module _ {ℓ} {V : Type ℓ} where
  unfoldable pub empty : Store V
  empty = record { by_id = []; ids = []; vals = []; pos = [] }

  -- `Upsert`, with its three ways.
  unfoldable pub upsert : ℕ → V → Store V → Store V
  unfolding last_lt insert_at reindex search
  upsert id value s = elim (lookup id s.pos) [
    | some idx ↦ record s { by_id = insert id value s.by_id; vals = set s.vals idx value }
    | none ↦
        if last_lt s.ids id
        then record {
          ids = s.ids ++ id ∷ [];
          vals = s.vals ++ value ∷ [];
          by_id = insert id value s.by_id;
          pos = insert id (length s.ids) s.pos;
        }
        else (let i = search id s.ids in
            record {
              ids = insert_at i id s.ids;
              vals = insert_at i value s.vals;
              by_id = insert id value s.by_id;
              pos = reindex i (drop i (insert_at i id s.ids)) s.pos;
            })
  ]

  -- `Delete`
  unfoldable pub remove : ℕ → Store V → Store V
  unfolding remove_at reindex
  remove id s = elim (lookup id s.pos) [
    | none ↦ s
    | some idx ↦ record {
      by_id = delete id s.by_id;
      ids = remove_at idx s.ids;
      vals = remove_at idx s.vals;
      pos = reindex idx (drop idx (remove_at idx s.ids)) (delete id s.pos);
    }
  ]

  unfoldable pub get_one : ℕ → Store V → Option V
  get_one id s = lookup id s.by_id

  -- The values (`none` for the zero value of a missing id), and whether all are there.
  unfoldable pub get_many : List ℕ → Store V → List (Option V) × Bool
  get_many [] s = ([], true)
  get_many (id ∷ ids) s =
      let (out, all) = get_many ids s in
      (lookup id s.by_id ∷ out, if is_some (lookup id s.by_id) then all else false)

  unfoldable pub get_list : Store V → List ℕ × List V
  get_list s = (s.ids, s.vals)
