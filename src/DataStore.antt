-- ===== src/DataStore.antt =====
-- internal/infrastructure/datastore/datastore.go: values in Redis, with their ids in an index in memory.
-- The lock makes each call atomic. The ids are positive: INCR starts at 1.
pub mod Server
pub mod Keys
pub mod Positions
pub mod View
pub mod Writes
pub mod Memory
pub mod Laws
pub mod Many
use zmux_server.Base.{
  ℕ, suc, Bool, true, false, List, [], ◌∷◌, ◌++◌, Option, none, some, Bytes, codes, nat_eq, ◌==◌,
  if◌then◌else◌, length, drop, Map, lookup, insert, delete, get_elem?,
}
use zmux_server.ObjectStore.Index.{insert_at, remove_at, reindex, search}
use zmux_server.Remux.Decimal.{format_uint}
use zmux_server.DataStore.Server.{Redis, Reply, unanswered, absent, found}

-- The fields `ids` and `pos`.
pub record Index : Type 0 where
  pub ids : List ℕ
  pub pos : Map ℕ ℕ

-- `DataStore`
pub record DataStore (R : Type 0) : Type 0 where
  pub index : Index
  pub rdb : R

unfoldable pub record_key : Bytes → ℕ → Bytes
record_key prefix id = prefix ++ format_uint id

unfoldable pub sequence_key : Bytes → Bytes
sequence_key prefix = prefix ++ codes "id_seq"

abbrev pub holds_id : Option ℕ → ℕ → Bool
holds_id none id = false
holds_id (some x) id = x == id

-- `indexInsert` of an id without a position.
unfoldable pub insert_new : ℕ → Index → Index
unfolding insert_at
insert_new id s =
    let i = search id s.ids in
    if i == length s.ids
    then record { ids = s.ids ++ id ∷ []; pos = insert id i s.pos }
    else if holds_id (get_elem? s.ids i) id
    then record s { pos = insert id i s.pos }
    else record {
      ids = insert_at i id s.ids;
      pos = reindex i (drop i (insert_at i id s.ids)) s.pos;
    }

abbrev pub insert_at_pos : Option ℕ → ℕ → Index → Index
insert_at_pos (some i) id s = s
insert_at_pos none id s = insert_new id s

unfoldable pub index_insert : ℕ → Index → Index
index_insert id s = insert_at_pos (lookup id s.pos) id s

-- The index without the id `id` at the position `i`.
abbrev pub removed_at : Option ℕ → ℕ → Index → Index
removed_at none i s = s
removed_at (some id) i s = record {
  ids = remove_at i s.ids;
  pos = reindex i (drop i (remove_at i s.ids)) (delete id s.pos);
}

-- `indexRemoveAt`; a position out of range panics in the source, and the index records none.
unfoldable pub index_remove_at : ℕ → Index → Index
index_remove_at i s = removed_at (get_elem? s.ids i) i s

abbrev pub drop_at : Option ℕ → ℕ → Index → Index
drop_at none id ix = ix
drop_at (some i) id ix = index_remove_at i ix

-- The index of a store without records.
unfoldable pub no_ids : Index
no_ids = record { ids = []; pos = [] }

-- What a call returns.
pub data Answer : Type 0 where
  created : ℕ → Answer
  value : Bytes → Answer
  done not_found failed : Answer

module _ {R : Type 0} (rd : Redis R) (prefix : Bytes) where
  abbrev pub create_set : ℕ → Bool × R → Index → Answer × DataStore R
  create_set id (false, r) ix = (failed, record { index = ix; rdb = r })
  create_set id (true, r) ix = (created id, record { index = index_insert id ix; rdb = r })

  abbrev pub create_incr : Option ℕ × R → Bytes → Index → Answer × DataStore R
  create_incr (none, r) v ix = (failed, record { index = ix; rdb = r })
  create_incr (some id, r) v ix = create_set id (rd.set (record_key prefix id) v r) ix

  -- `Create`
  unfoldable pub create : Bytes → DataStore R → Answer × DataStore R
  create v s = create_incr (rd.incr (sequence_key prefix) s.rdb) v s.index

  abbrev pub update_set : Bool × R → Index → Answer × DataStore R
  update_set (false, r) ix = (failed, record { index = ix; rdb = r })
  update_set (true, r) ix = (done, record { index = ix; rdb = r })

  abbrev pub update_at : Option ℕ → ℕ → Bytes → DataStore R → Answer × DataStore R
  update_at none id v s = (not_found, s)
  update_at (some i) id v s = update_set (rd.set (record_key prefix id) v s.rdb) s.index

  -- `Update`
  unfoldable pub update : ℕ → Bytes → DataStore R → Answer × DataStore R
  update id v s = update_at (lookup id s.index.pos) id v s

  abbrev pub delete_del : Option ℕ × R → ℕ → Index → Answer × DataStore R
  delete_del (none, r) id ix = (failed, record { index = ix; rdb = r })
  delete_del (some n, r) id ix =
      (done, record { index = drop_at (lookup id ix.pos) id ix; rdb = r })

  -- `Delete`
  unfoldable pub delete_one : ℕ → DataStore R → Answer × DataStore R
  delete_one id s = delete_del (rd.del (record_key prefix id) s.rdb) id s.index

  abbrev pub get_reply : Reply × R → ℕ → ℕ → Index → Answer × DataStore R
  get_reply (unanswered, r) i id ix = (failed, record { index = ix; rdb = r })
  get_reply (absent, r) i id ix = (not_found, record { index = index_remove_at i ix; rdb = r })
  get_reply (found v, r) i id ix = (value v, record { index = ix; rdb = r })

  abbrev pub get_at : Option ℕ → ℕ → DataStore R → Answer × DataStore R
  get_at none id s = (not_found, s)
  get_at (some i) id s = get_reply (rd.get (record_key prefix id) s.rdb) i id s.index

  -- `GetOne`
  unfoldable pub get_one : ℕ → DataStore R → Answer × DataStore R
  get_one id s = get_at (lookup id s.index.pos) id s

-- The calls.
pub data Call : Type 0 where
  creates : Bytes → Call
  updates : ℕ → Bytes → Call
  deletes gets : ℕ → Call

module _ {R : Type 0} (rd : Redis R) (prefix : Bytes) where
  unfoldable pub call : Call → DataStore R → Answer × DataStore R
  call (creates v) s = create rd prefix v s
  call (updates id v) s = update rd prefix id v s
  call (deletes id) s = delete_one rd prefix id s
  call (gets id) s = get_one rd prefix id s

  unfoldable pub run : List Call → DataStore R → DataStore R
  run [] s = s
  run (c ∷ cs) s = run cs (call c s).1
