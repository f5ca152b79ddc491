-- ===== src/DataStore/Many.antt =====
-- GetMany of the data store (datastore.go).
pub mod Laws
use zmux_server.Base.{
  ℕ, Bool, true, false, List, [], ◌∷◌, Option, none, some, Bytes, nat_eq, if◌then◌else◌, Map,
  lookup, insert, is_some, map,
}
use zmux_server.DataStore.Server.{Redis}
use zmux_server.DataStore.{Index, DataStore, record_key, index_remove_at}

-- `pres`, the requested ids that have a position
unfoldable pub present : List ℕ → Map ℕ ℕ → List ℕ
present [] pos = []
present (id ∷ ids) pos =
    let rest = present ids pos in if is_some (lookup id pos) then id ∷ rest else rest

-- `idToVal`; MGET replies with a nil or a string for each key.
unfoldable pub id_to_val :
    List ℕ → List (Option Bytes) → Map ℕ (Option Bytes) → Map ℕ (Option Bytes)
id_to_val [] raws m = m
id_to_val (id ∷ ids) [] m = m
id_to_val (id ∷ ids) (raw ∷ raws) m = id_to_val ids raws (insert id raw m)

abbrev pub or_none : Option (Option Bytes) → Option Bytes
or_none none = none
or_none (some v) = v

-- An id of the result: one that is listed without a value is taken out of the index.
abbrev pub heal_one : Option ℕ → Option Bytes → Index → Option Bytes × Index
heal_one none v ix = (none, ix)
heal_one (some i) none ix = (none, index_remove_at i ix)
heal_one (some i) (some v) ix = (some v, ix)

unfoldable pub heal : List ℕ → Map ℕ (Option Bytes) → Index → List (Option Bytes) × Index
heal [] vals ix = ([], ix)
heal (id ∷ ids) vals ix =
    let (o, next) = heal_one (lookup id ix.pos) (or_none (lookup id vals)) ix in
    let (os, last) = heal ids vals next in (o ∷ os, last)

module _ {R : Type 0} (rd : Redis R) (prefix : Bytes) where
  abbrev pub answered : List (Option Bytes) × Index → R → Option (List (Option Bytes)) × DataStore R
  answered (out, ix) r = (some out, record { index = ix; rdb = r })

  abbrev pub get_many_mget :
      List ℕ
      → Option (List (Option Bytes)) × R
      → List ℕ
      → Index
      → Option (List (Option Bytes)) × DataStore R
  get_many_mget pres (none, r) ids ix = (none, record { index = ix; rdb = r })
  get_many_mget pres (some raws, r) ids ix = answered (heal ids (id_to_val pres raws []) ix) r

  abbrev pub get_many_present :
      List ℕ → List ℕ → DataStore R → Option (List (Option Bytes)) × DataStore R
  get_many_present [] ids s = answered (heal ids [] s.index) s.rdb
  get_many_present (p ∷ ps) ids s =
      get_many_mget (p ∷ ps) (rd.mget (map (record_key prefix) (p ∷ ps)) s.rdb) ids s.index

  -- `GetMany`; no ids give no values, which the general case does as well.
  unfoldable pub get_many : List ℕ → DataStore R → Option (List (Option Bytes)) × DataStore R
  get_many ids s = get_many_present (present ids s.index.pos) ids s
