-- ===== src/DataStore/Server.antt =====
-- What datastore.go relies on in Redis: INCR, SET, DEL, GET and MGET, each of which may fail,
-- while no other process writes under the prefix.
use zmux_server.Base.{List, map, ℕ, suc, ◌≤◌, ◌≡◌, ◌≢◌, Bool, true, Option, none, some, Bytes}

-- The reply of GET: an error, nil, or the value.
pub data Reply : Type 0 where
  unanswered absent : Reply
  found : Bytes → Reply

-- `holds` is the value of a key, and `counter` the number under a key of INCR. A SET that fails may
-- have been carried out, so nothing is said of its key.
pub record Redis (R : Type 0) : Type 0 where
  pub holds : Bytes → R → Option Bytes
  pub counter : Bytes → R → ℕ
  pub incr : Bytes → R → Option ℕ × R
  pub set : Bytes → Bytes → R → Bool × R
  pub del : Bytes → R → Option ℕ × R
  pub get : Bytes → R → Reply × R
  pub mget : List Bytes → R → Option (List (Option Bytes)) × R
  pub incr-ok :
      (k : Bytes) (r : R) (n : ℕ)
      → (incr k r).0 ≡ some n
      → (n ≡ suc (counter k r)) × (counter k (incr k r).1 ≡ n)
  pub incr-le : (k : Bytes) (r : R) → counter k r ≤ counter k (incr k r).1
  pub incr-other : (k j : Bytes) (r : R) → j ≢ k → holds j (incr k r).1 ≡ holds j r
  pub set-ok : (k v : Bytes) (r : R) → (set k v r).0 ≡ true → holds k (set k v r).1 ≡ some v
  pub set-other :
      (k v j : Bytes) (r : R)
      → j ≢ k
      → (holds j (set k v r).1 ≡ holds j r) × (counter j (set k v r).1 ≡ counter j r)
  pub del-ok : (k : Bytes) (r : R) (n : ℕ) → (del k r).0 ≡ some n → holds k (del k r).1 ≡ none
  pub del-other :
      (k j : Bytes) (r : R)
      → j ≢ k
      → (holds j (del k r).1 ≡ holds j r) × (counter j (del k r).1 ≡ counter j r)
  pub get-found : (k v : Bytes) (r : R) → (get k r).0 ≡ found v → holds k r ≡ some v
  pub get-absent : (k : Bytes) (r : R) → (get k r).0 ≡ absent → holds k r ≡ none
  pub get-keeps :
      (k j : Bytes) (r : R)
      → (holds j (get k r).1 ≡ holds j r) × (counter j (get k r).1 ≡ counter j r)
  pub mget-ok :
      (ks : List Bytes) (r : R) (vals : List (Option Bytes))
      → (mget ks r).0 ≡ some vals
      → vals ≡ map (λ k. holds k r) ks
  pub mget-keeps :
      (ks : List Bytes) (j : Bytes) (r : R)
      → (holds j (mget ks r).1 ≡ holds j r) × (counter j (mget ks r).1 ≡ counter j r)
