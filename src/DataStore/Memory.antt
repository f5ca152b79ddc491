-- ===== src/DataStore/Memory.antt =====
-- A table in memory does as the Redis of datastore.go.
use zmux_server.Base.{
  map, ℕ, suc, ◌≡◌, ◌≢◌, refl, sym, ap, ◌∙◌, true, false, Option, none, some, Bytes, bytes_eq,
  bytes_beq_iff, ◌==◌, Map, lookup, insert, delete, inserted, untouched, deleted, undeleted,
  Bool-cases, arith, inl, inr,
}
use zmux_server.DataStore.Server.{Redis, Reply, absent, found}

-- The values of the keys, and the numbers of the keys of INCR.
abbrev pub Memory : Type 0
Memory = Map Bytes Bytes × Map Bytes ℕ

abbrev or_zero : Option ℕ → ℕ
or_zero none = 0
or_zero (some n) = n

abbrev reply : Option Bytes → Reply
reply none = absent
reply (some v) = found v

reply-found : (o : Option Bytes) (v : Bytes) → reply o ≡ found v → o ≡ some v
reply-found none v h = absurd (cc h)
reply-found (some w) v h = cc h

reply-absent : (o : Option Bytes) → reply o ≡ absent → o ≡ none
reply-absent none h = refl
reply-absent (some w) h = absurd (cc h)

own_key : (k : Bytes) → (k == k) ≡ true
own_key k = (bytes_beq_iff k k).1 refl

other_keys : (k j : Bytes) → j ≢ k → (k == j) ≡ false
other_keys k j h = elim (Bool-cases (k == j)) [
  | inl e ↦ absurd (h (sym ((bytes_beq_iff k j).0 e)))
  | inr e ↦ e
]

pub memory : Redis Memory
memory = record {
  holds = λ k r. lookup k r.0;
  counter = λ k r. or_zero (lookup k r.1);
  incr = λ k r.
      (some (suc (or_zero (lookup k r.1))), (r.0, insert k (suc (or_zero (lookup k r.1))) r.1));
  set = λ k v r. (true, (insert k v r.0, r.1));
  del = λ k r. (some 1, (delete k r.0, r.1));
  get = λ k r. (reply (lookup k r.0), r);
  mget = λ ks r. (some (map (λ k. lookup k r.0) ks), r);
  incr-ok = λ k r n h.
      let e : n ≡ suc (or_zero (lookup k r.1)) = cc h in
      (e, ap or_zero (inserted k k (suc (or_zero (lookup k r.1))) r.1 (own_key k)) ∙ sym e);
  incr-le = λ k r.
      let e = ap or_zero (inserted k k (suc (or_zero (lookup k r.1))) r.1 (own_key k)) in
      omega (arith, e);
  incr-other = λ k j r h. refl;
  set-ok = λ k v r h. inserted k k v r.0 (own_key k);
  set-other = λ k v j r h. (untouched k j v r.0 (other_keys k j h), refl);
  del-ok = λ k r n h. deleted k k r.0 (own_key k);
  del-other = λ k j r h. (undeleted k j r.0 (other_keys k j h), refl);
  get-found = λ k v r h. reply-found (lookup k r.0) v h;
  get-absent = λ k r h. reply-absent (lookup k r.0) h;
  get-keeps = λ k j r. (refl, refl);
  mget-ok = λ ks r vals h. cc h;
  mget-keeps = λ ks j r. (refl, refl);
}
