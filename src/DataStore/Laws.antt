-- ===== src/DataStore/Laws.antt =====
-- The data store (datastore.go) as a map from ids to values, whatever Redis answers.
use zmux_server.Base.{
  ℕ, ◌≤◌, ◌≡◌, refl, sym, ◌∙◌, subst, false, List, [], ◌∷◌, Option, none, some, Bytes, nat_eq,
  nat_beq_iff, ◌==◌, lookup, arith, Bool-cases, Option-cases, inl, inr,
}
use zmux_server.ObjectStore.Index.{index_of}
use zmux_server.DataStore.Server.{Redis, Reply, unanswered, absent, found}
use zmux_server.DataStore.Positions.{index_remove_at-Becomes}
use zmux_server.DataStore.{
  no_ids, DataStore, record_key, sequence_key, index_remove_at, done, drop_at, delete_del,
  delete_one, get_reply, get_at, get_one, Call, creates, updates, deletes, gets, call, run,
}
use zmux_server.DataStore.View.{
  Same, Effect, same-IsValid, moved, unlisted, others, unchanged, del_others, del_counter, view,
  IsValid, Good,
}
use zmux_server.DataStore.Writes.{create-Good, update-Good}

module _ {R : Type 0} (rd : Redis R) (prefix : Bytes) where
  -- The id of a listed position is taken out.
  pub dropped-IsValid :
      (s : DataStore R) (r : R) (id i : ℕ)
      → IsValid rd prefix s
      → lookup id s.index.pos ≡ some i
      → rd.counter (sequence_key prefix) r ≡ rd.counter (sequence_key prefix) s.rdb
      → IsValid rd prefix (record { index = index_remove_at i s.index; rdb = r })
  dropped-IsValid s r id i ok known same =
      let (index_ok, has) = index_remove_at-Becomes i id s.index ok.index_ok known in
      record {
        index_ok = index_ok;
        below = λ k h. elim (Bool-cases (id == k)) [
          | inl own ↦ absurd (cc (h, rw own at (has k)))
          | inr other ↦
              let listed_before = ok.below k (sym (rw other at (has k)) ∙ h) in
              omega (arith, listed_before, same)
        ];
      }

  delete_at-Good :
      (id : ℕ) (s : DataStore R) (o : Option ℕ)
      → IsValid rd prefix s
      → lookup id s.index.pos ≡ o
      → Good rd prefix (deletes id) s (
        done,
        record { index = drop_at o id s.index; rdb = (rd.del (record_key prefix id) s.rdb).1 },
      )
  delete_at-Good id s none ok e =
      let r = (rd.del (record_key prefix id) s.rdb).1 in
      (
        same-IsValid rd prefix s r ok (omega (arith, del_counter rd prefix id s.rdb)),
        λ j. elim (Bool-cases (id == j)) [
          | inl own ↦
              rw (own, ← (nat_beq_iff id j).0 own) (unlisted rd prefix (record s { rdb = r }) id e)
          | inr other ↦ rw other (others rd prefix s r id (del_others rd prefix id s.rdb) j other)
        ],
      )
  delete_at-Good id s (some i) ok e =
      let r = (rd.del (record_key prefix id) s.rdb).1 in
      (
        dropped-IsValid s r id i ok e (del_counter rd prefix id s.rdb),
        moved rd prefix s (record { index = index_remove_at i s.index; rdb = r }) id false
            ok.index_ok (index_remove_at-Becomes i id s.index ok.index_ok e)
            (del_others rd prefix id s.rdb),
      )

  delete-Good :
      (id : ℕ) (s : DataStore R)
      → IsValid rd prefix s
      → Good rd prefix (deletes id) s (delete_one rd prefix id s)
  unfolding delete_one
  delete-Good id s ok =
      let w = rd.del (record_key prefix id) s.rdb in
      elim (Option-cases w.0) [
        | inl e ↦
            subst (λ o. Good rd prefix (deletes id) s (delete_del rd prefix (o, w.1) id s.index))
              (sym e)
              (
                same-IsValid rd prefix s w.1 ok (omega (arith, del_counter rd prefix id s.rdb)),
                others rd prefix s w.1 id (del_others rd prefix id s.rdb),
              )
        | inr (n, e) ↦
            subst (λ o. Good rd prefix (deletes id) s (delete_del rd prefix (o, w.1) id s.index))
              (sym e) (delete_at-Good id s (lookup id s.index.pos) ok refl)
      ]

  get_counter :
      (id : ℕ) (r : R)
      → rd.counter (sequence_key prefix) r
        ≤ rd.counter (sequence_key prefix) (rd.get (record_key prefix id) r).1
  get_counter id r = omega (arith, (rd.get-keeps (record_key prefix id) (sequence_key prefix) r).1)

  get_records :
      (id : ℕ) (r : R) (j : ℕ)
      → rd.holds (record_key prefix j) (rd.get (record_key prefix id) r).1
        ≡ rd.holds (record_key prefix j) r
  get_records id r j = (rd.get-keeps (record_key prefix id) (record_key prefix j) r).0

  -- An id whose key holds nothing is taken out of the index.
  pub healed :
      (s : DataStore R) (r : R) (id i : ℕ)
      → IsValid rd prefix s
      → lookup id s.index.pos ≡ some i
      → rd.holds (record_key prefix id) s.rdb ≡ none
      → ((j : ℕ) → rd.holds (record_key prefix j) r ≡ rd.holds (record_key prefix j) s.rdb)
      → Same
          (view rd prefix s)
          (view rd prefix (record { index = index_remove_at i s.index; rdb = r }))
  healed s r id i ok known gone records j =
      moved rd prefix s (record { index = index_remove_at i s.index; rdb = r }) id false ok.index_ok
        (index_remove_at-Becomes i id s.index ok.index_ok known) (λ k other. records k) j
      ∙ elim (Bool-cases (id == j)) [
        | inl own ↦ rw (own, ← (nat_beq_iff id j).0 own, known, gone) refl
        | inr other ↦ rw other refl
      ]

  get_reply-Good :
      (id i : ℕ) (s : DataStore R) (reply : Reply)
      → IsValid rd prefix s
      → lookup id s.index.pos ≡ some i
      → (rd.get (record_key prefix id) s.rdb).0 ≡ reply
      → Good rd prefix
          (gets id)
          s
          (get_reply rd prefix (reply, (rd.get (record_key prefix id) s.rdb).1) i id s.index)
  get_reply-Good id i s unanswered ok known e = (
    same-IsValid rd prefix s _ ok (get_counter id s.rdb),
    unchanged rd prefix s _ (get_records id s.rdb),
  )
  get_reply-Good id i s (found v) ok known e = (
    same-IsValid rd prefix s _ ok (get_counter id s.rdb),
    (
      rw known (rd.get-found (record_key prefix id) v s.rdb e),
      unchanged rd prefix s _ (get_records id s.rdb),
    ),
  )
  get_reply-Good id i s absent ok known e =
      let r = (rd.get (record_key prefix id) s.rdb).1 in
      let gone = rd.get-absent (record_key prefix id) s.rdb e in
      (
        dropped-IsValid s r id i ok known
            (rd.get-keeps (record_key prefix id) (sequence_key prefix) s.rdb).1,
        (rw known gone, λ j. healed s r id i ok known gone (get_records id s.rdb) j),
      )

  get-Good :
      (id : ℕ) (s : DataStore R)
      → IsValid rd prefix s
      → Good rd prefix (gets id) s (get_one rd prefix id s)
  unfolding get_one
  get-Good id s ok = elim (Option-cases (lookup id s.index.pos)) [
    | inl e ↦
        subst (λ o. Good rd prefix (gets id) s (get_at rd prefix o id s)) (sym e)
          (ok, (unlisted rd prefix s id e, λ j. refl))
    | inr (i, e) ↦
        subst (λ o. Good rd prefix (gets id) s (get_at rd prefix o id s)) (sym e)
          (get_reply-Good id i s (rd.get (record_key prefix id) s.rdb).0 ok e refl)
  ]

  -- A store without records is in order.
  pub no_ids-IsValid : (r : R) → IsValid rd prefix (record { index = no_ids; rdb = r })
  unfolding no_ids index_of lookup
  no_ids-IsValid r = record {
    index_ok = record { ordered = tt; indexed = λ k. refl };
    below = λ k h. absurd (cc h);
  }

  -- Over any Redis with the documented commands, which may fail, a call of Create, Update, Delete
  -- or GetOne on a data store in order leaves it in order, and acts on the map from ids to values
  -- as its answer says: a created id is new and alone gets the value, an update, a delete or a
  -- failure of one changes no other id, a read or a failed create changes nothing, and a read
  -- returns the value that the map has.
  pub call-Effect :
      (c : Call) (s : DataStore R)
      → IsValid rd prefix s
      → IsValid rd prefix (call rd prefix c s).1
        × Effect c (call rd prefix c s).0 (view rd prefix s) (view rd prefix (call rd prefix c s).1)
  unfolding call
  call-Effect (creates v) s ok = create-Good rd prefix v s ok
  call-Effect (updates id v) s ok = update-Good rd prefix id v s ok
  call-Effect (deletes id) s ok = delete-Good id s ok
  call-Effect (gets id) s ok = get-Good id s ok

  -- Any calls keep a store in order.
  pub calls-IsValid :
      (cs : List Call) (s : DataStore R)
      → IsValid rd prefix s
      → IsValid rd prefix (run rd prefix cs s)
  unfolding run
  calls-IsValid [] s ok = ok
  calls-IsValid (c ∷ cs) s ok = calls-IsValid cs (call rd prefix c s).1 (call-Effect c s ok).0
