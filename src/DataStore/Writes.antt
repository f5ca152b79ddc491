-- ===== src/DataStore/Writes.antt =====
-- Create and Update of the data store (datastore.go).
use zmux_server.Base.{
  ℕ, ◌<◌, ◌≤◌, ◌≡◌, refl, sym, ap, ◌∙◌, subst, true, false, none, some, Bytes, nat_eq, nat_beq_iff,
  ◌==◌, lookup, is_some, arith, Bool-cases, Option-cases, inl, inr,
}
use zmux_server.DataStore.Server.{Redis}
use zmux_server.DataStore.Positions.{Becomes, index_insert-Becomes}
use zmux_server.DataStore.{
  DataStore, record_key, sequence_key, index_insert, created, create_set, create_incr, create,
  update_set, update_at, update, creates, updates,
}
use zmux_server.DataStore.View.{
  Same, Writes, Effect, listed, same-IsValid, moved, unlisted, others, rewritten, unchanged,
  set_others, set_counter, incr_records, view, IsValid, Good,
}

module _ {R : Type 0} (rd : Redis R) (prefix : Bytes) where
  -- `SET` of a key that is listed
  update_set-Good :
      (id i : ℕ) (v : Bytes) (s : DataStore R)
      → IsValid rd prefix s
      → lookup id s.index.pos ≡ some i
      → Good rd prefix
          (updates id v)
          s
          (update_set rd prefix (rd.set (record_key prefix id) v s.rdb) s.index)
  update_set-Good id i v s ok known =
      let w = rd.set (record_key prefix id) v s.rdb in
      let kept =
        same-IsValid rd prefix s w.1 ok (omega (arith, set_counter rd prefix id v s.rdb)) in
      elim (Bool-cases w.0) [
        | inl e ↦
            subst (λ b. Good rd prefix (updates id v) s (update_set rd prefix (b, w.1) s.index))
              (sym e)
              (
                kept,
                subst
                    (λ o. Writes id o (view rd prefix s) (view rd prefix (record s { rdb = w.1 })))
                    (rd.set-ok (record_key prefix id) v s.rdb e)
                    (rewritten rd prefix s w.1 id i known (set_others rd prefix id v s.rdb)),
              )
        | inr e ↦
            subst (λ b. Good rd prefix (updates id v) s (update_set rd prefix (b, w.1) s.index))
              (sym e) (kept, others rd prefix s w.1 id (set_others rd prefix id v s.rdb))
      ]

  pub update-Good :
      (id : ℕ) (v : Bytes) (s : DataStore R)
      → IsValid rd prefix s
      → Good rd prefix (updates id v) s (update rd prefix id v s)
  unfolding update
  update-Good id v s ok = elim (Option-cases (lookup id s.index.pos)) [
    | inl e ↦
        subst (λ o. Good rd prefix (updates id v) s (update_at rd prefix o id v s)) (sym e)
          (ok, (unlisted rd prefix s id e, λ j. refl))
    | inr (i, e) ↦
        subst (λ o. Good rd prefix (updates id v) s (update_at rd prefix o id v s)) (sym e)
          (update_set-Good id i v s ok e)
  ]

  -- An id above the counter is new.
  above_free :
      (s : DataStore R) (id : ℕ)
      → IsValid rd prefix s
      → rd.counter (sequence_key prefix) s.rdb < id
      → lookup id s.index.pos ≡ none
  above_free s id ok new = elim (Option-cases (lookup id s.index.pos)) [
    | inl e ↦ e
    | inr (i, e) ↦
        let le = ok.below id (sym (listed rd prefix s.index id ok.index_ok) ∙ ap is_some e) in
        absurd (omega (arith, le))
  ]

  -- `SET` of the new id `id`, once INCR has given it.
  module _ (v : Bytes) (s : DataStore R) (r : R) (id : ℕ) (ok : IsValid rd prefix s)
      (new : rd.counter (sequence_key prefix) s.rdb < id)
      (le : id ≤ rd.counter (sequence_key prefix) r)
      (records : (j : ℕ)
        → rd.holds (record_key prefix j) r ≡ rd.holds (record_key prefix j) s.rdb) where
    after_set : R
    after_set = (rd.set (record_key prefix id) v r).1

    kept :
        (j : ℕ)
        → (id == j) ≡ false
        → rd.holds (record_key prefix j) after_set ≡ rd.holds (record_key prefix j) s.rdb
    unfolding after_set
    kept j other = set_others rd prefix id v r j other ∙ records j

    stored : DataStore R
    stored = record { index = index_insert id s.index; rdb = after_set }

    stored-Becomes : Becomes s.index (index_insert id s.index) id true
    stored-Becomes =
        index_insert-Becomes id s.index (omega arith) ok.index_ok (above_free s id ok new)

    stored-IsValid : IsValid rd prefix stored
    unfolding stored after_set
    stored-IsValid = record {
      index_ok = stored-Becomes.0;
      below = λ k h. elim (Bool-cases (id == k)) [
        | inl own ↦ omega (arith, set_counter rd prefix id v r, (nat_beq_iff id k).0 own)
        | inr other ↦
            let listed_before = ok.below k (sym (rw other at (stored-Becomes.1 k)) ∙ h) in
            omega (arith, listed_before, set_counter rd prefix id v r)
      ];
    }

    stored-Effect :
        (rd.set (record_key prefix id) v r).0 ≡ true
        → Effect (creates v) (created id) (view rd prefix s) (view rd prefix stored)
    unfolding stored after_set
    stored-Effect e = (
      unlisted rd prefix s id (above_free s id ok new),
      subst (λ o. Writes id o (view rd prefix s) (view rd prefix stored))
          (rd.set-ok (record_key prefix id) v r e)
          (moved rd prefix s stored id true ok.index_ok stored-Becomes kept),
    )

    missed-Same : Same (view rd prefix s) (view rd prefix (record s { rdb = after_set }))
    unfolding after_set
    missed-Same j = elim (Bool-cases (id == j)) [
      | inl own ↦ rw (← (nat_beq_iff id j).0 own) (
          unlisted rd prefix (record s { rdb = after_set }) id (above_free s id ok new)
          ∙ sym (unlisted rd prefix s id (above_free s id ok new)))
      | inr other ↦ others rd prefix s after_set id kept j other
    ]

    create_set-Good :
        Good rd prefix
          (creates v)
          s
          (create_set rd prefix id (rd.set (record_key prefix id) v r) s.index)
    unfolding after_set stored
    create_set-Good =
        let w = rd.set (record_key prefix id) v r in
        elim (Bool-cases w.0) [
          | inl e ↦
              subst (λ b. Good rd prefix (creates v) s (create_set rd prefix id (b, w.1) s.index))
                (sym e) (stored-IsValid, stored-Effect e)
          | inr e ↦
              subst (λ b. Good rd prefix (creates v) s (create_set rd prefix id (b, w.1) s.index))
                (sym e)
                (
                  same-IsValid rd prefix s w.1 ok (omega (arith, set_counter rd prefix id v r)),
                  missed-Same,
                )
        ]

  pub create-Good :
      (v : Bytes) (s : DataStore R)
      → IsValid rd prefix s
      → Good rd prefix (creates v) s (create rd prefix v s)
  unfolding create
  create-Good v s ok =
      let w = rd.incr (sequence_key prefix) s.rdb in
      elim (Option-cases w.0) [
        | inl e ↦
            subst (λ o. Good rd prefix (creates v) s (create_incr rd prefix (o, w.1) v s.index))
              (sym e)
              (
                same-IsValid rd prefix s w.1 ok (rd.incr-le (sequence_key prefix) s.rdb),
                unchanged rd prefix s w.1 (incr_records rd prefix s.rdb),
              )
        | inr (id, e) ↦
            let (next, counted) = rd.incr-ok (sequence_key prefix) s.rdb id e in
            subst (λ o. Good rd prefix (creates v) s (create_incr rd prefix (o, w.1) v s.index))
              (sym e)
              (create_set-Good v s w.1 id ok (omega (arith, next)) (omega (arith, counted))
                (incr_records rd prefix s.rdb))
      ]
