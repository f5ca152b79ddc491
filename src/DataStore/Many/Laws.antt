-- ===== src/DataStore/Many/Laws.antt =====
-- GetMany of the data store gives the values of the map, in the order of the ids (datastore.go).
use zmux_server.Base.{
  ℕ, ◌≡◌, refl, sym, ap, ◌∙◌, subst, true, List, [], ◌∷◌, Option, none, some, Bytes, nat_eq,
  nat_beq_iff, ◌==◌, Map, lookup, insert, inserted, untouched, is_some, map, All, Bool-cases,
  Option-cases, inl, inr, arith,
}
use zmux_server.DataStore.Server.{Redis}
use zmux_server.DataStore.{DataStore, record_key, sequence_key, index_remove_at}
use zmux_server.DataStore.Positions.{index_remove_at-Becomes}
use zmux_server.DataStore.View.{Same, view, IsValid, unlisted, listed, unchanged, same-IsValid}
use zmux_server.DataStore.Laws.{dropped-IsValid, healed}
use zmux_server.DataStore.Many.{
  present, id_to_val, or_none, heal_one, heal, get_many_mget, get_many_present, get_many,
}

module _ (f : ℕ → Option Bytes) where
  id_to_val-keeps :
      (ids : List ℕ) (m : Map ℕ (Option Bytes)) (k : ℕ)
      → lookup k m ≡ some (f k)
      → lookup k (id_to_val ids (map f ids) m) ≡ some (f k)
  unfolding id_to_val
  id_to_val-keeps [] m k h = h
  id_to_val-keeps (id ∷ ids) m k h =
      id_to_val-keeps ids (insert id (f id) m) k (elim (Bool-cases (id == k)) [
        | inl own ↦ inserted id k (f id) m own ∙ ap (λ j. some (f j)) ((nat_beq_iff id k).0 own)
        | inr other ↦ untouched id k (f id) m other ∙ h
      ])

  id_to_val-All :
      (ids : List ℕ) (m : Map ℕ (Option Bytes))
      → All (λ k. lookup k (id_to_val ids (map f ids) m) ≡ some (f k)) ids
  unfolding id_to_val
  id_to_val-All [] m = tt
  id_to_val-All (id ∷ ids) m = (
    id_to_val-keeps ids (insert id (f id) m) id
        (inserted id id (f id) m ((nat_beq_iff id id).1 refl)),
    id_to_val-All ids (insert id (f id) m),
  )

present-All :
    (C : ℕ → Type 0) (ids : List ℕ) (pos : Map ℕ ℕ)
    → All C (present ids pos)
    → All (λ k. is_some (lookup k pos) ≡ true → C k) ids
unfolding present
present-All C [] pos a = tt
present-All C (id ∷ ids) pos a = elim (Bool-cases (is_some (lookup id pos))) [
  | inl here ↦ let (first, rest) = rw here at a in (λ e. first, present-All C ids pos rest)
  | inr gone ↦ (λ e. absurd (cc (e, gone)), present-All C ids pos (rw gone at a))
]

module _ {R : Type 0} (rd : Redis R) (prefix : Bytes) where
  -- The values at hand are those in Redis, for the ids that are listed.
  abbrev Known : DataStore R → Map ℕ (Option Bytes) → ℕ → Type 0
  Known s vals k =
      is_some (lookup k s.index.pos) ≡ true
      → or_none (lookup k vals) ≡ rd.holds (record_key prefix k) s.rdb

  heal_one-Good :
      (s : DataStore R) (id : ℕ) (o : Option ℕ) (v : Option Bytes)
      → IsValid rd prefix s
      → lookup id s.index.pos ≡ o
      → (is_some o ≡ true → v ≡ rd.holds (record_key prefix id) s.rdb)
      → let t : DataStore R = record s { index = (heal_one o v s.index).1 } in
        IsValid rd prefix t
        × ((heal_one o v s.index).0 ≡ view rd prefix s id)
        × Same (view rd prefix s) (view rd prefix t)
        × ((k : ℕ) → is_some (lookup k t.index.pos) ≡ true → is_some (lookup k s.index.pos) ≡ true)
  heal_one-Good s id none v ok known h =
      (ok, sym (unlisted rd prefix s id known), λ j. refl, λ k e. e)
  heal_one-Good s id (some i) (some w) ok known h = (ok, (rw known (h refl)), λ j. refl, λ k e. e)
  heal_one-Good s id (some i) none ok known h =
      let gone = sym (h refl) in
      let (index_ok, has) = index_remove_at-Becomes i id s.index ok.index_ok known in
      (
        dropped-IsValid rd prefix s s.rdb id i ok known refl,
        (rw known (sym gone)),
        λ j. healed rd prefix s s.rdb id i ok known gone (λ k. refl) j,
        λ k e. listed rd prefix s.index k ok.index_ok ∙ (elim (Bool-cases (id == k)) [
          | inl own ↦
              absurd
                (cc (e, listed rd prefix (index_remove_at i s.index) k index_ok, rw own at (has k)))
          | inr other ↦
              sym (rw other at (has k))
              ∙ (sym (listed rd prefix (index_remove_at i s.index) k index_ok) ∙ e)
        ]),
      )

All-mono : (C E : ℕ → Type 0) (ids : List ℕ) → ((k : ℕ) → C k → E k) → All C ids → All E ids
All-mono C E [] step a = tt
All-mono C E (id ∷ ids) step (first, rest) = (step id first, All-mono C E ids step rest)

map-same : (g h : ℕ → Option Bytes) (ids : List ℕ) → ((k : ℕ) → g k ≡ h k) → map g ids ≡ map h ids
map-same g h [] same = refl
map-same g h (id ∷ ids) same =
    ap (λ o. o ∷ map g ids) (same id) ∙ ap (λ os. h id ∷ os) (map-same g h ids same)

map-map :
    (f : ℕ → Bytes) (g : Bytes → Option Bytes) (ids : List ℕ)
    → map g (map f ids) ≡ map (λ k. g (f k)) ids
map-map f g [] = refl
map-map f g (id ∷ ids) = ap (λ os. g (f id) ∷ os) (map-map f g ids)

module _ {R : Type 0} (rd : Redis R) (prefix : Bytes) where
  heal-Good :
      (ids : List ℕ) (vals : Map ℕ (Option Bytes)) (s : DataStore R)
      → IsValid rd prefix s
      → All (Known rd prefix s vals) ids
      → let t : DataStore R = record s { index = (heal ids vals s.index).1 } in
        IsValid rd prefix t
        × ((heal ids vals s.index).0 ≡ map (view rd prefix s) ids)
        × Same (view rd prefix s) (view rd prefix t)
  unfolding heal
  heal-Good [] vals s ok known = (ok, refl, λ j. refl)
  heal-Good (id ∷ ids) vals s ok (first, rest) =
      let o = lookup id s.index.pos in
      let t : DataStore R = record s {
        index = (heal_one o (or_none (lookup id vals)) s.index).1;
      } in
      let (t_ok, out, same, fewer) =
        heal_one-Good rd prefix s id o (or_none (lookup id vals)) ok refl first in
      let known_t =
        All-mono (Known rd prefix s vals) (Known rd prefix t vals) ids
          (λ k known_k e. known_k (fewer k e)) rest in
      let (u_ok, outs, same_u) = heal-Good ids vals t t_ok known_t in
      (
        u_ok,
        ap (λ x. x ∷ (heal ids vals t.index).0) out
            ∙ ap (λ xs. view rd prefix s id ∷ xs)
                (outs ∙ map-same (view rd prefix t) (view rd prefix s) ids same),
        λ j. same_u j ∙ same j,
      )

  -- What the answer to `GetMany` says of the values.
  abbrev pub Gives : List ℕ → (ℕ → Option Bytes) → Option (List (Option Bytes)) → Type 0
  Gives ids values none = Unit
  Gives ids values (some out) = out ≡ map values ids

  abbrev GoodMany : List ℕ → DataStore R → Option (List (Option Bytes)) × DataStore R → Type 0
  GoodMany ids s (o, t) =
      IsValid rd prefix t
      × Gives ids (view rd prefix s) o
      × Same (view rd prefix s) (view rd prefix t)

  get_many_mget-Good :
      (pres ids : List ℕ) (s : DataStore R)
      → IsValid rd prefix s
      → present ids s.index.pos ≡ pres
      → GoodMany ids s
          (get_many_mget rd prefix pres (rd.mget (map (record_key prefix) pres) s.rdb) ids s.index)
  get_many_mget-Good pres ids s ok e =
      let keys = map (record_key prefix) pres in
      let w = rd.mget keys s.rdb in
      let records : ((j : ℕ)
          → rd.holds (record_key prefix j) w.1 ≡ rd.holds (record_key prefix j) s.rdb) =
        λ j. (rd.mget-keeps keys (record_key prefix j) s.rdb).0 in
      let t_ok =
        same-IsValid rd prefix s w.1 ok
          (omega (arith, (rd.mget-keeps keys (sequence_key prefix) s.rdb).1)) in
      let same = unchanged rd prefix s w.1 records in
      elim (Option-cases w.0) [
        | inl none_e ↦
            subst (λ o. GoodMany ids s (get_many_mget rd prefix pres (o, w.1) ids s.index))
              (sym none_e) (t_ok, tt, same)
        | inr (raws, some_e) ↦
            let holds_at : ℕ → Option Bytes = λ k. rd.holds (record_key prefix k) s.rdb in
            let vals = id_to_val pres raws [] in
            let t : DataStore R = record s { rdb = w.1 } in
            let read : raws ≡ map holds_at pres =
              rd.mget-ok keys s.rdb raws some_e
              ∙ map-map (record_key prefix) (λ k. rd.holds k s.rdb) pres in
            let stored : All (λ k. lookup k vals ≡ some (holds_at k)) pres =
              subst (λ l. All (λ k. lookup k (id_to_val pres l []) ≡ some (holds_at k)) pres)
                (sym read) (id_to_val-All holds_at pres []) in
            let known : All (Known rd prefix t vals) ids =
              present-All (λ k. or_none (lookup k vals) ≡ rd.holds (record_key prefix k) w.1) ids
                s.index.pos
                (subst (All (λ k. or_none (lookup k vals) ≡ rd.holds (record_key prefix k) w.1))
                  (sym e)
                  (All-mono (λ k. lookup k vals ≡ some (holds_at k))
                    (λ k. or_none (lookup k vals) ≡ rd.holds (record_key prefix k) w.1) pres
                    (λ k found. ap or_none found ∙ sym (records k)) stored)) in
            let (u_ok, outs, same_u) = heal-Good ids vals t t_ok known in
            subst (λ o. GoodMany ids s (get_many_mget rd prefix pres (o, w.1) ids s.index))
              (sym some_e)
              (
                u_ok,
                outs ∙ map-same (view rd prefix t) (view rd prefix s) ids same,
                λ j. same_u j ∙ same j,
              )
      ]

  get_many_present-Good :
      (pres ids : List ℕ) (s : DataStore R)
      → IsValid rd prefix s
      → present ids s.index.pos ≡ pres
      → GoodMany ids s (get_many_present rd prefix pres ids s)
  get_many_present-Good [] ids s ok e = heal-Good ids [] s ok (
      present-All (λ k. or_none (lookup k []) ≡ rd.holds (record_key prefix k) s.rdb) ids
        s.index.pos
        (subst (All (λ k. or_none (lookup k []) ≡ rd.holds (record_key prefix k) s.rdb)) (sym e)
          tt))
  get_many_present-Good (p ∷ ps) ids s ok e = get_many_mget-Good (p ∷ ps) ids s ok e

  -- GetMany on a data store in order leaves it in order and the map from ids to values as it was,
  -- whatever Redis answers, and when it returns values, they are those of the map for the
  -- requested ids, in their order.
  pub get_many-Good :
      (ids : List ℕ) (s : DataStore R)
      → IsValid rd prefix s
      → IsValid rd prefix (get_many rd prefix ids s).1
        × Gives ids (view rd prefix s) (get_many rd prefix ids s).0
        × Same (view rd prefix s) (view rd prefix (get_many rd prefix ids s).1)
  unfolding get_many
  get_many-Good ids s ok = get_many_present-Good (present ids s.index.pos) ids s ok refl
