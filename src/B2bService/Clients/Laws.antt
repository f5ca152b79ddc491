-- ===== src/B2bService/Clients/Laws.antt =====
-- Create, Update and Delete of clients keep the index of the tokens (b2b_client.go).
use zmux_server.Base.{
  ℕ, ◌<◌, ◌≡◌, refl, ap, sym, ◌∙◌, subst, List, [], ◌∷◌, Option, none, some, Bytes, lookup, insert,
  nat_eq, nat_beq_iff, bytes_eq, bytes_beq_iff, ◌==◌, Bool-cases, inl, inr,
}
use zmux_server.ObjectStore.{upsert, get_one}
use zmux_server.B2bClient.{
  Client, ClientResource, ClientModel, ClientView, new_client_model, new_client,
}
use zmux_server.B2bService.{ProcessManager, or_nil}
use zmux_server.B2bService.Clients.{
  ClientStore, Limited, Clients, Reply, replied, gen_unique_token, with_view, create_stored,
  create_token, create, limited, update_stored, update_at, update, erased, erase_free, erase_at,
  erase,
}
use zmux_server.B2bService.Clients.Tokens.{
  IsIndexed, put-IsIndexed, drop-IsIndexed, gen_unique_token-fresh,
}

module _ {ℓ} {D P : Type ℓ} where
  -- A reply leaves the index in agreement.
  abbrev pub Kept : Reply (ClientView × Clients D P) → Type 0
  Kept (replied (v, s)) = IsIndexed s.objs s.by_token
  Kept _ = Unit

  abbrev pub Erased : Reply (Clients D P) → Type 0
  Erased (replied s) = IsIndexed s.objs s.by_token
  Erased _ = Unit

module _ {ℓ} {D P : Type ℓ} (db : ClientStore D) (pm : ProcessManager P) (lm : Limited P) where
  with_view-Kept :
      (o : Option ClientView) (s : Clients D P)
      → IsIndexed s.objs s.by_token
      → Kept (with_view db pm lm o s)
  with_view-Kept none s v = tt
  with_view-Kept (some view) s v = v

  -- The data store gives ids that are positive and not in the table.
  abbrev pub GivesNew : Clients D P → Type ℓ
  GivesNew s =
      (m : Option ClientModel) (id : ℕ) (ds : D)
      → db.create m s.ds ≡ some (id, ds)
      → (0 < id) × (get_one id s.objs ≡ none)

  new_apart :
      (s : Clients D P) (id : ℕ) (t : Bytes)
      → IsIndexed s.objs s.by_token
      → get_one id s.objs ≡ none
      → lookup t s.by_token ≡ none
      → (u : Bytes) (d : Client) → lookup u s.by_token ≡ some d
      → (id == d.id) ≡ (t == u)
  new_apart s id t v free unused u d h = elim (Bool-cases (id == d.id)) [
    | inl e ↦
        absurd
          (cc (free, ap (λ k. get_one k s.objs) ((nat_beq_iff id d.id).0 e), (v.tokens u d h).0))
    | inr e ↦ elim (Bool-cases (t == u)) [
      | inl f ↦ absurd (cc (unused, ap (λ k. lookup k s.by_token) ((bytes_beq_iff t u).0 f), h))
      | inr f ↦ e ∙ sym f
    ]
  ]

  create_stored-Kept :
      (r : ClientResource) (t : Bytes) (o : Option (ℕ × D)) (s : Clients D P)
      → IsIndexed s.objs s.by_token
      → lookup t s.by_token ≡ none
      → ((id : ℕ) (ds : D) → o ≡ some (id, ds) → (0 < id) × (get_one id s.objs ≡ none))
      → Kept (create_stored db pm lm o (new_client_model (some r) t) s)
  unfolding new_client_model new_client
  create_stored-Kept r t none s v unused new = tt
  create_stored-Kept r t (some (id, ds)) s v unused new =
      let (positive, free) = new id ds refl in
      with_view-Kept _ _
        (put-IsIndexed s.objs s.by_token _ positive (new_apart s id t v free unused) v)

  create_token-Kept :
      (r : ClientResource) (o : Option Bytes) (s : Clients D P)
      → IsIndexed s.objs s.by_token
      → ((t : Bytes) → o ≡ some t → lookup t s.by_token ≡ none)
      → GivesNew s
      → Kept (create_token db pm lm o r s)
  create_token-Kept r none s v unused new = tt
  create_token-Kept r (some t) s v unused new =
      create_stored-Kept r t (db.create (new_client_model (some r) t) s.ds) s v (unused t refl)
        (λ id ds h. new (new_client_model (some r) t) id ds h)

  create-Kept :
      (r : ClientResource) (raws : List Bytes) (s : Clients D P)
      → IsIndexed s.objs s.by_token
      → GivesNew s
      → Kept (create db pm lm r raws s)
  unfolding create
  create-Kept r raws s v new =
      create_token-Kept r (gen_unique_token raws s.by_token) s v
        (gen_unique_token-fresh raws s.by_token) new

  -- The client under an id gets another record with its token.
  same_apart :
      (s : Clients D P) (id : ℕ) (c : Client)
      → IsIndexed s.objs s.by_token
      → get_one id s.objs ≡ some c
      → (u : Bytes) (d : Client) → lookup u s.by_token ≡ some d
      → (id == d.id) ≡ (c.bearer_token == u)
  same_apart s id c v here u d h =
      let (found, token) = v.tokens u d h in
      let (same_id, by_its) = v.known id c here in
      elim (Bool-cases (id == d.id)) [
        | inl e ↦
            let q : c ≡ d =
              cc (here, ap (λ k. get_one k s.objs) ((nat_beq_iff id d.id).0 e), found) in
            e ∙ sym ((bytes_beq_iff c.bearer_token u).1 (ap (λ x. x.bearer_token) q ∙ token))
        | inr e ↦ elim (Bool-cases (c.bearer_token == u)) [
          | inr f ↦ e ∙ sym f
          | inl f ↦
              let q : c ≡ d =
                cc (
                  by_its,
                  ap (λ k. lookup k s.by_token) ((bytes_beq_iff c.bearer_token u).0 f),
                  h,
                ) in
              absurd (cc (e, (nat_beq_iff id d.id).1 (sym same_id ∙ ap (λ x. x.id) q)))
        ]
      ]

  limited-Kept :
      (o : Option P) (c : Client) (ds : D) (s : Clients D P)
      → IsIndexed (upsert c.id c s.objs) (insert c.bearer_token c s.by_token)
      → Kept (limited db pm lm o c c.id ds s)
  limited-Kept none c ds s v = tt
  limited-Kept (some p) c ds s v = with_view-Kept _ _ v

  update_stored-Kept :
      (r : ClientResource) (o : Option D) (c : Client) (p : P) (id : ℕ) (s : Clients D P)
      → IsIndexed s.objs s.by_token
      → 0 < id
      → get_one id s.objs ≡ some c
      → Kept (update_stored db pm lm o (new_client_model (some r) c.bearer_token) p id s)
  unfolding new_client_model new_client
  update_stored-Kept r none c p id s v positive here = tt
  update_stored-Kept r (some ds) c p id s v positive here =
      limited-Kept _ _ ds s
        (put-IsIndexed s.objs s.by_token _ positive (same_apart s id c v here) v)

  update_at-Kept :
      (r : ClientResource) (o : Option Client) (q : Option P) (id : ℕ) (s : Clients D P)
      → IsIndexed s.objs s.by_token
      → 0 < id
      → get_one id s.objs ≡ o
      → Kept (update_at db pm lm o q id r s)
  update_at-Kept r none q id s v positive here = tt
  update_at-Kept r (some c) none id s v positive here = tt
  update_at-Kept r (some c) (some p) id s v positive here =
      update_stored-Kept r (db.update id (new_client_model (some r) c.bearer_token) s.ds) c p id s v
        positive here

  update-Kept :
      (id : ℕ) (r : ClientResource) (s : Clients D P)
      → IsIndexed s.objs s.by_token
      → 0 < id
      → Kept (update db pm lm id r s)
  unfolding update
  update-Kept id r s v positive =
      update_at-Kept r (get_one id s.objs) (lookup id s.service.procmngrs) id s v positive refl

  erase_free-Erased :
      (chs : List ℕ) (c : Client) (id : ℕ) (o : Option D) (s : Clients D P)
      → IsIndexed s.objs s.by_token
      → get_one id s.objs ≡ some c
      → db.erase id s.ds ≡ o
      → Erased (erase_free db pm lm chs c id s)
  erase_free-Erased (ch ∷ chs) c id o s v here e = tt
  erase_free-Erased [] c id none s v here e =
      subst (λ x. Erased (erased db pm lm x c id s)) (sym e) tt
  erase_free-Erased [] c id (some ds) s v here e =
      subst (λ x. Erased (erased db pm lm x c id s)) (sym e)
        (drop-IsIndexed s.objs s.by_token id c here v)

  erase_at-Erased :
      (o : Option Client) (id : ℕ) (s : Clients D P)
      → IsIndexed s.objs s.by_token
      → get_one id s.objs ≡ o
      → Erased (erase_at db pm lm o id s)
  erase_at-Erased none id s v here = tt
  erase_at-Erased (some c) id s v here =
      erase_free-Erased (or_nil (lookup id s.service.client_channels)) c id (db.erase id s.ds) s v
        here refl

  erase-Erased :
      (id : ℕ) (s : Clients D P) → IsIndexed s.objs s.by_token → Erased (erase db pm lm id s)
  unfolding erase
  erase-Erased id s v = erase_at-Erased (get_one id s.objs) id s v refl

  -- When each token stands for the client in the table that has it, and each client in the table
  -- is found under its id and by its token, then after a Create, when the data store gives ids
  -- that are positive and new, an Update of a positive id or a Delete, each of which goes through,
  -- this is so again.
  pub calls-Kept :
      (s : Clients D P)
      → IsIndexed s.objs s.by_token
      → GivesNew s
      → ((r : ClientResource) (raws : List Bytes) → Kept (create db pm lm r raws s))
        × ((id : ℕ) (r : ClientResource) → 0 < id → Kept (update db pm lm id r s))
        × ((id : ℕ) → Erased (erase db pm lm id s))
  calls-Kept s v new = (
    λ r raws. create-Kept r raws s v new,
    λ id r positive. update-Kept id r s v positive,
    λ id. erase-Erased id s v,
  )
