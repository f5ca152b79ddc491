-- ===== src/B2bService/Clients/Tokens.antt =====
-- The index of the tokens and the table of the clients (b2b_client.go).
use zmux_server.Base.{
  ℕ, ◌<◌, ◌≡◌, refl, ap, sym, ◌∙◌, subst, false, List, [], ◌∷◌, ◌++◌, none, some, Bytes, codes,
  lookup, insert, delete, nat_eq, nat_beq_iff, bytes_eq, bytes_beq_iff, ◌==◌, inserted, untouched,
  deleted, undeleted, Bool-cases, Option-cases, inl, inr,
}
use zmux_server.ObjectStore.{Store, empty, upsert, remove, get_one}
use zmux_server.ObjectStore.Values.{IsValid, empty-IsValid}
use zmux_server.ObjectStore.Upsert.{upsert-IsValid}
use zmux_server.ObjectStore.Remove.{remove-IsValid, get_one-upsert, get_one-remove}
use zmux_server.B2bClient.{Client}
use zmux_server.B2bService.Clients.{gen_unique_token}

-- A token stands for the client that has it, and each client in the table is found under its id and by its token.
pub record IsIndexed (objs : Store Client) (by_token : List (Bytes × Client)) : Type 0 where
  pub valid : IsValid objs
  pub known :
      (id : ℕ) (c : Client)
      → get_one id objs ≡ some c
      → (c.id ≡ id) × (lookup c.bearer_token by_token ≡ some c)
  pub tokens :
      (t : Bytes) (c : Client)
      → lookup t by_token ≡ some c
      → (get_one c.id objs ≡ some c) × (c.bearer_token ≡ t)

-- A client is put under its id and its token, which are new or were its own.
pub put-IsIndexed :
    (objs : Store Client) (by_token : List (Bytes × Client)) (c : Client)
    → 0 < c.id
    → ((t : Bytes) (d : Client)
        → lookup t by_token ≡ some d
        → (c.id == d.id) ≡ (c.bearer_token == t))
    → IsIndexed objs by_token
    → IsIndexed (upsert c.id c objs) (insert c.bearer_token c by_token)
put-IsIndexed objs by_token c positive same v = record {
  valid = upsert-IsValid c.id c objs positive v.valid;
  known = λ id d h. elim (Bool-cases (c.id == id)) [
    | inl own ↦
        let q : c ≡ d = cc (h, rw own at (get_one-upsert c.id id c objs)) in
        subst
          (λ x. (x.id ≡ id) × (lookup x.bearer_token (insert c.bearer_token c by_token) ≡ some x)) q
          (
            (nat_beq_iff c.id id).0 own,
            inserted c.bearer_token c.bearer_token c by_token
                ((bytes_beq_iff c.bearer_token c.bearer_token).1 refl),
          )
    | inr other ↦
        let (same_id, found) =
          v.known id d (sym (rw other at (get_one-upsert c.id id c objs)) ∙ h) in
        let apart : (c.bearer_token == d.bearer_token) ≡ false =
          sym (same d.bearer_token d found) ∙ (ap (λ k. c.id == k) same_id ∙ other) in
        (same_id, untouched c.bearer_token d.bearer_token c by_token apart ∙ found)
  ];
  tokens = λ t d h. elim (Bool-cases (c.bearer_token == t)) [
    | inl own ↦
        let q : c ≡ d = cc (h, inserted c.bearer_token t c by_token own) in
        subst (λ x. (get_one x.id (upsert c.id c objs) ≡ some x) × (x.bearer_token ≡ t)) q
          (
            rw ((nat_beq_iff c.id c.id).1 refl) at (get_one-upsert c.id c.id c objs),
            (bytes_beq_iff c.bearer_token t).0 own,
          )
    | inr other ↦
        let before = sym (untouched c.bearer_token t c by_token other) ∙ h in
        let (found, token) = v.tokens t d before in
        (get_one-upsert c.id d.id c objs ∙ (rw (same t d before ∙ other) found), token)
  ];
}

-- A client is taken out under its id and its token.
pub drop-IsIndexed :
    (objs : Store Client) (by_token : List (Bytes × Client)) (id : ℕ) (c : Client)
    → get_one id objs ≡ some c
    → IsIndexed objs by_token
    → IsIndexed (remove id objs) (delete c.bearer_token by_token)
drop-IsIndexed objs by_token id c here v = record {
  valid = remove-IsValid id objs v.valid;
  known = λ j d h. elim (Bool-cases (id == j)) [
    | inl own ↦ absurd (cc (h, rw own at (get_one-remove id j objs v.valid)))
    | inr other ↦
        let before = sym (rw other at (get_one-remove id j objs v.valid)) ∙ h in
        let (same_id, found) = v.known j d before in
        (
          same_id,
          elim (Bool-cases (c.bearer_token == d.bearer_token)) [
            | inr apart ↦ undeleted c.bearer_token d.bearer_token by_token apart ∙ found
            | inl equal ↦
                let q : c ≡ d = cc (
                  (v.known id c here).1,
                  ap (λ t. lookup t by_token)
                      ((bytes_beq_iff c.bearer_token d.bearer_token).0 equal),
                  found,
                ) in
                let same : id ≡ j = sym (v.known id c here).0 ∙ ap (λ x. x.id) q ∙ same_id in
                absurd (cc (other, (nat_beq_iff id j).1 same))
          ],
        )
  ];
  tokens = λ t d h. elim (Bool-cases (c.bearer_token == t)) [
    | inl own ↦ absurd (cc (h, deleted c.bearer_token t by_token own))
    | inr other ↦
        let (found, token) = v.tokens t d (sym (undeleted c.bearer_token t by_token other) ∙ h) in
        (
          elim (Bool-cases (id == d.id)) [
            | inr apart ↦ (rw apart at (get_one-remove id d.id objs v.valid)) ∙ found
            | inl equal ↦
                let q : c ≡ d =
                  cc (here, ap (λ k. get_one k objs) ((nat_beq_iff id d.id).0 equal), found) in
                let same : c.bearer_token ≡ t = ap (λ x. x.bearer_token) q ∙ token in
                absurd (cc (other, (bytes_beq_iff c.bearer_token t).1 same))
          ],
          token,
        )
  ];
}

pub gen_unique_token-fresh :
    (raws : List Bytes) (index : List (Bytes × Client)) (t : Bytes)
    → gen_unique_token raws index ≡ some t
    → lookup t index ≡ none
unfolding gen_unique_token
gen_unique_token-fresh [] index t h = absurd (cc h)
gen_unique_token-fresh (raw ∷ raws) index t h =
    elim (Option-cases (lookup (codes "b2b_" ++ raw) index)) [
      | inl e ↦
          subst (λ u. lookup u index ≡ none) (let q : codes "b2b_" ++ raw ≡ t = cc (rw e at h) in q)
            e
      | inr (c, e) ↦ gen_unique_token-fresh raws index t (rw e at h)
    ]

pub empty-IsIndexed : IsIndexed empty []
unfolding empty get_one lookup
empty-IsIndexed = record {
  valid = empty-IsValid;
  known = λ id c h. absurd (cc h);
  tokens = λ t c h. absurd (cc h);
}
