-- ===== src/Dto/Outputs.antt =====
-- A client's patch of the outputs by their ref (channel_modify.go).
use zmux_server.Base.{
  ℕ, zero, suc, ◌+◌, ◌≡◌, ◌⊎◌, inl, inr, ◌∙◌, refl, ap, sym, subst, true, false, List, [], ◌∷◌,
  Option, none, some, Bytes, bytes_eq, bytes_beq_iff, ◌==◌, if◌then◌else◌, Map, lookup, insert,
  inserted, untouched, Bool-cases, arith,
}
use zmux_server.Channel.Types.{Output}
use zmux_server.Channel.Outputs.{OutputEntry, outputs_from, outputs_by_ref}
use zmux_server.Dto.Fields.{
  W, omitted, null, value, b2b_client, Error, at_ref, accepted, refused, within, bind-accepted,
  within-accepted,
}
use zmux_server.Dto.Modify.{
  ChannelOutputModify, no_output, merge_output, merge_at, is_open, may_set, merge_member,
  merge_members,
}
use zmux_server.Dto.Client.{merge_output-client}

-- What a client may do to an output: to enable or disable one of three.
abbrev pub IsClientEdit : Output → Output → Type 0
IsClientEdit p q = (q ≡ record p { enabled = q.enabled }) × (is_open p.ref ≡ false → q ≡ p)

abbrev pub AreClientEdits : List Output → List Output → Type 0
AreClientEdits [] [] = Unit
AreClientEdits (p ∷ ps) (q ∷ qs) = IsClientEdit p q × AreClientEdits ps qs
AreClientEdits _ _ = ⊥

unfoldable ref_at : ℕ → List Output → Option Bytes
ref_at i [] = none
ref_at zero (o ∷ os) = some o.ref
ref_at (suc i) (o ∷ os) = ref_at i os

pub same-AreClientEdits : (os : List Output) → AreClientEdits os os
same-AreClientEdits [] = tt
same-AreClientEdits (o ∷ os) = ((refl, λ h. refl), same-AreClientEdits os)

trans-IsClientEdit : (p q r : Output) → IsClientEdit p q → IsClientEdit q r → IsClientEdit p r
trans-IsClientEdit p q r (a, a') (b, b') =
    (cc (a, b), λ closed. b' (ap (λ o. is_open o.ref) a ∙ closed) ∙ a' closed)

trans-AreClientEdits :
    (ps qs rs : List Output) → AreClientEdits ps qs → AreClientEdits qs rs → AreClientEdits ps rs
trans-AreClientEdits [] [] [] a b = tt
trans-AreClientEdits [] [] (r ∷ rs) a b = absurd b
trans-AreClientEdits [] (q ∷ qs) rs a b = absurd a
trans-AreClientEdits (p ∷ ps) [] rs a b = absurd a
trans-AreClientEdits (p ∷ ps) (q ∷ qs) [] a b = absurd b
trans-AreClientEdits (p ∷ ps) (q ∷ qs) (r ∷ rs) (a, more) (b, more') =
    (trans-IsClientEdit p q r a b, trans-AreClientEdits ps qs rs more more')

ref_at-edited : (i : ℕ) (ps qs : List Output) → AreClientEdits ps qs → ref_at i qs ≡ ref_at i ps
unfolding ref_at
ref_at-edited i [] [] a = refl
ref_at-edited i [] (q ∷ qs) a = absurd a
ref_at-edited zero (p ∷ ps) [] a = absurd a
ref_at-edited (suc i) (p ∷ ps) [] a = absurd a
ref_at-edited zero (p ∷ ps) (q ∷ qs) ((a, _), more) = ap (λ o. some o.ref) a
ref_at-edited (suc i) (p ∷ ps) (q ∷ qs) (a, more) = ref_at-edited i ps qs more

-- The entry under a ref is the place of an output with it.
outputs_from-ref_at :
    (n : ℕ) (os : List Output) (m : Map Bytes OutputEntry) (r : Bytes) (e : OutputEntry)
    → lookup r (outputs_from n os m) ≡ some e
    → (lookup r m ≡ some e) ⊎ ((k : ℕ) × (e.index ≡ n + k) × (ref_at k os ≡ some r))
unfolding outputs_from ref_at
outputs_from-ref_at n [] m r e h = inl h
outputs_from-ref_at n (o ∷ os) m r e h =
    let entry : OutputEntry = record { index = n; output = o } in
    elim (outputs_from-ref_at (suc n) os (insert o.ref entry m) r e h) [
      | inr (k, at, found) ↦ inr (suc k, omega (arith, at), found)
      | inl old ↦ elim (Bool-cases (o.ref == r)) [
        | inl own ↦
            let same : e ≡ entry = cc (old, inserted o.ref r entry m own) in
            inr
              (zero, omega (arith, ap (λ x. x.index) same), ap some ((bytes_beq_iff o.ref r).0 own))
        | inr other ↦ inl (sym (untouched o.ref r entry m other) ∙ old)
      ]
    ]

outputs_by_ref-ref_at :
    (os : List Output) (r : Bytes) (e : OutputEntry)
    → lookup r (outputs_by_ref os) ≡ some e
    → ref_at e.index os ≡ some r
unfolding outputs_by_ref lookup
outputs_by_ref-ref_at os r e h = elim (outputs_from-ref_at 0 os [] r e h) [
  | inl old ↦ absurd (cc old)
  | inr (k, at, found) ↦
      let same : k ≡ e.index = omega (arith, at) in subst (λ i. ref_at i os ≡ some r) same found
]

merge_at-client :
    (i : ℕ) (req : ChannelOutputModify) (os qs : List Output) (r : Bytes)
    → is_open r ≡ true
    → ref_at i os ≡ some r
    → merge_at i req b2b_client os ≡ accepted qs
    → AreClientEdits os qs
unfolding merge_at ref_at
merge_at-client i req [] qs r open_ref at h = absurd (cc at)
merge_at-client zero req (o ∷ os) qs r open_ref at h =
    let (q, e, f) = bind-accepted (merge_output req o b2b_client) _ qs h in
    let same : qs ≡ q ∷ os = cc f in
    let ref : o.ref ≡ r = cc at in
    subst (AreClientEdits (o ∷ os)) (sym same) (
      (merge_output-client req o q e, λ closed. absurd (cc (closed, open_ref, ap is_open ref))),
      same-AreClientEdits os,
    )
merge_at-client (suc i) req (o ∷ os) qs r open_ref at h =
    let (ts, e, f) = bind-accepted (merge_at i req b2b_client os) _ qs h in
    let same : qs ≡ o ∷ ts = cc f in
    subst (AreClientEdits (o ∷ os)) (sym same)
      ((refl, λ closed. refl), merge_at-client i req os ts r open_ref at e)

open_at-client :
    (e : OutputEntry) (ref : Bytes) (req : ChannelOutputModify) (os qs : List Output)
    (refusal : Error)
    → ref_at e.index os ≡ some ref
    → (if may_set b2b_client ref
        then within (at_ref ref) (merge_at e.index req b2b_client os)
        else refused refusal)
      ≡ accepted qs
    → AreClientEdits os qs
open_at-client e ref req os qs refusal at h = elim (Bool-cases (is_open ref)) [
  | inl open_ref ↦
      merge_at-client e.index req os qs ref open_ref at
        (within-accepted (at_ref ref) (merge_at e.index req b2b_client os) qs (rw open_ref at h))
  | inr closed ↦ absurd (cc (rw closed at h))
]

merge_member-client :
    (o : Option OutputEntry) (ref : Bytes) (w : W ChannelOutputModify) (os qs : List Output)
    → ((e : OutputEntry) → o ≡ some e → ref_at e.index os ≡ some ref)
    → merge_member o ref w b2b_client os ≡ accepted qs
    → AreClientEdits os qs
merge_member-client none ref w os qs sound h = absurd (cc h)
merge_member-client (some e) ref null os qs sound h = absurd (cc h)
merge_member-client (some e) ref omitted os qs sound h =
    open_at-client e ref no_output os qs _ (sound e refl) h
merge_member-client (some e) ref (value req) os qs sound h =
    open_at-client e ref req os qs _ (sound e refl) h

merge_members-client :
    (ms : List (Bytes × W ChannelOutputModify)) (by_ref : Map Bytes OutputEntry)
    (os qs : List Output)
    → ((r : Bytes) (e : OutputEntry) → lookup r by_ref ≡ some e → ref_at e.index os ≡ some r)
    → merge_members ms by_ref b2b_client os ≡ accepted qs
    → AreClientEdits os qs
unfolding merge_members
merge_members-client [] by_ref os qs sound h =
    let same : os ≡ qs = cc h in subst (AreClientEdits os) same (same-AreClientEdits os)
merge_members-client ((ref, w) ∷ rest) by_ref os qs sound h =
    let (ts, e, f) = bind-accepted (merge_member (lookup ref by_ref) ref w b2b_client os) _ qs h in
    let first = merge_member-client (lookup ref by_ref) ref w os ts (sound ref) e in
    trans-AreClientEdits os ts qs first (
      merge_members-client rest by_ref ts qs
        (λ r x g. ref_at-edited x.index os ts first ∙ sound r x g) f)

-- A client's patch of the outputs by their ref only enables or disables those that are open to it.
pub merge_by_ref-client :
    (ms : List (Bytes × W ChannelOutputModify)) (os qs : List Output)
    → merge_members ms (outputs_by_ref os) b2b_client os ≡ accepted qs
    → AreClientEdits os qs
merge_by_ref-client ms os qs h =
    merge_members-client ms (outputs_by_ref os) os qs (outputs_by_ref-ref_at os) h
