-- ===== src/Channel/Outputs.antt =====
-- internal/domain/channel/model.go: stream mappings, and the outputs by their ref.
use zmux_server.Base.{
  ℕ, zero, suc, ◌+◌, ◌≡◌, ◌≢◌, refl, sym, ap, subst, ◌∙◌, Bool, true, false, ◌||◌, List, [], ◌∷◌,
  Option, none, some, Bytes, bytes_eq, bytes_beq_iff, ◌==◌, if◌then◌else◌, codes, Map, lookup,
  insert, arith, lookup-insert, inl, inr, Bool-cases, get_elem?, All,
}
use native.Mathlib.Nat.{add-zero}
use zmux_server.Channel.Types.{Output, StreamMapping}

-- The first word that is no media type, when there is one.
pub data MappingError : Type 0 where
  no_media_type : MappingError
  invalid_value : Bytes → MappingError

abbrev pub is_media : Bytes → Bool
is_media s = s == codes "video" || s == codes "audio" || s == codes "data"

-- The loop of `Validate`.
unfoldable pub check_media : StreamMapping → Option MappingError
check_media [] = none
check_media (s ∷ sa) = if is_media s then check_media sa else some (invalid_value s)

unfoldable pub validate_mapping : StreamMapping → Option MappingError
unfolding check_media
validate_mapping [] = some no_media_type
validate_mapping (s ∷ sa) = check_media (s ∷ sa)

unfoldable pub has : StreamMapping → Bytes → Bool
has [] target = false
has (s ∷ sa) target = if s == target then true else has sa target

unfoldable pub has_video : StreamMapping → Bool
unfolding has
has_video sa = has sa (codes "video")

unfoldable pub has_audio : StreamMapping → Bool
unfolding has
has_audio sa = has sa (codes "audio")

unfoldable pub has_data : StreamMapping → Bool
unfolding has
has_data sa = has sa (codes "data")

-- A stream mapping that passes `Validate` selects video, audio or data.
pub validate_mapping-selects :
    (sa : StreamMapping)
    → validate_mapping sa ≡ none
    → (has_video sa || has_audio sa || has_data sa) ≡ true
unfolding validate_mapping has_video has_audio has_data
validate_mapping-selects [] h = cc
validate_mapping-selects (s ∷ sa) h = ground arith

pub record OutputEntry : Type 0 where
  pub index : ℕ
  pub output : Output

-- The loop of `OutputsByRef`, from index `i` on.
unfoldable pub outputs_from : ℕ → List Output → Map Bytes OutputEntry → Map Bytes OutputEntry
outputs_from i [] m = m
outputs_from i (o ∷ os) m =
    outputs_from (suc i) os (insert o.ref (record { index = i; output = o }) m)

unfoldable pub outputs_by_ref : List Output → Map Bytes OutputEntry
unfolding outputs_from
outputs_by_ref os = outputs_from 0 os []

-- No two outputs have one ref: what `Validate` asks for.
abbrev pub RefFree : Bytes → List Output → Type 0
RefFree r os = All (λ o. o.ref ≢ r) os

abbrev pub RefsDistinct : List Output → Type 0
RefsDistinct [] = Unit
RefsDistinct (o ∷ os) = RefFree o.ref os × RefsDistinct os

beq-ne : (a b : Bytes) → a ≢ b → (a == b) ≡ false
beq-ne a b h = elim (Bool-cases (a == b)) [
  | inl e ↦ absurd (h ((bytes_beq_iff a b).0 e))
  | inr e ↦ e
]

outputs_from_missing :
    (i : ℕ) (os : List Output) (m : Map Bytes OutputEntry) (r : Bytes)
    → RefFree r os
    → lookup r (outputs_from i os m) ≡ lookup r m
unfolding outputs_from
outputs_from_missing i [] m r h = refl
outputs_from_missing i (o ∷ os) m r h = rw (
  outputs_from_missing (suc i) os (insert o.ref (record { index = i; output = o }) m) r h.1,
  lookup-insert o.ref r (record { index = i; output = o }) m,
  beq-ne o.ref r h.0,
)

outputs_from_found :
    (i k : ℕ) (os : List Output) (m : Map Bytes OutputEntry) (o : Output)
    → RefsDistinct os
    → get_elem? os k ≡ some o
    → lookup o.ref (outputs_from i os m) ≡ some (record { index = i + k; output = o })
unfolding outputs_from
outputs_from_found i k [] m o d h = cc
outputs_from_found i zero (p ∷ os) m o d h =
    subst
      (λ q.
        lookup q.ref (outputs_from i (p ∷ os) m) ≡ some (record { index = i + zero; output = q }))
      (let e : p ≡ o = cc in e)
      (unfold outputs_from in
        rw (
          outputs_from_missing (suc i) os (insert p.ref (record { index = i; output = p }) m) p.ref
              d.0,
          lookup-insert p.ref p.ref (record { index = i; output = p }) m,
          (bytes_beq_iff p.ref p.ref).1 refl,
          add-zero,
        ))
outputs_from_found i (suc k) (p ∷ os) m o d h =
    let e : i + suc k ≡ suc i + k = omega arith in
    rw e
      (outputs_from_found (suc i) k os (insert p.ref (record { index = i; output = p }) m) o d.1 h)

-- With distinct refs every output is found by its ref, with its position.
pub lookup-outputs_by_ref :
    (os : List Output) (k : ℕ) (o : Output)
    → RefsDistinct os
    → get_elem? os k ≡ some o
    → lookup o.ref (outputs_by_ref os) ≡ some (record { index = k; output = o })
unfolding outputs_by_ref
lookup-outputs_by_ref os k o d h =
    let e : k ≡ 0 + k = omega arith in
    outputs_from_found 0 k os [] o d h ∙ ap (λ i. some (record { index = i; output = o })) (sym e)
