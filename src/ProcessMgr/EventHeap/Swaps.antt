-- ===== src/ProcessMgr/EventHeap/Swaps.antt =====
-- What `Swap` of `eventHeap` (scheduler.go) leaves at each place.
use zmux_server.Base.{
  ℕ, ◌≡◌, ◌⊎◌, refl, ap, sym, ◌∙◌, true, List, Option, none, some, get_elem?, if◌then◌else◌, ◌==◌,
  nat_eq, nat_beq_iff, Bool-cases, Option-cases, is_some, inl, inr,
}
use zmux_server.Base.Int.{pos}
use zmux_server.ProcessMgr.EventHeap.{SchedEvent, update_at, mark, swap}
use zmux_server.ProcessMgr.EventHeap.Laws.{on_some, get_elem-update_at, get_elem-update_at_other}

-- An event with a place as its index.
abbrev pub placed : ℕ → Option SchedEvent → Option SchedEvent
placed k none = none
placed k (some ev) = some (record ev { index = pos k })

-- What stands at a place after an exchange of two.
abbrev pub exchanged : ℕ → ℕ → List SchedEvent → ℕ → Option SchedEvent
exchanged i j h k =
    if j == k
    then placed k (get_elem? h i)
    else if i == k
    then placed k (get_elem? h j)
    else get_elem? h k

at_place :
    (i k : ℕ) (f : SchedEvent → SchedEvent) (h : List SchedEvent)
    → get_elem? (update_at i f h) k ≡ (if i == k then on_some f (get_elem? h k) else get_elem? h k)
at_place i k f h = elim (Bool-cases (i == k)) [
  | inl own ↦
      let e : i ≡ k = (nat_beq_iff i k).0 own in
      rw own (ap (λ x. get_elem? (update_at x f h) k) e ∙ get_elem-update_at k f h)
  | inr other ↦ rw other (get_elem-update_at_other i k f h (λ e. cc (other, (nat_beq_iff i k).1 e)))
]

exchanges :
    (i j : ℕ) (a b : SchedEvent) (h : List SchedEvent) (k : ℕ)
    → get_elem? h i ≡ some a
    → get_elem? h j ≡ some b
    → get_elem? (mark j (mark i (update_at j (λ _. a) (update_at i (λ _. b) h)))) k
      ≡ exchanged i j h k
exchanges i j a b h k at_i at_j =
    let first = update_at i (λ _. b) h in
    let both = update_at j (λ _. a) first in
    elim (Bool-cases (j == k)) [
      | inl second ↦
          let e : j ≡ k = (nat_beq_iff j k).0 second in
          let here : get_elem? h k ≡ some b = ap (λ x. get_elem? h x) (sym e) ∙ at_j in
          elim (Bool-cases (i == k)) [
            | inl same ↦
                rw
                  (
                    at_place j k (λ ev. record ev { index = pos j }) (mark i both),
                    at_place i k (λ ev. record ev { index = pos i }) both,
                    at_place j k (λ _. a) first,
                    at_place i k (λ _. b) h,
                    second,
                    same,
                    at_i,
                    here,
                  )
                  (ap (λ x. some (record a { index = pos x })) e)
            | inr other ↦
                rw
                  (
                    at_place j k (λ ev. record ev { index = pos j }) (mark i both),
                    at_place i k (λ ev. record ev { index = pos i }) both,
                    at_place j k (λ _. a) first,
                    at_place i k (λ _. b) h,
                    second,
                    other,
                    at_i,
                    here,
                  )
                  (ap (λ x. some (record a { index = pos x })) e)
          ]
      | inr not_second ↦ elim (Bool-cases (i == k)) [
        | inl first_place ↦
            let e : i ≡ k = (nat_beq_iff i k).0 first_place in
            let here : get_elem? h k ≡ some a = ap (λ x. get_elem? h x) (sym e) ∙ at_i in
            rw
              (
                at_place j k (λ ev. record ev { index = pos j }) (mark i both),
                at_place i k (λ ev. record ev { index = pos i }) both,
                at_place j k (λ _. a) first,
                at_place i k (λ _. b) h,
                not_second,
                first_place,
                at_j,
                here,
              )
              (ap (λ x. some (record b { index = pos x })) e)
        | inr other ↦
            rw
              (
                at_place j k (λ ev. record ev { index = pos j }) (mark i both),
                at_place i k (λ ev. record ev { index = pos i }) both,
                at_place j k (λ _. a) first,
                at_place i k (λ _. b) h,
                not_second,
                other,
              )
              refl
      ]
    ]

-- `Swap` panics when one of the two places is out of range. Otherwise the two events have
-- changed places, each with its new place as its index, and what stands at every other place is
-- as before.
pub swap_lem :
    (i j : ℕ) (h : List SchedEvent)
    → ((swap i j h ≡ none) × ((get_elem? h i ≡ none) ⊎ (get_elem? h j ≡ none)))
      ⊎ ((t : List SchedEvent) × (swap i j h ≡ some t)
          × (is_some (get_elem? h i) ≡ true)
          × (is_some (get_elem? h j) ≡ true)
          × ((k : ℕ) → get_elem? t k ≡ exchanged i j h k))
unfolding swap
swap_lem i j h = elim (Option-cases (get_elem? h i)) [
  | inl out ↦ inl (rw (swap, out) refl, inl out)
  | inr (a, at_i) ↦ elim (Option-cases (get_elem? h j)) [
    | inl out ↦ inl (rw (swap, at_i, out) refl, inr out)
    | inr (b, at_j) ↦ inr (
      mark j (mark i (update_at j (λ _. a) (update_at i (λ _. b) h))),
      rw (swap, at_i, at_j) refl,
      ap is_some at_i,
      ap is_some at_j,
      λ k. exchanges i j a b h k at_i at_j,
    )
  ]
]
