-- ===== src/ProcessMgr/EventHeap/Laws.antt =====
-- The methods of `eventHeap` (scheduler.go) and the index that each event keeps of its place.
use zmux_server.Base.{
  ℕ, zero, suc, ◌-◌, ◌≡◌, ◌≢◌, ◌⊎◌, subst, refl, ap, sym, ◌∙◌, List, [], ◌∷◌, ◌++◌, Option, none,
  some, get_elem?, length, take, Option-cases, inl, inr, ℕ_discrete,
}
use zmux_server.Base.Int.{pos}
use zmux_server.ProcessMgr.EventHeap.{
  SchedEvent, update_at, mark, swap, swap_of, push, pop, pop_of, last,
}

abbrev pub on_some : (SchedEvent → SchedEvent) → Option SchedEvent → Option SchedEvent
on_some f none = none
on_some f (some ev) = some (f ev)

pub get_elem-update_at :
    (i : ℕ) (f : SchedEvent → SchedEvent) (h : List SchedEvent)
    → get_elem? (update_at i f h) i ≡ on_some f (get_elem? h i)
get_elem-update_at i f [] = refl
get_elem-update_at zero f (x ∷ h) = refl
get_elem-update_at (suc i) f (x ∷ h) = get_elem-update_at i f h

pub get_elem-update_at_other :
    (i k : ℕ) (f : SchedEvent → SchedEvent) (h : List SchedEvent)
    → i ≢ k
    → get_elem? (update_at i f h) k ≡ get_elem? h k
get_elem-update_at_other i k f [] ne = refl
get_elem-update_at_other zero zero f (x ∷ h) ne = absurd (ne refl)
get_elem-update_at_other zero (suc k) f (x ∷ h) ne = refl
get_elem-update_at_other (suc i) zero f (x ∷ h) ne = refl
get_elem-update_at_other (suc i) (suc k) f (x ∷ h) ne =
    get_elem-update_at_other i k f h (λ e. ne (ap suc e))

-- Each event has its own place as its index.
abbrev pub IsIndexed : List SchedEvent → Type 0
IsIndexed h = (k : ℕ) (ev : SchedEvent) → get_elem? h k ≡ some ev → ev.index ≡ pos k

-- Each event at a place other than two has its own place as its index.
abbrev IsIndexedBut : ℕ → ℕ → List SchedEvent → Type 0
IsIndexedBut i j h =
    (k : ℕ) (ev : SchedEvent) → i ≢ k → j ≢ k → get_elem? h k ≡ some ev → ev.index ≡ pos k

at_first-IsIndexedBut :
    (i j : ℕ) (f : SchedEvent → SchedEvent) (h : List SchedEvent)
    → IsIndexedBut i j h
    → IsIndexedBut i j (update_at i f h)
at_first-IsIndexedBut i j f h v k ev ni nj e =
    v k ev ni nj (sym (get_elem-update_at_other i k f h ni) ∙ e)

at_second-IsIndexedBut :
    (i j : ℕ) (f : SchedEvent → SchedEvent) (h : List SchedEvent)
    → IsIndexedBut i j h
    → IsIndexedBut i j (update_at j f h)
at_second-IsIndexedBut i j f h v k ev ni nj e =
    v k ev ni nj (sym (get_elem-update_at_other j k f h nj) ∙ e)

marked :
    (k : ℕ) (h : List SchedEvent) (ev : SchedEvent)
    → get_elem? (mark k h) k ≡ some ev
    → ev.index ≡ pos k
marked k h ev e = elim (Option-cases (get_elem? h k)) [
  | inl gone ↦
      absurd (cc (rw (get_elem-update_at k (λ x. record x { index = pos k }) h, gone) at e))
  | inr (old, found) ↦
      let q : record old { index = pos k } ≡ ev =
        cc (rw (get_elem-update_at k (λ x. record x { index = pos k }) h, found) at e) in
      ap (λ x. x.index) (sym q)
]

mark-IsIndexedBut :
    (i j : ℕ) (h : List SchedEvent) → IsIndexedBut i j h → IsIndexedBut j j (mark i h)
mark-IsIndexedBut i j h v k ev nj nj' e = elim (ℕ_discrete i k) [
  | yes same ↦ marked k h ev (rw same at e)
  | no other ↦
      v k ev other nj
        (sym (get_elem-update_at_other i k (λ x. record x { index = pos i }) h other) ∙ e)
]

mark-IsIndexed : (j : ℕ) (h : List SchedEvent) → IsIndexedBut j j h → IsIndexed (mark j h)
mark-IsIndexed j h v k ev e = elim (ℕ_discrete j k) [
  | yes same ↦ marked k h ev (rw same at e)
  | no other ↦
      v k ev other other
        (sym (get_elem-update_at_other j k (λ x. record x { index = pos j }) h other) ∙ e)
]

swap_of-IsIndexed :
    (o p : Option SchedEvent) (i j : ℕ) (h t : List SchedEvent)
    → IsIndexed h
    → swap_of o p i j h ≡ some t
    → IsIndexed t
swap_of-IsIndexed none p i j h t v e = absurd (cc e)
swap_of-IsIndexed (some a) none i j h t v e = absurd (cc e)
swap_of-IsIndexed (some a) (some b) i j h t v e =
    let moved = update_at j (λ _. a) (update_at i (λ _. b) h) in
    let q : mark j (mark i moved) ≡ t = cc e in
    subst IsIndexed q (
      mark-IsIndexed j (mark i moved) (
        mark-IsIndexedBut i j moved (
          at_second-IsIndexedBut i j (λ _. a) (update_at i (λ _. b) h)
            (at_first-IsIndexedBut i j (λ _. b) h (λ k ev ni nj found. v k ev found)))))

append-last :
    (k : ℕ) (h : List SchedEvent) (x ev : SchedEvent)
    → get_elem? (h ++ (x ∷ [])) k ≡ some ev
    → (get_elem? h k ≡ some ev) ⊎ ((k ≡ length h) × (x ≡ ev))
append-last zero [] x ev e = inr (refl, cc e)
append-last (suc k) [] x ev e = absurd (cc e)
append-last zero (y ∷ h) x ev e = inl e
append-last (suc k) (y ∷ h) x ev e = elim (append-last k h x ev e) [
  | inl found ↦ inl found
  | inr (at_end, same) ↦ inr (ap suc at_end, same)
]

push-IsIndexed : (new : SchedEvent) (h : List SchedEvent) → IsIndexed h → IsIndexed (push new h)
unfolding push
push-IsIndexed new h v k ev e =
    elim (append-last k h (record new { index = pos (length h) }) ev e) [
      | inl found ↦ v k ev found
      | inr (at_end, same) ↦ ap (λ x. x.index) (sym same) ∙ ap pos (sym at_end)
    ]

get_elem-take :
    (n k : ℕ) (h : List SchedEvent) (ev : SchedEvent)
    → get_elem? (take n h) k ≡ some ev
    → get_elem? h k ≡ some ev
get_elem-take zero k h ev e = absurd (cc e)
get_elem-take (suc n) k [] ev e = absurd (cc e)
get_elem-take (suc n) zero (x ∷ h) ev e = e
get_elem-take (suc n) (suc k) (x ∷ h) ev e = get_elem-take n k h ev e

pop_of-IsIndexed :
    (o : Option SchedEvent) (gone : SchedEvent) (h t : List SchedEvent)
    → IsIndexed h
    → pop_of o h ≡ some (gone, t)
    → IsIndexed t
pop_of-IsIndexed none gone h t v e = absurd (cc e)
pop_of-IsIndexed (some x) gone h t v e =
    let q : take (length h - 1) h ≡ t = cc e in
    subst IsIndexed q (λ k ev found. v k ev (get_elem-take (length h - 1) k h ev found))

-- A call that container/heap makes on the heap of events. (`Len` and `Less` change nothing.)
pub data Call : Type 0 where
  swaps : ℕ → ℕ → Call
  pushes : ℕ → ℕ → Call
  pops : Call

abbrev pub left_of : Option (SchedEvent × List SchedEvent) → Option (List SchedEvent)
left_of none = none
left_of (some (ev, h)) = some h

-- The heap after a call; `none` when the call panics.
unfoldable pub step : Call → List SchedEvent → Option (List SchedEvent)
step (swaps i j) h = swap i j h
step (pushes id when) h = some (push (record { id = id; when = when; index = pos 0 }) h)
step pops h = left_of (pop h)

unfoldable pub run : List Call → List SchedEvent → Option (List SchedEvent)
run [] h = some h
run (c ∷ cs) h = elim (step c h) [ none ↦ none | some t ↦ run cs t ]

step-IsIndexed : (c : Call) (h t : List SchedEvent) → IsIndexed h → step c h ≡ some t → IsIndexed t
unfolding step swap pop
step-IsIndexed (swaps i j) h t v e = swap_of-IsIndexed (get_elem? h i) (get_elem? h j) i j h t v e
step-IsIndexed (pushes id when) h t v e =
    let new : SchedEvent = record { id = id; when = when; index = pos 0 } in
    subst IsIndexed (let q : push new h ≡ t = cc e in q) (push-IsIndexed new h v)
step-IsIndexed pops h t v e = elim (Option-cases (pop_of (last h) h)) [
  | inl none_left ↦ absurd (cc (rw none_left at e))
  | inr ((gone, rest), popped) ↦
      let q : rest ≡ t = cc (rw popped at e) in
      subst IsIndexed q (pop_of-IsIndexed (last h) gone h rest v popped)
]

-- After any sequence of `Swap`, `Push` and `Pop` that does not panic, on a heap in which each
-- event has its own place as its index, each event has its own place as its index.
pub run-IsIndexed :
    (cs : List Call) (h t : List SchedEvent) → IsIndexed h → run cs h ≡ some t → IsIndexed t
unfolding run
run-IsIndexed [] h t v e = subst IsIndexed (let q : h ≡ t = cc e in q) v
run-IsIndexed (c ∷ cs) h t v e = elim (Option-cases (step c h)) [
  | inl none_left ↦ absurd (cc (rw (run, none_left) at e))
  | inr (u, made) ↦ run-IsIndexed cs u t (step-IsIndexed c h u v made) (rw (run, made) at e)
]
