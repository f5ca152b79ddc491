-- ===== src/ProcessMgr/Heap/Earliest.antt =====
-- The earliest event of an unordered table of events.
use zmux_server.Base.{
  ℕ, ◌≤◌, ◌≡◌, refl, [], ◌∷◌, Option, none, some, if◌then◌else◌, leb, nat_eq, nat_beq_iff, Map,
  lookup, delete, Option-cases, Distinct, delete-Distinct, inl, inr, arith,
}
use zmux_server.ProcessMgr.Heap.{Event}

abbrev pub earlier : Event → Option Event → Event
earlier ev none = ev
earlier ev (some other) = if leb ev.when other.when then ev else other

unfoldable pub earliest : Map ℕ ℕ → Option Event
earliest [] = none
earliest ((i, t) ∷ m) = some (earlier (record { id = i; when = t }) (earliest m))

abbrev pub pop_earliest : Option Event → Map ℕ ℕ → Map ℕ ℕ
pop_earliest none m = m
pop_earliest (some ev) m = delete ev.id m

pub earliest-none : (m : Map ℕ ℕ) (j : ℕ) → earliest m ≡ none → lookup j m ≡ none
unfolding earliest lookup
earliest-none [] j h = refl
earliest-none ((i, t) ∷ m) j h = cc

pub earliest-due :
    (m : Map ℕ ℕ) (ev : Event) → earliest m ≡ some ev → Distinct m → lookup ev.id m ≡ some ev.when
unfolding earliest lookup
earliest-due [] ev h d = cc
earliest-due ((i, t) ∷ m) ev h d = elim (Option-cases (earliest m)) [
  | inl e ↦ ground (arith, e, nat_beq_iff i ev.id)
  | inr (other, e) ↦ ground (arith, e, earliest-due m ev, nat_beq_iff i ev.id, d)
]

pub earliest-le :
    (m : Map ℕ ℕ) (ev : Event) (j t : ℕ) → earliest m ≡ some ev → lookup j m ≡ some t → ev.when ≤ t
unfolding earliest lookup
earliest-le [] ev j t h f = cc
earliest-le ((i, u) ∷ m) ev j t h f = elim (Option-cases (earliest m)) [
  | inl e ↦ ground (arith, e, earliest-none m j e)
  | inr (other, e) ↦ ground (arith, e, earliest-le m other j t e)
]

pub pop_earliest-Distinct :
    (o : Option Event) (m : Map ℕ ℕ) → Distinct m → Distinct (pop_earliest o m)
pop_earliest-Distinct none m d = d
pop_earliest-Distinct (some ev) m d = delete-Distinct ev.id m d
