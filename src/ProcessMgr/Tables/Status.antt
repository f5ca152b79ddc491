-- ===== src/ProcessMgr/Tables/Status.antt =====
-- The states that a PID goes through.
use zmux_server.Base.{
  ℕ, ◌≡◌, refl, ap, ◌∙◌, ◌⊎◌, inl, inr, Bool, true, false, Option, none, some, nat_eq, lookup,
  is_some,
}
use zmux_server.ProcessMgr.PidAllocator.Laws.{used}
use zmux_server.ProcessMgr.PidAllocator.Laws.{IsValid as GenIsValid}
use zmux_server.ProcessMgr.Scheduler.Laws.{IsValid as SchedIsValid}
use zmux_server.ProcessMgr.Scheduler.Laws.{due_at}
use zmux_server.ProcessMgr.Heap.{Heap}
use zmux_server.ProcessMgr.Tables.{Spec, Tables}

-- What the tables say of a PID: its spec, whether it is scheduled, the spec that its goroutine has,
-- whether it is in use, and whether it has a process on record.
pub data Status (spec : Option Spec) (scheduled : Bool) (live : Option Spec) (busy process : Bool)
    : Type 0 where
  -- nobody's, free or not
  idle :
      spec ≡ none
      → scheduled ≡ false
      → live ≡ none
      → process ≡ false
      → Status spec scheduled live busy process
  -- of a unit, to be launched
  waiting :
      (s : Spec)
      → spec ≡ some s
      → scheduled ≡ true
      → live ≡ none
      → busy ≡ true
      → process ≡ false
      → Status spec scheduled live busy process
  -- of a unit, with a process
  running :
      (s : Spec)
      → spec ≡ some s
      → scheduled ≡ false
      → live ≡ some s
      → busy ≡ true
      → process ≡ true
      → Status spec scheduled live busy process
  -- of a unit that was removed while its process ran
  ending :
      (s : Spec)
      → spec ≡ none
      → scheduled ≡ false
      → live ≡ some s
      → busy ≡ true
      → process ≡ false
      → Status spec scheduled live busy process

pub Status-map :
    {spec spec' live live' : Option Spec} {due due' busy busy' process process' : Bool}
    → spec' ≡ spec
    → due' ≡ due
    → live' ≡ live
    → busy' ≡ busy
    → process' ≡ process
    → Status spec due live busy process
    → Status spec' due' live' busy' process'
Status-map a b c d e (idle x y z w) = idle (a ∙ x) (b ∙ y) (c ∙ z) (e ∙ w)
Status-map a b c d e (waiting s x y z u w) = waiting s (a ∙ x) (b ∙ y) (c ∙ z) (d ∙ u) (e ∙ w)
Status-map a b c d e (running s x y z u w) = running s (a ∙ x) (b ∙ y) (c ∙ z) (d ∙ u) (e ∙ w)
Status-map a b c d e (ending s x y z u w) = ending s (a ∙ x) (b ∙ y) (c ∙ z) (d ∙ u) (e ∙ w)

-- The status of the PID `p`.
abbrev pub StatusAt : {H : Type 0} → Tables H → ℕ → Type 0
StatusAt m p =
    Status (lookup p m.specs) (is_some (due_at m.sched p)) (lookup p m.live) (used m.gen p)
      (is_some (lookup p m.ps))

-- The tables agree with one another: a PID has one of the four states, and the units and the specs
-- name each other.
pub record IsValid {H : Type 0} (hp : Heap H) (m : Tables H) : Type 0 where
  pub sched_ok : SchedIsValid hp m.sched
  pub gen_ok : GenIsValid m.gen
  pub status : (p : ℕ) → StatusAt m p
  pub unit_spec :
      (u p : ℕ)
      → lookup u m.units ≡ some p
      → (s : Spec) × ((lookup p m.specs ≡ some s) × (s.unit_id ≡ u))
  pub spec_unit : (p : ℕ) (s : Spec) → lookup p m.specs ≡ some s → lookup s.unit_id m.units ≡ some p

module _ {spec live : Option Spec} {due busy process : Bool} where
  -- A PID that is not in use is nobody's.
  pub free-Status :
      Status spec due live busy process
      → busy ≡ false
      → (spec ≡ none) × ((live ≡ none) × (process ≡ false))
  free-Status (idle x y z w) f = (x, (z, w))
  free-Status (waiting s x y z u w) f = absurd (cc (u, f))
  free-Status (running s x y z u w) f = absurd (cc (u, f))
  free-Status (ending s x y z u w) f = absurd (cc (u, f))

  -- A scheduled PID is of a unit, and waits.
  pub due-Status :
      Status spec due live busy process
      → due ≡ true
      → (s : Spec) × ((spec ≡ some s) × ((live ≡ none) × ((busy ≡ true) × (process ≡ false))))
  due-Status (idle x y z w) f = absurd (cc (y, f))
  due-Status (waiting s x y z u w) f = (s, (x, (z, (u, w))))
  due-Status (running s x y z u w) f = absurd (cc (y, f))
  due-Status (ending s x y z u w) f = absurd (cc (y, f))

  -- The PID of a goroutine is of its unit or of none, and is in use.
  pub live-Status :
      (s : Spec)
      → Status spec due live busy process
      → live ≡ some s
      → ((spec ≡ some s) ⊎ (spec ≡ none)) × ((due ≡ false) × (busy ≡ true))
  live-Status s (idle x y z w) f = absurd (cc (z, f))
  live-Status s (waiting t x y z u w) f = absurd (cc (z, f))
  live-Status s (running t x y z u w) f = (inl (let q : t ≡ s = cc (z, f) in x ∙ ap some q), (y, u))
  live-Status s (ending t x y z u w) f = (inr x, (y, u))

  -- After `Remove` of the unit.
  pub dropped-Status : Status spec due live busy process → Status none false live busy false
  dropped-Status (idle x y z w) = idle refl refl z refl
  dropped-Status (waiting s x y z u w) = idle refl refl z refl
  dropped-Status (running s x y z u w) = ending s refl refl z u refl
  dropped-Status (ending s x y z u w) = ending s refl refl z u refl
