-- ===== src/ProcessMgr/Manager2/Phases.antt =====
-- Which slots a supervisor holds in each phase (process_manager2.go).
use zmux_server.Base.{ℕ, ◌≡◌, Bool, true, false, Option, some, nat_eq, lookup, is_some}
use zmux_server.ProcessMgr.SlotPool.Laws.{holds}
use zmux_server.ProcessMgr.Heap.{Heap}
use zmux_server.ProcessMgr.Tables.Status.{IsValid}
use zmux_server.ProcessMgr.Manager2.{
  Manager2, Phase, warming, stopping, promoted, entering, active, leaving, Run, done, no_pid,
  slot_panic, limit_panic,
}

abbrev pub holds_preflight : Option Phase → Bool
holds_preflight (some warming) = true
holds_preflight (some stopping) = true
holds_preflight (some promoted) = true
holds_preflight _ = false

abbrev pub holds_onflight : Option Phase → Bool
holds_onflight (some promoted) = true
holds_onflight (some entering) = true
holds_onflight (some active) = true
holds_onflight (some leaving) = true
holds_onflight _ = false

-- The tables agree, and the owners of the slots are the supervisors whose phase has one.
pub record IsSound {H : Type 0} (hp : Heap H) (m : Manager2 H) : Type 0 where
  pub tables_ok : IsValid hp m.tables
  pub supervised : (p : ℕ) → is_some (lookup p m.phases) ≡ is_some (lookup p m.tables.live)
  pub pre : (p : ℕ) → holds m.preflight p ≡ holds_preflight (lookup p m.phases)
  pub on : (p : ℕ) → holds m.onflight p ≡ holds_onflight (lookup p m.phases)

-- No slot pool panics, and a step that is done is sound.
abbrev pub Sound : {H : Type 0} → Heap H → Run (Manager2 H) → Type 0
Sound hp (done m) = IsSound hp m
Sound hp no_pid = Unit
Sound hp slot_panic = ⊥
Sound hp limit_panic = Unit
