-- ===== src/ProcessMgr/Limits.antt =====
-- internal/infrastructure/processmgr/process_manager2.go: `UpdateLimits`, which sets the limits of
-- the two slot pools and closes the processes in excess. A panic is `none`.
pub mod Laws
use zmux_server.Base.{
  ℕ, suc, ◌+◌, ◌-◌, Bool, true, false, ◌&&◌, List, [], ◌∷◌, ◌++◌, Option, none, some, if◌then◌else◌,
  ltb, length, take,
}
use zmux_server.Base.Int.{ℤ, pos, negsuc, leb_ℤ, ltb_ℤ}
use zmux_server.ProcessMgr.SlotPool.{SlotPool, update_limit, capacity, list_acquired}

-- `owners[:n]`. The slice has the capacity of its length, beyond which this panics.
abbrev pub slice_to : ℕ → List ℕ → Option (List ℕ)
slice_to n owners = if ltb (length owners) n then none else some (take n owners)

-- `int64(len(owners)) - limit`, for a limit below the length. (It wraps for a limit near -2^63 and is
-- negative then, for which the slice panics, too.)
abbrev pub excess : ℕ → ℤ → ℕ
excess n (pos m) = n - m
excess n (negsuc m) = n + suc m

-- The owners that are closed: `if int64(len(owners)) > limit { … owners[:excess] … }`.
unfoldable pub to_close : ℤ → List ℕ → Option (List ℕ)
to_close limit owners =
    if ltb_ℤ limit (pos (length owners))
    then slice_to (excess (length owners) limit) owners
    else some []

-- `old == limit`
abbrev pub same_limit : ℤ → ℤ → Bool
same_limit a b = leb_ℤ a b && leb_ℤ b a

-- The step for one pool: the pool, and the ids whose processes are closed.
unfoldable pub adjust : ℤ → SlotPool → Option (SlotPool × List ℕ)
unfolding update_limit capacity list_acquired to_close
adjust limit s =
    if same_limit (capacity s) limit
    then some (s, [])
    else elim (to_close limit (list_acquired (update_limit s limit))) [
      | none ↦ none
      | some pids ↦ some (update_limit s limit, pids)
    ]

-- `UpdateLimits`: the preflight pool first, then the onflight pool.
unfoldable pub update_limits : ℤ → ℤ → SlotPool → SlotPool → Option (SlotPool × SlotPool × List ℕ)
unfolding adjust
update_limits max_pre max_on preflight onflight = elim (adjust max_pre preflight) [
  | none ↦ none
  | some (preflight', first) ↦ elim (adjust max_on onflight) [
    | none ↦ none
    | some (onflight', second) ↦ some (preflight', onflight', first ++ second)
  ]
]
