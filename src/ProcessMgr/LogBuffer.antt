-- ===== src/ProcessMgr/LogBuffer.antt =====
-- internal/infrastructure/processmgr/log_buffer.go: the ring of the last 500 log entries of a
-- process. The mutex makes each call atomic, so a call is a function on the state.
pub mod Laws
use zmux_server.Base.{
  ℕ, zero, suc, ◌+◌, ◌-◌, ◌%◌, Bool, true, false, ◌||◌, List, [], ◌∷◌, Bytes, ◌==◌, nat_eq, ltb,
  if◌then◌else◌, set, get_or, replicate, min,
}
use zmux_server.Base.Int.{ℤ, pos, negsuc, leb_ℤ}

-- `len(b.entries)`
abbrev pub cap_n : ℕ
cap_n = 500

pub record LogBuffer : Type 0 where
  pub entries : List Bytes
  pub head : ℕ
  pub size : ℕ
  pub full : Bool

-- `new(logBuffer)`
unfoldable pub empty : LogBuffer
empty = record { entries = replicate cap_n []; head = 0; size = 0; full = false }

unfoldable pub append : LogBuffer → Bytes → LogBuffer
append b entry =
    let b' = record b { entries = set b.entries b.head entry; head = (b.head + 1) % cap_n } in
    if b.full then b' else record b' { size = b.size + 1; full = b.size + 1 == cap_n }

-- The clamped request: `if lines <= 0 || lines > capN { lines = capN }`.
unfoldable pub clamp_lines : ℤ → ℕ
clamp_lines (pos zero) = cap_n
clamp_lines (pos (suc n)) = if ltb cap_n (suc n) then cap_n else suc n
clamp_lines (negsuc n) = cap_n

-- `for i := 0; i < n; i++`, with `n` the rounds left. `newest - i + capN` is computed as
-- `newest + capN - i`, which is the same as `i` stays below `capN`.
unfoldable pub fill : LogBuffer → ℕ → ℕ → ℕ → List Bytes
fill b newest i zero = []
fill b newest i (suc n) =
    get_or b.entries ((newest + cap_n - i) % cap_n) [] ∷ fill b newest (suc i) n

unfoldable pub newest_index : LogBuffer → ℕ
newest_index b = if b.full then (b.head + cap_n - 1) % cap_n else b.size - 1

unfoldable pub read : LogBuffer → ℤ → List Bytes
unfolding clamp_lines fill newest_index
read b lines =
    if b.size == 0 then [] else fill b (newest_index b) 0 (min b.size (clamp_lines lines))
