-- ===== src/ProcessMgr/LogManager.antt =====
-- internal/infrastructure/processmgr/log_manager.go: a buffer for each process, made on first use.
-- `Get` gives a pointer into the map, so what a caller appends is seen under the id.
pub mod Laws
use zmux_server.Base.{ℕ, List, [], ◌∷◌, Option, none, some, Bytes, Map, lookup, insert, nat_eq}
use zmux_server.ProcessMgr.LogBuffer.{LogBuffer, empty, append}

-- `LogManager`
abbrev pub LogManager : Type 0
LogManager = Map ℕ LogBuffer

-- `if buf, ok := lm.bufs[pid]; ok …`, and what follows
abbrev pub get_at : Option LogBuffer → ℕ → LogManager → LogBuffer × LogManager
get_at (some buf) pid lm = (buf, lm)
get_at none pid lm = (empty, insert pid empty lm)

-- `Get`: the buffer, and the manager, which has it from then on.
unfoldable pub get : ℕ → LogManager → LogBuffer × LogManager
get pid lm = get_at (lookup pid lm) pid lm

-- `Get(pid).Append(entry)`
unfoldable pub log : ℕ → Bytes → LogManager → LogManager
unfolding get append
log pid entry lm = insert pid (append (get pid lm).0 entry) (get pid lm).1

-- A sequence of entries of several processes.
unfoldable pub log_all : List (ℕ × Bytes) → LogManager → LogManager
log_all [] lm = lm
log_all ((pid, entry) ∷ es) lm = log_all es (log pid entry lm)
