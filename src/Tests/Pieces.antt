-- ===== src/Tests/Pieces.antt =====
-- Concrete URLs, rings of log entries, pools of slots, PIDs and stores.
use zmux_server.Base.{
  ◌↔◌, ◌⊎◌, ℕ, ◌≡◌, ◌⊎◌, refl, true, false, List, [], ◌∷◌, none, some, Bytes, codes, arith, lookup,
  nat_eq, ◌==◌, if◌then◌else◌, insert,
}
use zmux_server.Base.Int.{pos, negsuc, incr, leb_ℤ, ltb_ℤ}
use zmux_server.Avurl.Split.{avurl_split}
use zmux_server.Avurl.Join.{avurl_join}
use zmux_server.Avurl.Userinfo.{raw_parse}
use zmux_server.Avurl.Userinfo.Laws.{raw_parse_lem}
use zmux_server.Avurl.Join.Laws.{join-split}
use zmux_server.ProcessMgr.LogBuffer.{read, empty, clamp_lines}
use zmux_server.ProcessMgr.LogBuffer.Laws.{append_all, read-append_all}
use zmux_server.ProcessMgr.SlotPool.{SlotPool, try_acquire, ok, panic, take_slot}
use zmux_server.ProcessMgr.SlotPool.Laws.{holds}
use zmux_server.ProcessMgr.PidAllocator.{new_pid_allocator, alloc}
use zmux_server.ProcessMgr.PidAllocator.Laws.{Result, alloc-Result, new_pid_allocator-IsValid}
use zmux_server.ProcessMgr.LogManager.{get, log_all}
use zmux_server.ProcessMgr.LogManager.Laws.{read-log_all}
use zmux_server.ProcessMgr.Limits.{update_limits}
use zmux_server.ProcessMgr.Limits.Laws.{update_limits_iff, CutsBelow}
use zmux_server.ObjectStore.{Store, upsert, remove, get_one}
use zmux_server.ObjectStore.{empty as empty_store}
use zmux_server.ObjectStore.Values.{empty-IsValid}
use zmux_server.ObjectStore.Values.{IsValid as StoreIsValid}
use zmux_server.ObjectStore.Upsert.{upsert-IsValid}
use zmux_server.ObjectStore.Remove.{remove-IsValid, get_one-remove}

abbrev camera : Bytes
camera = codes "rtsp://admin:pw@[fe80::1]:554/live?x=1"

join-split_example : avurl_join (avurl_split camera) ≡ camera
join-split_example = join-split camera

abbrev lines_logged : List Bytes
lines_logged = codes "one" ∷ codes "two" ∷ codes "three" ∷ []

read-append_all_example :
    read (append_all empty lines_logged) (pos 2) ≡ codes "three" ∷ codes "two" ∷ []
unfolding clamp_lines
read-append_all_example = read-append_all lines_logged (pos 2)

abbrev one_free : SlotPool
one_free = record { max_cap = pos 2; usage = pos 1; acquired_by = (9, tt) ∷ [] }

abbrev none_free : SlotPool
none_free = record { max_cap = pos 2; usage = pos 2; acquired_by = (9, tt) ∷ (3, tt) ∷ [] }

abbrev TryCases : SlotPool → ℕ → Type 0
TryCases s id =
    ((try_acquire s id ≡ panic) × (holds s id ≡ true))
    ⊎ ((try_acquire s id ≡ ok (s, false)) × (holds s id ≡ false) × (leb_ℤ s.max_cap s.usage ≡ true))
    ⊎ ((t : SlotPool) × (try_acquire s id ≡ ok (t, true))
        × (holds s id ≡ false)
        × (ltb_ℤ s.usage s.max_cap ≡ true)
        × (t.usage ≡ incr s.usage)
        × (t.max_cap ≡ s.max_cap)
        × ((j : ℕ) → holds t j ≡ (if id == j then true else holds s j)))

try_one_free : try_acquire one_free 3 ≡ ok (none_free, true)
unfolding try_acquire take_slot lookup insert
try_one_free = refl

alloc-Result_example : Result new_pid_allocator (alloc new_pid_allocator)
alloc-Result_example = alloc-Result new_pid_allocator new_pid_allocator-IsValid

-- The ids 5 and 2, stored in this order.
abbrev stored : Store Bytes
stored = upsert 5 (codes "b") empty_store

stored-IsValid : StoreIsValid stored
stored-IsValid = upsert-IsValid 5 (codes "b") empty_store (omega arith) empty-IsValid

upsert-IsValid_example : StoreIsValid (upsert 2 (codes "a") stored)
upsert-IsValid_example = upsert-IsValid 2 (codes "a") stored (omega arith) stored-IsValid

remove-IsValid_example : StoreIsValid (remove 5 stored)
remove-IsValid_example = remove-IsValid 5 stored stored-IsValid

get_one-remove_example : get_one 5 (remove 5 stored) ≡ none
get_one-remove_example = get_one-remove 5 5 stored stored-IsValid

abbrev two_logs : List (ℕ × Bytes)
two_logs = (1, codes "a") ∷ (2, codes "b") ∷ (1, codes "c") ∷ []

read-log_all_example : read (get 1 (log_all two_logs [])).0 (pos 9) ≡ codes "c" ∷ codes "a" ∷ []
unfolding clamp_lines
read-log_all_example = read-log_all 1 two_logs (pos 9)

update_limits_iff_example :
    (update_limits (negsuc 4) (pos 3) none_free one_free ≡ none)
    ↔ (CutsBelow (negsuc 4) none_free ⊎ CutsBelow (pos 3) one_free)
update_limits_iff_example = update_limits_iff (negsuc 4) (pos 3) none_free one_free

raw_parse_lem_example :
    raw_parse camera
    ≡ some (record {
      schema = (avurl_split camera).schema;
      userinfo = (avurl_split camera).userinfo;
      host = (avurl_split camera).host;
      port = (avurl_split camera).port;
      path = (avurl_split camera).path;
    })
raw_parse_lem_example = raw_parse_lem camera
