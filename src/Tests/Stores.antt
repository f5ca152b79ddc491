-- ===== src/Tests/Stores.antt =====
-- A data store over a table in memory, with two records.
use zmux_server.Base.{List, [], ◌∷◌, Bytes, codes}
use zmux_server.DataStore.{DataStore, no_ids, Call, creates, updates, deletes, gets, call, run}
use zmux_server.DataStore.Memory.{Memory, memory}
use zmux_server.DataStore.View.{Effect, Same, view, IsValid}
use zmux_server.DataStore.Many.{get_many}
use zmux_server.DataStore.Many.Laws.{Gives, get_many-Good}
use zmux_server.DataStore.Laws.{no_ids-IsValid, call-Effect, calls-IsValid}

abbrev prefix : Bytes
prefix = codes "channel:"

abbrev fresh : DataStore Memory
fresh = record { index = no_ids; rdb = ([], []) }

abbrev calls : List Call
calls = creates (codes "a") ∷ creates (codes "b") ∷ updates 1 (codes "c") ∷ deletes 1 ∷ gets 2 ∷ []

abbrev later : DataStore Memory
later = run memory prefix calls fresh

call-Effect_example :
    IsValid memory prefix (call memory prefix (creates (codes "d")) later).1
    × Effect
        (creates (codes "d"))
        (call memory prefix (creates (codes "d")) later).0
        (view memory prefix later)
        (view memory prefix (call memory prefix (creates (codes "d")) later).1)
call-Effect_example =
    call-Effect memory prefix (creates (codes "d")) later
      (calls-IsValid memory prefix calls fresh (no_ids-IsValid memory prefix ([], [])))

get_many-Good_example :
    IsValid memory prefix (get_many memory prefix (2 ∷ 5 ∷ 2 ∷ []) later).1
    × Gives memory prefix
        (2 ∷ 5 ∷ 2 ∷ [])
        (view memory prefix later)
        (get_many memory prefix (2 ∷ 5 ∷ 2 ∷ []) later).0
    × Same
        (view memory prefix later)
        (view memory prefix (get_many memory prefix (2 ∷ 5 ∷ 2 ∷ []) later).1)
get_many-Good_example =
    get_many-Good memory prefix (2 ∷ 5 ∷ 2 ∷ []) later
      (calls-IsValid memory prefix calls fresh (no_ids-IsValid memory prefix ([], [])))
