-- ===== src/Tests/Pools.antt =====
-- Slot pools with calls that wait.
use zmux_server.Base.{◌≡◌, refl, List, [], ◌∷◌, some, lookup, insert, delete}
use zmux_server.Base.Int.{pos, negsuc}
use zmux_server.ProcessMgr.SlotPool.{
  new_slot_pool, try_acquire, acquire, acquire_round, release, update_limit, take_slot,
}
use zmux_server.ProcessMgr.SlotPool.Laws.{new_slot_pool-IsValid}
use zmux_server.ProcessMgr.SlotPool.Waiting.Laws.{run-IsExact}
use zmux_server.ProcessMgr.SlotPool.Waiting.{
  Pool, Call, acquires, tries, releases, wakes, limits, step, run, IsExact,
}

abbrev new_pool : Pool
new_pool = record { slots = new_slot_pool (pos 1); waiting = [] }

new_pool-IsExact : IsExact new_pool
new_pool-IsExact = record {
  valid = new_slot_pool-IsValid (pos 1);
  once = tt;
  outside = λ j w. absurd (cc w);
}

abbrev some_calls : List Call
some_calls = acquires 4 ∷ acquires 9 ∷ tries 3 ∷ releases 4 ∷ wakes 9 ∷ limits (negsuc 2) ∷ []

abbrev pool_after : Pool
pool_after = record {
  slots = record { max_cap = pos 0; usage = pos 1; acquired_by = (9, tt) ∷ [] };
  waiting = [];
}

run-IsExact_example : IsExact pool_after
unfolding run step acquire acquire_round try_acquire release update_limit take_slot lookup insert
    delete new_slot_pool
run-IsExact_example =
    run-IsExact some_calls new_pool pool_after (refl, (refl, (refl, (tt, (tt, (tt, tt))))))
      new_pool-IsExact refl

-- Two calls that wait under one id: both are let in, the count is 2, and there is one owner.
abbrev waits_twice : List Call
waits_twice = limits (pos 0) ∷ acquires 4 ∷ acquires 4 ∷ limits (pos 2) ∷ wakes 4 ∷ wakes 4 ∷ []

abbrev one_owner : Pool
one_owner = record {
  slots = record { max_cap = pos 2; usage = pos 2; acquired_by = (4, tt) ∷ [] };
  waiting = [];
}

run-waits_twice : run waits_twice new_pool ≡ some one_owner
unfolding run step acquire acquire_round update_limit take_slot lookup insert delete new_slot_pool
run-waits_twice = refl
