-- ===== src/ProcessMgr/Heap/Table.antt =====
-- An unordered table of the events does as the heap of scheduler.go.
use zmux_server.Base.{
  ℕ, ◌≤◌, ◌≡◌, false, arith, refl, ap, ◌∙◌, [], nat_eq, Map, lookup, insert, delete, lookup-insert,
  lookup-delete, Distinct, insert-Distinct, delete-Distinct,
}
use zmux_server.ProcessMgr.EventHeap.{before}
use zmux_server.ProcessMgr.Heap.{Heap}
use zmux_server.ProcessMgr.Heap.Earliest.{
  earliest, earliest-none, earliest-due, earliest-le, pop_earliest, pop_earliest-Distinct,
}

abbrev pub Table : Type 0
Table = (m : Map ℕ ℕ) × Distinct m

pub not_before : {a b : ℕ} → a ≤ b → before b a ≡ false
not_before h = ground arith

unfoldable pub table_heap : Heap Table
unfolding lookup
table_heap = record {
  nothing = ([], tt);
  push = λ ev h. (insert ev.id ev.when h.0, insert-Distinct ev.id ev.when h.0 h.1);
  top = λ h. earliest h.0;
  pop = λ h. (pop_earliest (earliest h.0) h.0, pop_earliest-Distinct (earliest h.0) h.0 h.1);
  remove = λ i h. (delete i h.0, delete-Distinct i h.0 h.1);
  due = λ j h. lookup j h.0;
  due-nothing = λ j. refl;
  due-push = λ ev h j free. lookup-insert ev.id j ev.when h.0;
  due-remove = λ i h j. lookup-delete i j h.0;
  due-pop = λ ev h j e. ap (λ o. lookup j (pop_earliest o h.0)) e ∙ lookup-delete ev.id j h.0;
  due-top = λ ev h e. earliest-due h.0 ev e h.1;
  top-least = λ ev h j t e f. not_before (earliest-le h.0 ev j t e f);
  top-none = λ h j e. earliest-none h.0 j e;
}
