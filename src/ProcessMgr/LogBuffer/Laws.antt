-- ===== src/ProcessMgr/LogBuffer/Laws.antt =====
-- The log buffer (processmgr/log_buffer.go) against the history of all entries, newest first.
use zmux_server.Base.{
  ℕ, zero, suc, ◌+◌, ◌-◌, ◌%◌, ◌<◌, ◌≤◌, ◌≡◌, ◌≢◌, refl, sym, ◌∙◌, false, List, [], ◌∷◌, ◌++◌,
  Bytes, ◌==◌, nat_eq, leb, set, get_or, take, drop, min, length, arith, append_assoc, append-nil,
  drop-cons, take_all, Bool-cases, inl, inr, length-set, get_or-set_self, get_or-set_ne,
  length-replicate,
}
use mathlib.Core.List.{reverse, reverse-cons}
use zmux_server.Base.Int.{ℤ, pos, negsuc}
use zmux_server.ProcessMgr.LogBuffer.{
  LogBuffer, cap_n, empty, append, clamp_lines, fill, newest_index, read,
}

-- The buffer holds the `size` newest entries of the history, the newest just behind `head`.
pub record Holds (b : LogBuffer) (history : List Bytes) : Type 0 where
  pub storage : length b.entries ≡ cap_n
  pub head_in : b.head < cap_n
  pub counted : b.size ≡ min (length history) cap_n
  pub full_when : b.full ≡ leb cap_n (length history)
  pub unwrapped : b.full ≡ false → b.head ≡ b.size
  pub recent :
      (k : ℕ)
      → k < b.size
      → get_or b.entries ((b.head + (cap_n - 1) - k) % cap_n) [] ≡ get_or history k []

pub empty-Holds : Holds empty []
unfolding empty
empty-Holds = record {
  storage = length-replicate {A = Bytes} cap_n [];
  head_in = omega arith;
  counted = refl;
  full_when = refl;
  unwrapped = λ _. refl;
  recent = λ k h. absurd (omega arith);
}

entries-append : (b : LogBuffer) (e : Bytes) → (append b e).entries ≡ set b.entries b.head e
unfolding append
entries-append b e = ground arith

head-append : (b : LogBuffer) (e : Bytes) → (append b e).head ≡ (b.head + 1) % cap_n
unfolding append
head-append b e = ground arith

module _ {b : LogBuffer} {history : List Bytes} (entry : Bytes) (v : Holds b history) where
  size-append : (append b entry).size ≡ min (suc (length history)) cap_n
  unfolding append
  size-append = ground (arith, v.counted, v.full_when)

  recent-append :
      (k : ℕ)
      → k < (append b entry).size
      → get_or (append b entry).entries (((append b entry).head + (cap_n - 1) - k) % cap_n) []
        ≡ get_or (entry ∷ history) k []
  recent-append zero h =
      let e : ((b.head + 1) % cap_n + (cap_n - 1) - 0) % cap_n ≡ b.head =
        omega (arith, v.head_in) in
      rw (entries-append b entry, head-append b entry, e)
        (get_or-set_self b.entries b.head entry [] (omega (arith, v.head_in, v.storage)))
  recent-append (suc k) h =
      let i : ℕ = (b.head + (cap_n - 1) - k) % cap_n in
      let e : ((b.head + 1) % cap_n + (cap_n - 1) - suc k) % cap_n ≡ i =
        omega (arith, v.head_in, size-append) in
      let ne : b.head ≢ i = omega (arith, v.head_in, size-append) in
      rw (entries-append b entry, head-append b entry, e)
        (get_or-set_ne b.entries entry [] ne ∙ v.recent k (omega (arith, v.counted, size-append)))

  -- An append puts the entry in front of the history.
  pub append-Holds : Holds (append b entry) (entry ∷ history)
  unfolding append
  append-Holds = record {
    storage = ground (arith, length-set b.entries b.head entry, v.storage);
    head_in = ground arith;
    counted = size-append;
    full_when = ground (arith, v.counted, v.full_when);
    unwrapped = ground (arith, v.counted, v.full_when, v.unwrapped, v.head_in);
    recent = recent-append;
  }

fill-recent :
    {b : LogBuffer} {history : List Bytes} (i n : ℕ)
    → Holds b history
    → i + n ≤ b.size
    → fill b (newest_index b) i n ≡ take n (drop i history)
unfolding fill
fill-recent i zero v h = refl
fill-recent {b} {history} i (suc n) v h =
    let e : (newest_index b + cap_n - i) % cap_n ≡ (b.head + (cap_n - 1) - i) % cap_n =
      unfold newest_index in ground (arith, v.head_in, v.counted, v.unwrapped) in
    rw (
      e,
      v.recent i (omega arith),
      fill-recent (suc i) n v (omega arith),
      drop-cons history i [] (omega (arith, v.counted)),
    )

clamp_le : (lines : ℤ) → clamp_lines lines ≤ cap_n
unfolding clamp_lines
clamp_le (pos zero) = omega arith
clamp_le (pos (suc n)) = ground arith
clamp_le (negsuc n) = omega arith

take-min :
    (k : ℕ) (xs : List Bytes) → k ≤ cap_n → take (min (min (length xs) cap_n) k) xs ≡ take k xs
take-min k xs h = elim (Bool-cases (leb k (length xs))) [
  | inl le ↦ let e : min (min (length xs) cap_n) k ≡ k = ground arith in rw e
  | inr gt ↦
      let all : length xs ≤ min (min (length xs) cap_n) k = ground arith in
      take_all _ xs all ∙ sym (take_all k xs (ground arith))
]

-- A ring that holds a history is read as the newest entries of it, newest first, as many as the
-- clamped request.
pub read-Holds :
    {b : LogBuffer} {history : List Bytes} (lines : ℤ)
    → Holds b history
    → read b lines ≡ take (clamp_lines lines) history
unfolding read
read-Holds {b} {history} lines v = elim (Bool-cases (b.size == 0)) [
  | inl none_yet ↦
      let no_history : length history ≤ 0 = ground (arith, v.counted) in
      rw none_yet
        (take_all 0 history no_history ∙ sym (take_all (clamp_lines lines) history (omega arith)))
  | inr some_entry ↦ rw some_entry (
      fill-recent 0 (min b.size (clamp_lines lines)) v (omega arith)
      ∙ rw v.counted (take-min (clamp_lines lines) history (clamp_le lines)))
]

-- The buffer after appending all of a list, the first entry first.
unfoldable pub append_all : LogBuffer → List Bytes → LogBuffer
append_all b [] = b
append_all b (e ∷ es) = append_all (append b e) es

append_all-Holds :
    (es : List Bytes) {b : LogBuffer} {history : List Bytes}
    → Holds b history
    → Holds (append_all b es) (reverse es ++ history)
unfolding append_all
append_all-Holds [] v = v
append_all-Holds (e ∷ es) v =
    rw (reverse-cons e es, append_assoc) (append_all-Holds es (append-Holds e v))

-- Reading the ring after any appends to an empty one returns the newest entries, newest first,
-- as many as the clamped request.
pub read-append_all :
    (es : List Bytes) (lines : ℤ)
    → read (append_all empty es) lines ≡ take (clamp_lines lines) (reverse es)
read-append_all es lines = read-Holds lines (rw append-nil at (append_all-Holds es empty-Holds))
