-- ===== src/ProcessMgr/LogManager/Laws.antt =====
-- The logs of the processes are kept apart (log_manager.go).
use zmux_server.Base.{
  ℕ, ◌≡◌, refl, ap, sym, ◌∙◌, false, List, [], ◌∷◌, Option, none, some, Bytes, lookup,
  lookup-insert, nat_eq, nat_beq_iff, ◌==◌, if◌then◌else◌, Option-cases, Bool-cases, inl, inr, take,
}
use zmux_server.Base.Int.{ℤ}
use mathlib.Core.List.{reverse}
use zmux_server.ProcessMgr.LogBuffer.{LogBuffer, empty, append, read, clamp_lines}
use zmux_server.ProcessMgr.LogBuffer.Laws.{append_all, read-append_all}
use zmux_server.ProcessMgr.LogManager.{LogManager, get, get_at, log, log_all}

-- The entries of one process.
abbrev pub entries_of : ℕ → List (ℕ × Bytes) → List Bytes
entries_of pid [] = []
entries_of pid ((p, entry) ∷ es) = if p == pid then entry ∷ entries_of pid es else entries_of pid es

abbrev or_new : Option LogBuffer → LogBuffer
or_new none = empty
or_new (some buf) = buf

get-lookup : (pid : ℕ) (lm : LogManager) → (get pid lm).0 ≡ or_new (lookup pid lm)
unfolding get
get-lookup pid lm = elim (Option-cases (lookup pid lm)) [
  | inl new ↦ ap (λ o. (get_at o pid lm).0) new ∙ ap or_new (sym new)
  | inr (buf, known) ↦ ap (λ o. (get_at o pid lm).0) known ∙ ap or_new (sym known)
]

get-others :
    (p pid : ℕ) (lm : LogManager) → (p == pid) ≡ false → lookup pid (get p lm).1 ≡ lookup pid lm
unfolding get
get-others p pid lm other = elim (Option-cases (lookup p lm)) [
  | inl new ↦
      ap (λ o. lookup pid (get_at o p lm).1) new ∙ rw other at (lookup-insert p pid empty lm)
  | inr (buf, known) ↦ ap (λ o. lookup pid (get_at o p lm).1) known
]

lookup-log :
    (p pid : ℕ) (entry : Bytes) (lm : LogManager)
    → lookup pid (log p entry lm)
      ≡ (if p == pid then some (append (get p lm).0 entry) else lookup pid lm)
unfolding log
lookup-log p pid entry lm =
    let added = lookup-insert p pid (append (get p lm).0 entry) (get p lm).1 in
    elim (Bool-cases (p == pid)) [
      | inl own ↦ rw own (rw own at added)
      | inr other ↦ rw other (rw other at added ∙ get-others p pid lm other)
    ]

get-log :
    (p pid : ℕ) (entry : Bytes) (lm : LogManager)
    → (get pid (log p entry lm)).0
      ≡ (if p == pid then append (get pid lm).0 entry else (get pid lm).0)
get-log p pid entry lm =
    let found = get-lookup pid (log p entry lm) ∙ ap or_new (lookup-log p pid entry lm) in
    elim (Bool-cases (p == pid)) [
      | inr other ↦ rw other (rw other at found ∙ sym (get-lookup pid lm))
      | inl own ↦
          let same : p ≡ pid = (nat_beq_iff p pid).0 own in
          rw own (rw own at found ∙ ap (λ k. append (get k lm).0 entry) same)
    ]

get-log_all :
    (pid : ℕ) (es : List (ℕ × Bytes)) (lm : LogManager)
    → (get pid (log_all es lm)).0 ≡ append_all (get pid lm).0 (entries_of pid es)
unfolding log_all append_all
get-log_all pid [] lm = refl
get-log_all pid ((p, entry) ∷ es) lm =
    let rest = get-log_all pid es (log p entry lm) in
    let here = get-log p pid entry lm in
    elim (Bool-cases (p == pid)) [
      | inl own ↦ rw own (rest ∙ ap (λ b. append_all b (entries_of pid es)) (rw own at here))
      | inr other ↦ rw other (rest ∙ ap (λ b. append_all b (entries_of pid es)) (rw other at here))
    ]

-- After any appends through the log manager, in any interleaving of processes, reading the
-- buffer of one process returns its own newest entries, newest first, as many as the clamped
-- request.
pub read-log_all :
    (pid : ℕ) (es : List (ℕ × Bytes)) (lines : ℤ)
    → read (get pid (log_all es [])).0 lines
      ≡ take (clamp_lines lines) (reverse (entries_of pid es))
unfolding get lookup
read-log_all pid es lines =
    ap (λ b. read b lines) (get-log_all pid es []) ∙ read-append_all (entries_of pid es) lines
