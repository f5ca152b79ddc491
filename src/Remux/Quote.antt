-- ===== src/Remux/Quote.antt =====
-- pkg/remuxcmd/builder.go: shell quoting, and how a POSIX shell reads it back.
use zmux_server.Base.{
  ℕ, ◌≡◌, refl, ap, ◌∙◌, List, [], ◌∷◌, ◌++◌, Option, none, some, Bytes, nat_eq, ◌==◌, nat_beq_iff,
  if◌then◌else◌, map, append_assoc, append-nil, Bool-cases, inl, inr,
}

-- `strings.ReplaceAll(s, "'", "'\\''")`
unfoldable pub escape_quotes : Bytes → Bytes
escape_quotes [] = []
escape_quotes (c ∷ s) = (if c == 39 then 39 ∷ 92 ∷ 39 ∷ 39 ∷ [] else c ∷ []) ++ escape_quotes s

unfoldable pub sh_quote : Bytes → Bytes
unfolding escape_quotes
sh_quote [] = 39 ∷ 39 ∷ []
sh_quote (c ∷ s) = 39 ∷ (escape_quotes (c ∷ s) ++ (39 ∷ []))

-- `strings.Join(words, " ")`
unfoldable pub join_words : List Bytes → Bytes
join_words [] = []
join_words (w ∷ []) = w
join_words (w ∷ v ∷ ws) = w ++ (b' ' ∷ join_words (v ∷ ws))

-- How a POSIX shell splits a line into words: a blank ends a word outside quotes, a single quote
-- opens and closes a literal part, a backslash outside quotes makes the next byte literal.
pub data Mode : Type 0 where
  -- between words
  blank : Mode
  -- in a word, whose bytes so far are given
  word : Bytes → Mode
  -- in a word, between single quotes
  quoted : Bytes → Mode
  -- in a word, after a backslash
  escaped : Bytes → Mode

-- What a byte does: it leads to a mode, or it ends a word. Outside quotes the reader knows only
-- quotes, backslashes and blanks: other bytes may mean something to a shell, and are refused.
pub data Turn : Type 0 where
  goes : Mode → Turn
  ends : Bytes → Turn
  refuses : Turn

unfoldable pub sh_turn : Mode → ℕ → Turn
sh_turn blank c =
    if c == b'\''
    then goes (quoted [])
    else if c == b'\\'
    then goes (escaped [])
    else if c == b' '
    then goes blank
    else refuses
sh_turn (word w) c =
    if c == b'\''
    then goes (quoted w)
    else if c == b'\\'
    then goes (escaped w)
    else if c == b' '
    then ends w
    else refuses
sh_turn (quoted w) c = if c == b'\'' then goes (word w) else goes (quoted (w ++ c ∷ []))
sh_turn (escaped w) c = goes (word (w ++ c ∷ []))

abbrev pub add_word : Bytes → Option (List Bytes) → Option (List Bytes)
add_word w none = none
add_word w (some ws) = some (w ∷ ws)

unfoldable pub sh_words : Mode → Bytes → Option (List Bytes)
unfolding sh_turn
sh_words blank [] = some []
sh_words (word w) [] = some (w ∷ [])
sh_words (quoted w) [] = none
sh_words (escaped w) [] = none
sh_words m (c ∷ s) = elim (sh_turn m c) [
  | goes m' ↦ sh_words m' s
  | ends w ↦ add_word w (sh_words blank s)
  | refuses ↦ none
]

-- Between the quotes an escaped text is read as the text.
words-escape_quotes :
    (s w t : Bytes) → sh_words (quoted w) (escape_quotes s ++ (39 ∷ t)) ≡ sh_words (word (w ++ s)) t
unfolding escape_quotes sh_words
words-escape_quotes [] w t = rw append-nil
words-escape_quotes (c ∷ s) w t = elim (Bool-cases (c == 39)) [
  | inl quote ↦
      rw (quote, (nat_beq_iff c 39).0 quote)
        (words-escape_quotes s (w ++ 39 ∷ []) t
          ∙ ap (λ v. sh_words (word v) t) (append_assoc w (39 ∷ []) s))
  | inr other ↦
      rw (other, sh_words, other)
        (words-escape_quotes s (w ++ c ∷ []) t
          ∙ ap (λ v. sh_words (word v) t) (append_assoc w (c ∷ []) s))
]

-- A quoted argument is read as one word, whatever bytes it has.
words-sh_quote : (s t : Bytes) → sh_words blank (sh_quote s ++ t) ≡ sh_words (word s) t
unfolding sh_quote sh_words
words-sh_quote [] t = refl
words-sh_quote (c ∷ s) t =
    ap (λ u. sh_words (quoted []) u) (append_assoc (escape_quotes (c ∷ s)) (39 ∷ []) t)
    ∙ words-escape_quotes (c ∷ s) [] t

-- A shell that reads the joined quoted arguments gets exactly the arguments back.
pub words-join_words : (b : List Bytes) → sh_words blank (join_words (map sh_quote b)) ≡ some b
unfolding join_words sh_words
words-join_words [] = refl
words-join_words (w ∷ []) = rw (← append-nil (sh_quote w)) (words-sh_quote w [])
words-join_words (w ∷ v ∷ ws) =
    words-sh_quote w (b' ' ∷ join_words (map sh_quote (v ∷ ws)))
    ∙ ap (add_word w) (words-join_words (v ∷ ws))
