-- ===== src/Remux/Decimal.antt =====
-- `strconv.FormatInt`, `Itoa` and `FormatUint` in base 10.
use zmux_server.Base.{
  ℕ, zero, suc, ◌+◌, ◌-◌, ◌*◌, ◌/◌, ◌%◌, ◌<◌, ◌≡◌, ap, ◌∙◌, [], ◌∷◌, Bytes, ltb, if◌then◌else◌,
  arith, Bool-cases, inl, inr,
}
use zmux_server.Base.Int.{ℤ, pos, negsuc}

-- The digits of `n` in front of `acc`; a number has fewer digits than its value plus one.
unfoldable pub digits_from : ℕ → ℕ → Bytes → Bytes
digits_from zero n acc = acc
digits_from (suc fuel) n acc =
    let rest = digits_from fuel (n / 10) ((b'0' + n % 10) ∷ acc) in
    if ltb n 10 then (b'0' + n) ∷ acc else rest

unfoldable pub format_uint : ℕ → Bytes
unfolding digits_from
format_uint n = digits_from (suc n) n []

unfoldable pub format_int : ℤ → Bytes
unfolding format_uint
format_int (pos n) = format_uint n
format_int (negsuc n) = b'-' ∷ format_uint (suc n)

-- The value of a text of digits.
unfoldable pub value : ℕ → Bytes → ℕ
value acc [] = acc
value acc (c ∷ s) = value (acc * 10 + (c - b'0')) s

digits_from-value :
    (fuel n acc : ℕ) (s : Bytes) → n < fuel → value 0 (digits_from fuel n s) ≡ value n s
unfolding digits_from value
digits_from-value zero n acc s h = absurd (omega arith)
digits_from-value (suc fuel) n acc s h = elim (Bool-cases (ltb n 10)) [
  | inl small ↦
      let e : 0 * 10 + (b'0' + n - b'0') ≡ n = omega arith in rw small (ap (λ m. value m s) e)
  | inr large ↦
      let e : n / 10 * 10 + (b'0' + n % 10 - b'0') ≡ n = omega arith in
      rw large (
        digits_from-value fuel (n / 10) acc ((b'0' + n % 10) ∷ s) (ground arith)
        ∙ ap (λ m. value m s) e)
]

-- The digits of a number stand for that number.
pub value-format_uint : (n : ℕ) → value 0 (format_uint n) ≡ n
unfolding format_uint value
value-format_uint n = digits_from-value (suc n) n 0 [] (omega arith)
