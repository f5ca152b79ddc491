-- ===== src/DataStore/Keys.antt =====
-- The keys of datastore.go do not clash.
use zmux_server.Base.{
  ℕ, zero, suc, ◌+◌, ◌/◌, ◌%◌, ◌≤◌, ◌≡◌, ◌≢◌, ◌∙◌, ap, sym, subst, [], ◌∷◌, ◌++◌, Bytes, codes, All,
  ltb, arith, Bool-cases, inl, inr,
}
use zmux_server.Remux.Decimal.{digits_from, format_uint, value, value-format_uint}
use zmux_server.DataStore.{record_key, sequence_key}

prefix-cancels : (prefix a b : Bytes) → prefix ++ a ≡ prefix ++ b → a ≡ b
prefix-cancels [] a b h = h
prefix-cancels (c ∷ prefix) a b h = prefix-cancels prefix a b (cc h)

pub record_key-injective :
    (prefix : Bytes) (i j : ℕ) → record_key prefix i ≡ record_key prefix j → i ≡ j
unfolding record_key
record_key-injective prefix i j h =
    sym (value-format_uint i)
    ∙ ap (value 0) (prefix-cancels prefix (format_uint i) (format_uint j) h)
    ∙ value-format_uint j

abbrev IsDigit : ℕ → Type 0
IsDigit c = c ≤ 57

digits_from-AreDigits :
    (fuel n : ℕ) (s : Bytes) → All IsDigit s → All IsDigit (digits_from fuel n s)
unfolding digits_from
digits_from-AreDigits zero n s a = a
digits_from-AreDigits (suc fuel) n s a = elim (Bool-cases (ltb n 10)) [
  | inl small ↦ rw small (ground arith, a)
  | inr large ↦ rw large (digits_from-AreDigits fuel (n / 10) ((48 + n % 10) ∷ s) (omega arith, a))
]

pub record_key-apart : (prefix : Bytes) (i : ℕ) → record_key prefix i ≢ sequence_key prefix
unfolding record_key sequence_key format_uint
record_key-apart prefix i h =
    let digits = digits_from-AreDigits (suc i) i [] tt in
    let wrong =
      subst (All IsDigit) (prefix-cancels prefix (format_uint i) (codes "id_seq") h) digits in
    absurd (omega (arith, wrong.0))
