-- ===== src/Base/Int.antt =====
-- int64 quantities that the code counts up and down, or compares with a limit that may be
-- negative. Values stay far from 2^63, so a count does not wrap.
use Prim.Native.Nat.{ℕ, zero, suc}
use mathlib.Core.Path.{◌≡◌, refl}
use mathlib.Core.Bool.{Bool, true, false}
use native.Mathlib.Omega.{arith}
use zmux_server.Base.Tests.{leb, ltb}

-- `negsuc n` is -(n + 1).
pub data ℤ : Type 0 where
  pos : ℕ → ℤ
  negsuc : ℕ → ℤ

-- `a++` and `a + 1`
abbrev pub incr : ℤ → ℤ
incr (pos n) = pos (suc n)
incr (negsuc zero) = pos 0
incr (negsuc (suc n)) = negsuc n

-- `a--`
abbrev pub decr : ℤ → ℤ
decr (pos zero) = negsuc 0
decr (pos (suc n)) = pos n
decr (negsuc n) = negsuc (suc n)

-- `a <= b`
abbrev pub leb_ℤ : ℤ → ℤ → Bool
leb_ℤ (pos a) (pos b) = leb a b
leb_ℤ (pos a) (negsuc b) = false
leb_ℤ (negsuc a) (pos b) = true
leb_ℤ (negsuc a) (negsuc b) = leb b a

-- `a < b`
abbrev pub ltb_ℤ : ℤ → ℤ → Bool
ltb_ℤ (pos a) (pos b) = ltb a b
ltb_ℤ (pos a) (negsuc b) = false
ltb_ℤ (negsuc a) (pos b) = true
ltb_ℤ (negsuc a) (negsuc b) = ltb b a

pub decr-incr : (a : ℤ) → decr (incr a) ≡ a
decr-incr (pos n) = refl
decr-incr (negsuc zero) = refl
decr-incr (negsuc (suc n)) = refl

pub not_leb→ltb : (a b : ℤ) → leb_ℤ b a ≡ false → ltb_ℤ a b ≡ true
not_leb→ltb (pos a) (pos b) h = ground arith
not_leb→ltb (pos a) (negsuc b) h = cc
not_leb→ltb (negsuc a) (pos b) h = refl
not_leb→ltb (negsuc a) (negsuc b) h = ground arith
