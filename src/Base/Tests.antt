-- ===== src/Base/Tests.antt =====
-- Boolean tests on the native numbers, the conditional, and equality by instances.
use Prim.Native.Nat.{ℕ, ◌≤◌, ◌<◌, compare, Ordering}
use Prim.Native.Char.{code}
use Prim.Native.String.{String}
use mathlib.Core.Path.{◌≡◌, refl, ap}
use mathlib.Core.Logic.{◌↔◌, ◌⊎◌, inl, inr}
use mathlib.Core.Bool.{Bool, true, false, ◌&&◌}
use mathlib.Core.List.{List, [], ◌∷◌}
use mathlib.Core.Option.{Option, none, some}
use native.Mathlib.Omega.{arith}

-- These compute to `compare`, which `ground` and `grind` read with no lemma listed.
abbrev pub ltb : ℕ → ℕ → Bool
ltb a b = elim (compare a b) [ Ordering.lt ↦ true | _ ↦ false ]

abbrev pub leb : ℕ → ℕ → Bool
leb a b = elim (compare a b) [ Ordering.gt ↦ false | _ ↦ true ]

abbrev pub nat_beq : ℕ → ℕ → Bool
nat_beq a b = elim (compare a b) [ Ordering.eq ↦ true | _ ↦ false ]

infix 1 if◌then◌else◌
abbrev pub if◌then◌else◌ {ℓ} : {A : Type ℓ} → Bool → A → A → A
if true then x else y = x
if false then x else y = y

pub ltb→lt : (a b : ℕ) → ltb a b ≡ true → a < b
ltb→lt a b h = ground arith

pub lt→ltb : (a b : ℕ) → a < b → ltb a b ≡ true
lt→ltb a b h = ground arith

pub leb→le : (a b : ℕ) → leb a b ≡ true → a ≤ b
leb→le a b h = ground arith

pub nat_beq_iff : (a b : ℕ) → (nat_beq a b ≡ true) ↔ (a ≡ b)
nat_beq_iff a b = ground arith

-- To split on a computed value and keep the equation.
pub Bool-cases : (b : Bool) → (b ≡ true) ⊎ (b ≡ false)
Bool-cases true = inl refl
Bool-cases false = inr refl

pub Option-cases {ℓ} : {A : Type ℓ} (o : Option A) → (o ≡ none) ⊎ ((a : A) × (o ≡ some a))
Option-cases none = inl refl
Option-cases (some a) = inr (a, refl)

abbrev pub is_some {ℓ} : {A : Type ℓ} → Option A → Bool
is_some none = false
is_some (some a) = true

-- A type that Go compares with `==`, with the test and its law.
pub record Eq {ℓ} (K : Type ℓ) : Type ℓ where
  pub equal : K → K → Bool
  pub equal_iff : (x y : K) → (equal x y ≡ true) ↔ (x ≡ y)

instance abbrev pub nat_eq : Eq ℕ
nat_eq = record { equal_iff = nat_beq_iff; equal = nat_beq }

-- A Go string is the list of its bytes.
abbrev pub Bytes : Type 0
Bytes = List ℕ

abbrev pub bytes_beq : Bytes → Bytes → Bool
bytes_beq [] [] = true
bytes_beq [] (b ∷ t) = false
bytes_beq (a ∷ s) [] = false
bytes_beq (a ∷ s) (b ∷ t) = nat_beq a b && bytes_beq s t

pub bytes_beq_refl : (s : Bytes) → bytes_beq s s ≡ true
bytes_beq_refl [] = refl
bytes_beq_refl (a ∷ s) = ground (arith, bytes_beq_refl s)

pub bytes_beq_sound : (s t : Bytes) → bytes_beq s t ≡ true → s ≡ t
bytes_beq_sound [] [] h = refl
bytes_beq_sound [] (b ∷ t) h = cc
bytes_beq_sound (a ∷ s) [] h = cc
bytes_beq_sound (a ∷ s) (b ∷ t) h = ground (arith, bytes_beq_sound s t)

pub bytes_beq_iff : (s t : Bytes) → (bytes_beq s t ≡ true) ↔ (s ≡ t)
bytes_beq_iff s t = (bytes_beq_sound s t, λ e. cc (ap (bytes_beq s) e, bytes_beq_refl s))

instance abbrev pub bytes_eq : Eq Bytes
bytes_eq = record { equal_iff = bytes_beq_iff; equal = bytes_beq }

infix 50 ◌==◌
abbrev pub ◌==◌ {ℓ} : {K : Type ℓ} ⦃q : Eq K⦄ (x y : K) → Bool
◌==◌ ⦃q⦄ x y = q.equal x y

-- The bytes of an ASCII text.
abbrev pub codes : String → Bytes
codes String.[] = []
codes (String.◌∷◌ c s) = code c ∷ codes s
