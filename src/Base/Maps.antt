-- ===== src/Base/Maps.antt =====
-- A Go map as an association list, the newest key last; an insert overwrites in place.
use Prim.Native.Nat.{suc}
use mathlib.Core.Path.{◌≡◌, refl}
use mathlib.Core.Bool.{true, false}
use mathlib.Core.List.{List, [], ◌∷◌}
use mathlib.Core.Option.{Option, none, some}
use native.Mathlib.Omega.{arith}
use zmux_server.Base.Tests.{Eq, ◌==◌, if◌then◌else◌}
use zmux_server.Base.Lists.{length}

abbrev pub Map {ℓ κ} : Type ℓ → Type κ → Type (ℓ ⊔ κ)
Map K V = List (K × V)

module _ {ℓ κ} {K : Type ℓ} {V : Type κ} ⦃e : Eq K⦄ where
  -- `v, ok := m[k]`
  unfoldable pub lookup : K → Map K V → Option V
  lookup key [] = none
  lookup key ((here, found) ∷ rest) = if here == key then some found else lookup key rest

  -- `m[k] = v`
  unfoldable pub insert : K → V → Map K V → Map K V
  insert key new [] = (key, new) ∷ []
  insert key new ((here, old) ∷ rest) =
      if here == key then (key, new) ∷ rest else (here, old) ∷ insert key new rest

  -- `delete(m, k)`
  unfoldable pub delete : K → Map K V → Map K V
  delete k [] = []
  delete k ((j, w) ∷ m) = if j == k then delete k m else (j, w) ∷ delete k m

  pub lookup-insert :
      (key asked : K) (new : V) (table : Map K V)
      → lookup asked (insert key new table)
        ≡ (if key == asked then some new else lookup asked table)
  unfolding lookup insert
  lookup-insert key asked new [] = refl
  lookup-insert key asked new ((here, old) ∷ rest) = ground (
    lookup-insert key asked new rest,
    arith,
    e.equal_iff here asked,
    e.equal_iff here key,
    e.equal_iff key asked,
  )

  pub lookup-delete :
      (k j : K) (m : Map K V) → lookup j (delete k m) ≡ (if k == j then none else lookup j m)
  unfolding lookup delete
  lookup-delete k j [] = ground arith
  lookup-delete k j ((i, w) ∷ m) =
      ground (arith, e.equal_iff k j, e.equal_iff i k, e.equal_iff i j, lookup-delete k j m)

  -- What a lookup gives for the key that was written or deleted, and for any other.
  pub inserted :
      (key asked : K) (new : V) (table : Map K V)
      → (key == asked) ≡ true
      → lookup asked (insert key new table) ≡ some new
  inserted key asked new table own = rw own at (lookup-insert key asked new table)

  pub untouched :
      (key asked : K) (new : V) (table : Map K V)
      → (key == asked) ≡ false
      → lookup asked (insert key new table) ≡ lookup asked table
  untouched key asked new table other = rw other at (lookup-insert key asked new table)

  pub deleted :
      (key asked : K) (table : Map K V)
      → (key == asked) ≡ true
      → lookup asked (delete key table) ≡ none
  deleted key asked table own = rw own at (lookup-delete key asked table)

  pub undeleted :
      (key asked : K) (table : Map K V)
      → (key == asked) ≡ false
      → lookup asked (delete key table) ≡ lookup asked table
  undeleted key asked table other = rw other at (lookup-delete key asked table)

  -- A key stands once.
  abbrev pub Distinct : Map K V → Type κ
  Distinct [] = Unit
  Distinct ((j, w) ∷ m) = (lookup j m ≡ none) × Distinct m

  pub insert-Distinct : (k : K) (v : V) (m : Map K V) → Distinct m → Distinct (insert k v m)
  unfolding insert lookup
  insert-Distinct k v [] d = (refl, tt)
  insert-Distinct k v ((j, w) ∷ m) d =
      ground
        (arith, e.equal_iff j k, e.equal_iff k j, lookup-insert k j v m, insert-Distinct k v m d.1)

  pub delete-Distinct : (k : K) (m : Map K V) → Distinct m → Distinct (delete k m)
  unfolding delete lookup
  delete-Distinct k [] d = tt
  delete-Distinct k ((j, w) ∷ m) d =
      ground (arith, e.equal_iff j k, e.equal_iff k j, lookup-delete k j m, delete-Distinct k m d.1)

  pub delete_missing : (k : K) (m : Map K V) → lookup k m ≡ none → delete k m ≡ m
  unfolding delete lookup
  delete_missing k [] h = refl
  delete_missing k ((j, w) ∷ m) h = ground (arith, delete_missing k m)

  pub length-insert :
      (k : K) (v : V) (m : Map K V) → lookup k m ≡ none → length (insert k v m) ≡ suc (length m)
  unfolding insert lookup
  length-insert k v [] h = refl
  length-insert k v ((j, w) ∷ m) h = ground (arith, length-insert k v m)

  pub length-delete :
      (k : K) (m : Map K V) (v : V)
      → Distinct m
      → lookup k m ≡ some v
      → suc (length (delete k m)) ≡ length m
  unfolding delete lookup
  length-delete k [] v d h = cc
  length-delete k ((j, w) ∷ m) v d h =
      ground (arith, e.equal_iff j k, length-delete k m v d.1, delete_missing k m)

  abbrev pub keys : Map K V → List K
  keys [] = []
  keys ((j, w) ∷ m) = j ∷ keys m
