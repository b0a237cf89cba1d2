-- ===== src/Base/Maps.antt =====
-- Go maps, as association lists. The order of the list stands for the order of iteration, which
-- Go leaves open.
use mathlib.Core.Path.{◌≡◌, refl}
use mathlib.Core.List.{List, [], ◌∷◌}
use mathlib.Core.Option.{Option, none, some}
use native.Mathlib.Omega.{arith}
use proxycache.Base.Tests.{if◌then◌else◌}
use proxycache.Base.Keys.{KeyEq, ◌==◌, ==_refl}

abbrev pub Map {ℓ κ} : Type ℓ → Type κ → Type (ℓ ⊔ κ)
Map K V = List (K × V)

abbrev pub or_else {κ} : {V : Type κ} → V → Option V → V
or_else d none = d
or_else d (some v) = v

module _ {ℓ κ} {K : Type ℓ} {V : Type κ} ⦃e : KeyEq K⦄ where
  unfoldable pub lookup : K → Map K V → Option V
  lookup key [] = none
  lookup key ((k, value) ∷ rest) = if k == key then some value else lookup key rest

  -- `m[k]`, with the zero value of the type for a missing key.
  unfoldable pub lookup_or : V → K → Map K V → V
  unfolding lookup
  lookup_or d k m = or_else d (lookup k m)

  unfoldable pub insert : K → V → Map K V → Map K V
  insert key value [] = (key, value) ∷ []
  insert key value ((k, old) ∷ rest) =
      if k == key then (key, value) ∷ rest else (k, old) ∷ insert key value rest

  unfoldable pub delete : K → Map K V → Map K V
  delete k [] = []
  delete k ((j, w) ∷ m) = if j == k then delete k m else (j, w) ∷ delete k m

  pub lookup-insert :
      (at key : K) (value : V) (entries : Map K V)
      → lookup key (insert at value entries)
        ≡ (if at == key then some value else lookup key entries)
  unfolding lookup insert
  lookup-insert at key value [] = refl
  lookup-insert k j v ((i, w) ∷ m) = ground (
    arith,
    e.same_iff i k,
    e.same_iff i j,
    e.same_iff k j,
    ==_refl k,
    ==_refl j,
    lookup-insert k j v m,
  )

  pub lookup-delete :
      (k j : K) (m : Map K V) → lookup j (delete k m) ≡ (if k == j then none else lookup j m)
  unfolding lookup delete
  lookup-delete k j [] = ground arith
  lookup-delete k j ((i, w) ∷ m) = ground (
    arith,
    e.same_iff i k,
    e.same_iff i j,
    e.same_iff k j,
    ==_refl k,
    ==_refl j,
    lookup-delete k j m,
  )

  pub lookup_or-insert :
      (d : V) (k j : K) (v : V) (m : Map K V)
      → lookup_or d j (insert k v m) ≡ (if k == j then v else lookup_or d j m)
  unfolding lookup_or
  lookup_or-insert d k j v m = ground (arith, lookup-insert k j v m)

  pub lookup_or-delete :
      (d : V) (k j : K) (m : Map K V)
      → lookup_or d j (delete k m) ≡ (if k == j then d else lookup_or d j m)
  unfolding lookup_or
  lookup_or-delete d k j m = ground (arith, lookup-delete k j m)
