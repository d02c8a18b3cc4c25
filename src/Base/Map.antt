-- ===== src/Base/Map.antt =====
-- Go's maps as association lists. A range over a map visits the entries in the list's order, and
-- Go's order is not fixed: what the program makes of such a range is sorted, or it is stated of
-- every order.
use mathlib.Core.Path.{◌≡◌, refl}
use mathlib.Core.Bool.{Bool, true, false}
use mathlib.Core.List.{List, [], ◌∷◌, map}
use mathlib.Core.Option.{Option, none, some}
use native.Mathlib.Omega.{arith}
use Prim.Native.String.{String}
use dbt_rules.Base.Tests.{Eq, ◌==◌, string_eq, if◌then◌else◌}
use dbt_rules.Base.Lists.{elem}

abbrev pub Map {ℓ κ} : Type ℓ → Type κ → Type (ℓ ⊔ κ)
Map K V = List (K × V)

abbrev pub keys {ℓ κ} : {K : Type ℓ} {V : Type κ} → Map K V → List K
keys m = map (λ e. e.0) m

module _ {ℓ κ} {K : Type ℓ} {V : Type κ} ⦃e : Eq K⦄ where
  unfoldable pub lookup : K → Map K V → Option V
  lookup key [] = none
  lookup key ((name, value) ∷ rest) = if name == key then some value else lookup key rest

  unfoldable pub insert : K → V → Map K V → Map K V
  insert key value [] = (key, value) ∷ []
  insert key value ((name, old) ∷ rest) =
      if name == key then (key, value) ∷ rest else (name, old) ∷ insert key value rest

  unfoldable pub delete : K → Map K V → Map K V
  delete k [] = []
  delete k ((j, w) ∷ m) = let rest = delete k m in if j == k then rest else (j, w) ∷ rest

  -- `m[k]`, which is the zero value where the key is missing.
  abbrev pub index : V → Map K V → K → V
  index zero_value m k = elim (lookup k m) [ none ↦ zero_value | some v ↦ v ]

  -- `_, ok := m[k]`
  abbrev pub has : K → Map K V → Bool
  has k m = elim (lookup k m) [ none ↦ false | some v ↦ true ]

  -- An entry that is stored is read back, and no other entry changes.
  pub lookup-insert :
      (at key : K) (value : V) (m : Map K V)
      → lookup key (insert at value m) ≡ (if at == key then some value else lookup key m)
  unfolding lookup insert
  lookup-insert at key value [] = refl
  lookup-insert at key value ((name, old) ∷ m) =
      ground (
        arith,
        e.beq_iff at key,
        e.beq_iff name at,
        e.beq_iff name key,
        lookup-insert at key value m,
      )

  pub lookup-delete :
      (k j : K) (m : Map K V) → lookup j (delete k m) ≡ (if k == j then none else lookup j m)
  unfolding lookup delete
  lookup-delete k j [] = ground arith
  lookup-delete k j ((i, w) ∷ m) =
      ground (arith, e.beq_iff k j, e.beq_iff i k, e.beq_iff i j, lookup-delete k j m)

  pub index-insert :
      (k j : K) (d v : V) (m : Map K V)
      → index d (insert k v m) j ≡ (if k == j then v else index d m j)
  index-insert k j d v m = ground (arith, lookup-insert k j v m)

  pub has-insert :
      (k j : K) (v : V) (m : Map K V) → has j (insert k v m) ≡ (if k == j then true else has j m)
  has-insert k j v m = ground (arith, lookup-insert k j v m)

  pub has-delete :
      (k j : K) (m : Map K V) → has j (delete k m) ≡ (if k == j then false else has j m)
  has-delete k j m = ground (arith, lookup-delete k j m)

pub ruleset map_laws = (lookup-insert, lookup-delete)

pub elem-keys {ℓ} : {V : Type ℓ} (k : String) (m : Map String V) → elem k (keys m) ≡ has k m
unfolding lookup
elem-keys k [] = refl
elem-keys k ((name, v) ∷ m) = ground (arith, elem-keys k m)
