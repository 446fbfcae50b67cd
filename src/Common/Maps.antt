-- ===== src/Common/Maps.antt =====
-- Go's map with string keys, as an association list in the order in which `range` goes through it.
-- That order is arbitrary, so a theorem about a map is stated for every such list.
use Prim.Native.String.{String}
use mathlib.Core.Path.{◌≡◌}
use mathlib.Core.Logic.{◌≢◌}
use mathlib.Core.Bool.{Bool, true, false}
use mathlib.Core.Option.{Option, none, some}
use mathlib.Core.List.{List, [], ◌∷◌}
use text.Mathlib.TextEquality.{eq_iff}
use native.Mathlib.Omega.{arith}
use windows_machine_config_o.Common.Tests.{◌==◌, if◌then◌else◌}

abbrev pub Map {ℓ} : Type ℓ → Type ℓ
Map V = List (String × V)

module _ {ℓ} {V : Type ℓ} where
  -- `m[k]`, with whether the key is there.
  unfoldable pub lookup : String → Map V → Option V
  lookup k [] = none
  lookup k (entry ∷ m) = elim (entry.0 == k) [ true ↦ some entry.1 | false ↦ lookup k m ]

  -- `m[k] = v`.
  unfoldable pub insert : String → V → Map V → Map V
  insert k v [] = (k, v) ∷ []
  insert k v (entry ∷ m) = elim (entry.0 == k) [ true ↦ (k, v) ∷ m | false ↦ entry ∷ insert k v m ]

  unfoldable pub delete : String → Map V → Map V
  delete k [] = []
  delete k ((j, w) ∷ m) = let rest = delete k m in if j == k then rest else (j, w) ∷ rest

  abbrev pub has_key : String → Map V → Bool
  has_key k m = elim (lookup k m) [ none ↦ false | some _ ↦ true ]

  pub lookup-insert :
      (k j : String) (v : V) (m : Map V)
      → lookup j (insert k v m) ≡ (if k == j then some v else lookup j m)
  unfolding lookup insert
  lookup-insert k j v [] = ground (arith, eq_iff k j)
  lookup-insert k j v (entry ∷ m) =
      let rest = lookup-insert k j v m in
      ground (arith, eq_iff entry.0 j, eq_iff entry.0 k, eq_iff k j, rest)

  pub lookup-delete :
      (k j : String) (m : Map V) → lookup j (delete k m) ≡ (if k == j then none else lookup j m)
  unfolding lookup delete
  lookup-delete k j [] = ground (arith, eq_iff k j)
  lookup-delete k j ((i, w) ∷ m) =
      ground (arith, eq_iff k j, eq_iff i k, eq_iff i j, lookup-delete k j m)

  pub lookup-insert_self : (k : String) (v : V) (m : Map V) → lookup k (insert k v m) ≡ some v
  lookup-insert_self k v m = ground (arith, eq_iff k k, lookup-insert k k v m)

  pub lookup-insert_ne :
      (k j : String) (v : V) (m : Map V) → k ≢ j → lookup j (insert k v m) ≡ lookup j m
  lookup-insert_ne k j v m h = ground (arith, eq_iff k j, lookup-insert k j v m)

  pub lookup-delete_self : (k : String) (m : Map V) → lookup k (delete k m) ≡ none
  lookup-delete_self k m = ground (arith, eq_iff k k, lookup-delete k k m)

  pub lookup-delete_ne : (k j : String) (m : Map V) → k ≢ j → lookup j (delete k m) ≡ lookup j m
  lookup-delete_ne k j m h = ground (arith, eq_iff k j, lookup-delete k j m)

  -- Each key stands once, as in every map.
  abbrev pub HasUniqueKeys : Map V → Type ℓ
  HasUniqueKeys [] = Unit
  HasUniqueKeys ((k, v) ∷ m) = (lookup k m ≡ none) × HasUniqueKeys m

  -- `len(m)` entries in some order, as `for _, v := range m` visits them.
  abbrev pub values : Map V → List V
  values [] = []
  values ((k, v) ∷ m) = v ∷ values m
