-- ===== src/Common/Maps.antt =====
-- `HashMap` as an association list with one entry for each key. The order of the entries is the
-- order of insertion; no operation of the program depends on a map's iteration order.
use mathlib.Core.Path.{◌≡◌, refl}
use mathlib.Core.Logic.{inl, inr}
use mathlib.Core.Option.{Option, none, some}
use mathlib.Core.List.{List, [], ◌∷◌}
use native.Mathlib.Omega.{arith}
use xlpod.Common.Tests.{PartialEq, ◌==◌, if◌then◌else◌, Bool-cases}
use xlpod.Common.Lists.{All, In}

module _ {ℓ κ} {K : Type ℓ} {V : Type κ} ⦃e : PartialEq K⦄ where
  -- `map.get(k)`.
  unfoldable pub lookup : (key : K) (map : List (K × V)) → Option V
  lookup key [] = none
  lookup key ((other, value) ∷ more) =
      let later = lookup key more in if other == key then some value else later

  -- `map.insert(k, v)`.
  unfoldable pub insert : (key : K) (value : V) (map : List (K × V)) → List (K × V)
  insert key value [] = (key, value) ∷ []
  insert key value ((other, old) ∷ more) =
      let kept = (other, old) ∷ insert key value more in
      if other == key then (key, value) ∷ more else kept

  -- `map.remove(k)`.
  unfoldable pub remove : (key : K) (map : List (K × V)) → List (K × V)
  remove key [] = []
  remove key ((other, old) ∷ more) =
      let rest = remove key more in if other == key then rest else (other, old) ∷ rest

  -- A lookup after an insertion finds the new value at its key, and what was there elsewhere.
  pub lookup-insert :
      (key asked : K) (value : V) (map : List (K × V))
      → lookup asked (insert key value map)
        ≡ (if key == asked then some value else lookup asked map)
  unfolding lookup insert
  lookup-insert key asked value [] = ground arith
  lookup-insert key asked value ((other, old) ∷ more) = ground (
    arith,
    lookup-insert key asked value more,
    e.eq_iff other asked,
    e.eq_iff key asked,
    e.eq_iff other key,
  )

  -- A lookup after a removal finds nothing at its key, and what was there elsewhere.
  pub lookup-remove :
      (key asked : K) (map : List (K × V))
      → lookup asked (remove key map) ≡ (if key == asked then none else lookup asked map)
  unfolding lookup remove
  lookup-remove key asked [] = ground arith
  lookup-remove key asked ((other, old) ∷ more) = ground (
    arith,
    lookup-remove key asked more,
    e.eq_iff other asked,
    e.eq_iff key asked,
    e.eq_iff other key,
  )

  pub lookup-insert_self : (k : K) (v : V) (m : List (K × V)) → lookup k (insert k v m) ≡ some v
  lookup-insert_self k v m = rw (lookup-insert k k v m, (e.eq_iff k k).1 refl)

  -- What holds of the entries of a map and of a new entry holds after the insertion.
  pub All-insert {μ} :
      (P : K × V → Type μ) (k : K) (v : V) (m : List (K × V))
      → All P m
      → P (k, v)
      → All P (insert k v m)
  unfolding insert
  All-insert P k v [] h p = (p, tt)
  All-insert P k v ((j, w) ∷ m) h p = elim (Bool-cases (j == k)) [
    | inl t ↦ rw t (p, h.1)
    | inr f ↦ rw f (h.0, All-insert P k v m h.1 p)
  ]

module _ {K V : Type 0} ⦃e : PartialEq K⦄ where
  -- An entry that a lookup finds is in the list.
  pub In-of_lookup : (k : K) (v : V) (m : List (K × V)) → lookup k m ≡ some v → In (k, v) m
  unfolding lookup
  In-of_lookup k v [] h = cc
  In-of_lookup k v ((j, w) ∷ m) h = ground (arith, e.eq_iff j k, In-of_lookup k v m)
