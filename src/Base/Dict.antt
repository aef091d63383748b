-- ===== src/Base/Dict.antt =====
-- `std::map` as the list of its entries in the order of the keys, over any ordered type of keys.
use storage_framework.Base.Key.{Key}
use storage_framework.Base.Tests.{if◌then◌else◌}
use storage_framework.Base.Lists.{length}
use Prim.Native.Nat.{suc}
use mathlib.Core.Path.{◌≡◌, refl}
use mathlib.Core.Bool.{true}
use mathlib.Core.Option.{Option, none, some}
use mathlib.Core.List.{List, [], ◌∷◌}
use native.Mathlib.Omega.{arith}

abbrev pub Dict : Type 0 → Type 0 → Type 0
Dict K V = List (K × V)

module _ {K V : Type 0} ⦃o : Key K⦄ where
  unfoldable pub lookup : K → Dict K V → Option V
  lookup k [] = none
  lookup k ((j, v) ∷ m) = if o.eq j k then some v else lookup k m

  -- `emplace` keeps the value of a key that is there.
  unfoldable pub emplace : K → V → Dict K V → Dict K V
  emplace k v [] = (k, v) ∷ []
  emplace k v ((j, w) ∷ m) =
      let rest = emplace k v m in
      if o.lt j k then (j, w) ∷ rest else if o.eq j k then (j, w) ∷ m else (k, v) ∷ (j, w) ∷ m

  -- `m[k] = v`.
  unfoldable pub assign : K → V → Dict K V → Dict K V
  assign k v [] = (k, v) ∷ []
  assign k v ((j, w) ∷ m) =
      let rest = assign k v m in
      if o.lt j k then (j, w) ∷ rest else if o.eq j k then (k, v) ∷ m else (k, v) ∷ (j, w) ∷ m

  unfoldable pub erase : K → Dict K V → Dict K V
  erase k [] = []
  erase k ((j, v) ∷ m) = let rest = erase k m in if o.eq j k then m else (j, v) ∷ rest

  -- Every key of the map comes after `k`.
  abbrev pub Above : K → Dict K V → Type 0
  Above k [] = Unit
  Above k ((j, v) ∷ m) = (o.lt k j ≡ true) × Above k m

  abbrev pub IsOrdered : Dict K V → Type 0
  IsOrdered [] = Unit
  IsOrdered ((j, v) ∷ m) = Above j m × IsOrdered m

  pub Above-mono : (i k : K) (m : Dict K V) → o.lt i k ≡ true → Above k m → Above i m
  Above-mono i k [] h a = tt
  Above-mono i k ((j, v) ∷ m) h a = (o.trans i k j h a.0, Above-mono i k m h a.1)

  emplace-Above :
      (i k : K) (v : V) (m : Dict K V) → o.lt i k ≡ true → Above i m → Above i (emplace k v m)
  unfolding emplace
  emplace-Above i k v [] h a = (h, tt)
  emplace-Above i k v ((j, w) ∷ m) h a = ground (arith, emplace-Above i k v m h a.1)

  pub emplace-IsOrdered : (k : K) (v : V) (m : Dict K V) → IsOrdered m → IsOrdered (emplace k v m)
  unfolding emplace
  emplace-IsOrdered k v [] s = (tt, tt)
  emplace-IsOrdered k v ((j, w) ∷ m) s =
      ground
        (arith, emplace-IsOrdered k v m s.1, emplace-Above j k v m, o.total j k, Above-mono k j m)

  assign-Above :
      (i k : K) (v : V) (m : Dict K V) → o.lt i k ≡ true → Above i m → Above i (assign k v m)
  unfolding assign
  assign-Above i k v [] h a = (h, tt)
  assign-Above i k v ((j, w) ∷ m) h a = ground (arith, assign-Above i k v m h a.1)

  pub assign-IsOrdered : (k : K) (v : V) (m : Dict K V) → IsOrdered m → IsOrdered (assign k v m)
  unfolding assign
  assign-IsOrdered k v [] s = (tt, tt)
  assign-IsOrdered k v ((j, w) ∷ m) s = ground (
    arith,
    assign-IsOrdered k v m s.1,
    assign-Above j k v m,
    o.total j k,
    o.eq→≡ j k,
    Above-mono k j m,
  )

  erase-Above : (i k : K) (m : Dict K V) → Above i m → Above i (erase k m)
  unfolding erase
  erase-Above i k [] a = tt
  erase-Above i k ((j, w) ∷ m) a = ground (arith, erase-Above i k m a.1)

  pub erase-IsOrdered : (k : K) (m : Dict K V) → IsOrdered m → IsOrdered (erase k m)
  unfolding erase
  erase-IsOrdered k [] s = tt
  erase-IsOrdered k ((j, w) ∷ m) s = ground (arith, erase-IsOrdered k m s.1, erase-Above j k m s.0)

  pub lookup-Above : (k : K) (m : Dict K V) → Above k m → lookup k m ≡ none
  unfolding lookup
  lookup-Above k [] a = refl
  lookup-Above k ((j, w) ∷ m) a = ground (arith, lookup-Above k m a.1, o.eq→≡ j k, o.irrefl k)

  pub lookup-emplace :
      (i k : K) (v : V) (m : Dict K V)
      → lookup k m ≡ none
      → lookup i (emplace k v m) ≡ (if o.eq k i then some v else lookup i m)
  unfolding lookup emplace
  lookup-emplace i k v [] h = refl
  lookup-emplace i k v ((j, w) ∷ m) h =
      ground (arith, lookup-emplace i k v m, o.eq→≡ j k, o.eq→≡ j i, o.eq→≡ k i, o.irrefl k)

  -- `emplace` does nothing for a key that the map holds.
  pub emplace_held :
      (k : K) (v : V) (m : Dict K V) {w : V} → IsOrdered m → lookup k m ≡ some w → emplace k v m ≡ m
  unfolding lookup emplace
  emplace_held k v [] {w} s h = cc
  emplace_held k v ((j, u) ∷ m) {w} s h = ground (
    arith,
    emplace_held k v m {w = w} s.1,
    o.eq→≡ j k,
    o.irrefl k,
    o.total j k,
    lookup-Above k m,
    Above-mono k j m,
  )

  pub lookup-assign :
      (i k : K) (v : V) (m : Dict K V)
      → lookup i (assign k v m) ≡ (if o.eq k i then some v else lookup i m)
  unfolding lookup assign
  lookup-assign i k v [] = refl
  lookup-assign i k v ((j, w) ∷ m) =
      ground
        (arith, lookup-assign i k v m, o.eq→≡ j k, o.eq→≡ j i, o.eq→≡ k i, o.irrefl k, o.eq_refl j)

  pub lookup-erase :
      (i k : K) (m : Dict K V)
      → IsOrdered m
      → lookup i (erase k m) ≡ (if o.eq k i then none else lookup i m)
  unfolding lookup erase
  lookup-erase i k [] s = ground arith
  lookup-erase i k ((j, w) ∷ m) s =
      ground (arith, lookup-erase i k m s.1, o.eq→≡ j k, o.eq→≡ k i, o.eq_refl k, lookup-Above k m)

  pub length-emplace :
      (k : K) (v : V) (m : Dict K V) → lookup k m ≡ none → length (emplace k v m) ≡ suc (length m)
  unfolding lookup emplace
  length-emplace k v [] h = refl
  length-emplace k v ((j, w) ∷ m) h = ground (arith, length-emplace k v m)
