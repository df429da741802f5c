-- ===== src/Prelude/Map.antt =====
-- `HashMap` and `DashMap` as association lists. A table holds a key at most once (`IsMap`), which
-- every operation keeps. The order of the entries stands for the unspecified iteration order.
use mathlib.Core.Path.{◌≡◌, refl}
use mathlib.Core.Bool.{Bool}
use mathlib.Core.Option.{Option, none, some}
use mathlib.Core.List.{List, [], ◌∷◌}
use native.Mathlib.Omega.{arith}
use overacp.Prelude.Tests.{PartialEq, ◌==◌, same_iff, if◌then◌else◌, is_some}

abbrev pub Map {ℓ} : Type ℓ → Type ℓ → Type ℓ
Map K V = List (K × V)

-- `Option::filter`.
abbrev pub keep {ℓ} : {V : Type ℓ} → (V → Bool) → Option V → Option V
keep p none = none
keep p (some v) = if p v then some v else none

module _ {ℓ} {K V : Type ℓ} ⦃key : PartialEq K⦄ where
  unfoldable pub get : K → Map K V → Option V
  get k [] = none
  get k ((j, v) ∷ m) = if j == k then some v else get k m

  unfoldable pub contains_key : K → Map K V → Bool
  unfolding get
  contains_key k m = is_some (get k m)

  unfoldable pub remove : K → Map K V → Map K V
  remove k [] = []
  remove k ((j, v) ∷ m) = let rest = remove k m in if j == k then rest else (j, v) ∷ rest

  unfoldable pub insert : K → V → Map K V → Map K V
  unfolding remove
  insert k v m = (k, v) ∷ remove k m

  -- `HashMap::retain` by a test on the value.
  unfoldable pub retain_values : (V → Bool) → Map K V → Map K V
  retain_values p [] = []
  retain_values p ((j, v) ∷ m) = let rest = retain_values p m in if p v then (j, v) ∷ rest else rest

  abbrev pub IsMap : Map K V → Type ℓ
  IsMap [] = Unit
  IsMap ((k, v) ∷ m) = (get k m ≡ none) × IsMap m

  pub get-remove : (k j : K) (m : Map K V) → get j (remove k m) ≡ (if k == j then none else get j m)
  unfolding get remove
  get-remove k j [] = ground arith
  get-remove k j ((i, v) ∷ m) =
      ground (arith, get-remove k j m, same_iff i k, same_iff i j, same_iff k j)

  pub get-insert :
      (k j : K) (v : V) (m : Map K V) → get j (insert k v m) ≡ (if k == j then some v else get j m)
  unfolding get insert
  get-insert k j v m = ground (arith, get-remove k j m)

  pub get-retain_values :
      (p : V → Bool) (k : K) (m : Map K V) → IsMap m → get k (retain_values p m) ≡ keep p (get k m)
  unfolding get retain_values
  get-retain_values p k [] u = refl
  get-retain_values p k ((i, v) ∷ m) u =
      ground (arith, get-retain_values p k m u.1, same_iff i k, u.0)

  pub remove-IsMap : (k : K) (m : Map K V) → IsMap m → IsMap (remove k m)
  unfolding remove
  remove-IsMap k [] u = tt
  remove-IsMap k ((i, v) ∷ m) u =
      ground (arith, get-remove k i m, remove-IsMap k m u.1, same_iff i k)

  pub insert-IsMap : (k : K) (v : V) (m : Map K V) → IsMap m → IsMap (insert k v m)
  unfolding insert
  insert-IsMap k v m u = ground (arith, get-remove k k m, remove-IsMap k m u, same_iff k k)

  pub retain_values-IsMap : (p : V → Bool) (m : Map K V) → IsMap m → IsMap (retain_values p m)
  unfolding retain_values
  retain_values-IsMap p [] u = tt
  retain_values-IsMap p ((i, v) ∷ m) u =
      ground (arith, get-retain_values p i m u.1, retain_values-IsMap p m u.1)
