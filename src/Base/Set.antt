-- ===== src/Base/Set.antt =====
-- `HashSet`, as a list without repetitions.
use Prim.Native.Nat.{suc, ◌≤◌}
use mathlib.Core.Path.{◌≡◌, refl}
use mathlib.Core.Logic.{inl, inr}
use mathlib.Core.Bool.{Bool, true, false, ◌||◌, ◌&&◌}
use mathlib.Core.List.{List, [], ◌∷◌, ◌++◌}
use native.Mathlib.Omega.{arith}
use bitcoin_adaptor.Base.Tests.{Bool-cases, same, if◌then◌else◌}
use bitcoin_adaptor.Base.Lists.{length, keep_if}

module _ {ℓ} {K : Type ℓ} (dec : Discrete K) where
  abbrev pub contains : K → List K → Bool
  contains k [] = false
  contains k (j ∷ s) = if same dec k j then true else (contains k s)

  abbrev pub insert : K → List K → List K
  insert k [] = k ∷ []
  insert k (j ∷ s) = if same dec k j then (j ∷ s) else (j ∷ insert k s)

  abbrev pub remove : K → List K → List K
  remove k [] = []
  remove k (j ∷ s) = if same dec k j then (remove k s) else (j ∷ remove k s)

  abbrev pub union : List K → List K → List K
  union s [] = s
  union s (k ∷ t) = insert k (union s t)

  -- `collect::<HashSet<_>>()`.
  abbrev pub collect : List K → List K
  collect [] = []
  collect (k ∷ t) = insert k (collect t)

  pub contains-insert :
      (j k : K) (s : List K)
      → contains j (insert k s) ≡ (if same dec j k then true else (contains j s))
  contains-insert j k [] = refl
  contains-insert j k (i ∷ s) = ground (arith, contains-insert j k s)

  pub contains-remove :
      (j k : K) (s : List K)
      → contains j (remove k s) ≡ (if same dec j k then false else (contains j s))
  contains-remove j k [] = ground arith
  contains-remove j k (i ∷ s) = ground (arith, contains-remove j k s)

  pub contains-union :
      (j : K) (s t : List K) → contains j (union s t) ≡ (contains j s || contains j t)
  contains-union j s [] = ground arith
  contains-union j s (k ∷ t) = ground (arith, contains-insert j k (union s t), contains-union j s t)

  pub contains-collect : (j : K) (t : List K) → contains j (collect t) ≡ contains j t
  contains-collect j [] = refl
  contains-collect j (k ∷ t) = ground (arith, contains-insert j k (collect t), contains-collect j t)

  pub contains-append :
      (j : K) (s t : List K) → contains j (s ++ t) ≡ (contains j s || contains j t)
  contains-append j [] t = refl
  contains-append j (k ∷ s) t = ground (arith, contains-append j s t)

  pub length-insert :
      (k : K) (s : List K)
      → length (insert k s) ≡ (if contains k s then length s else suc (length s))
  length-insert k [] = refl
  length-insert k (i ∷ s) = ground (arith, length-insert k s)

  pub length-remove-le : (k : K) (s : List K) → length (remove k s) ≤ length s
  length-remove-le k [] = omega arith
  length-remove-le k (i ∷ s) = ground (arith, length-remove-le k s)

  pub contains-keep_if :
      (p : K → Bool) (k : K) (s : List K) → contains k (keep_if p s) ≡ (contains k s && p k)
  contains-keep_if p k [] = refl
  contains-keep_if p k (i ∷ s) = elim (Bool-cases (p i)) [
    | inl q ↦ ground (arith, contains-keep_if p k s)
    | inr q ↦ ground (arith, contains-keep_if p k s)
  ]
