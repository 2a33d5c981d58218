-- ===== src/Base/Map.antt =====
-- `HashMap`, as an association list. `insert` writes in place or appends, and `remove` leaves no
-- entry of the key, so that a lookup determines all that a client can ask for by key.
use Prim.Native.Nat.{suc, ◌≤◌}
use mathlib.Core.Path.{◌≡◌, refl}
use mathlib.Core.Logic.{inl, inr}
use mathlib.Core.Bool.{Bool, true, false}
use mathlib.Core.List.{List, [], ◌∷◌}
use mathlib.Core.Option.{Option, none, some}
use native.Mathlib.Omega.{arith}
use bitcoin_adaptor.Base.Tests.{Bool-cases, same, if◌then◌else◌}
use bitcoin_adaptor.Base.Lists.{length}

module _ {ℓ κ} {K : Type ℓ} {V : Type κ} where
  abbrev pub keys : List (K × V) → List K
  keys [] = []
  keys ((k, v) ∷ m) = k ∷ keys m

  abbrev pub values : List (K × V) → List V
  values [] = []
  values ((k, v) ∷ m) = v ∷ values m

  -- `values_mut()` with an update of each value.
  abbrev pub map_values : (V → V) → List (K × V) → List (K × V)
  map_values f [] = []
  map_values f ((k, v) ∷ m) = (k, f v) ∷ map_values f m

  -- `retain` by a test on key and value.
  abbrev pub retain : (K → V → Bool) → List (K × V) → List (K × V)
  retain p [] = []
  retain p ((k, v) ∷ m) = if p k v then (k, v) ∷ retain p m else retain p m

  pub length-retain-le : (p : K → V → Bool) (m : List (K × V)) → length (retain p m) ≤ length m
  length-retain-le p [] = omega arith
  length-retain-le p ((k, v) ∷ m) = ground (arith, length-retain-le p m)

  pub length-map_values : (f : V → V) (m : List (K × V)) → length (map_values f m) ≡ length m
  length-map_values f [] = omega arith
  length-map_values f ((k, v) ∷ m) = omega (arith, length-map_values f m)

module _ {ℓ κ} {K : Type ℓ} {V : Type κ} (dec : Discrete K) where
  abbrev pub get : K → List (K × V) → Option V
  get k [] = none
  get k ((j, v) ∷ m) = if same dec k j then (some v) else (get k m)

  abbrev pub contains_key : K → List (K × V) → Bool
  contains_key k m = elim (get k m) [ none ↦ false | some v ↦ true ]

  abbrev pub insert : K → V → List (K × V) → List (K × V)
  insert k v [] = (k, v) ∷ []
  insert k v ((j, w) ∷ m) = if same dec k j then ((k, v) ∷ m) else ((j, w) ∷ insert k v m)

  abbrev pub remove : K → List (K × V) → List (K × V)
  remove k [] = []
  remove k ((j, v) ∷ m) = if same dec k j then (remove k m) else ((j, v) ∷ remove k m)

  -- `get_mut` with an update of the value, if the key is there.
  abbrev pub modify : K → (V → V) → List (K × V) → List (K × V)
  modify k f [] = []
  modify k f ((j, v) ∷ m) = if same dec k j then ((j, f v) ∷ m) else ((j, v) ∷ modify k f m)

  pub get-insert :
      (j k : K) (v : V) (m : List (K × V))
      → get j (insert k v m) ≡ (if same dec j k then some v else get j m)
  get-insert j k v [] = refl
  get-insert j k v ((i, w) ∷ m) = ground (arith, get-insert j k v m)

  pub get-remove :
      (j k : K) (m : List (K × V)) → get j (remove k m) ≡ (if same dec j k then none else (get j m))
  get-remove j k [] = ground arith
  get-remove j k ((i, w) ∷ m) = ground (arith, get-remove j k m)

  pub get-modify :
      (j k : K) (f : V → V) (m : List (K × V))
      → get j (modify k f m)
        ≡ elim (get j m) [ none ↦ none | some v ↦ some (if same dec j k then (f v) else v) ]
  get-modify j k f [] = refl
  get-modify j k f ((i, w) ∷ m) = ground (arith, get-modify j k f m)

  pub get-map_values :
      (j : K) (f : V → V) (m : List (K × V))
      → get j (map_values f m) ≡ elim (get j m) [ none ↦ none | some v ↦ some (f v) ]
  get-map_values j f [] = refl
  get-map_values j f ((i, w) ∷ m) = ground (arith, get-map_values j f m)

  pub length-insert :
      (k : K) (v : V) (m : List (K × V))
      → length (insert k v m) ≡ (if contains_key k m then length m else suc (length m))
  length-insert k v [] = refl
  length-insert k v ((i, w) ∷ m) = ground (arith, length-insert k v m)

  pub length-remove-le : (k : K) (m : List (K × V)) → length (remove k m) ≤ length m
  length-remove-le k [] = omega arith
  length-remove-le k ((i, w) ∷ m) = ground (arith, length-remove-le k m)

  pub length-modify : (k : K) (f : V → V) (m : List (K × V)) → length (modify k f m) ≡ length m
  length-modify k f [] = refl
  length-modify k f ((i, w) ∷ m) = ground (arith, length-modify k f m)

  pub get-retain :
      (p : K → Bool) (k : K) (m : List (K × V))
      → get k (retain (λ j v. p j) m) ≡ (if p k then get k m else none)
  get-retain p k [] = ground arith
  get-retain p k ((i, w) ∷ m) = elim (Bool-cases (p i)) [
    | inl q ↦ ground (arith, get-retain p k m)
    | inr q ↦ ground (arith, get-retain p k m)
  ]
