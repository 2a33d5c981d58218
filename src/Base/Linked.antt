-- ===== src/Base/Linked.antt =====
-- The crate `hashlink`: a linked map or set is read as the sequence of its entries, oldest first.
-- Where an operation may move an entry that is there already, it is a field of these records, with
-- its documented effect on lookups and sizes as laws.
use Prim.Native.Nat.{suc, ◌+◌, ◌≤◌}
use mathlib.Core.Path.{◌≡◌, refl}
use mathlib.Core.Logic.{◌⊎◌, inl, inr}
use mathlib.Core.Bool.{Bool, true, false}
use mathlib.Core.List.{List, [], ◌∷◌, ◌++◌}
use mathlib.Core.Option.{some}
use native.Mathlib.Omega.{arith}
use bitcoin_adaptor.Base.Tests.{Bool-cases, same, if◌then◌else◌}
use bitcoin_adaptor.Base.Lists.{length, In, keep_if}
use bitcoin_adaptor.Base.Map
use bitcoin_adaptor.Base.Set

pub record LinkedHashMap {K : Type 0} (V : Type 0) (dec : Discrete K) : Type 0 where
  -- `entry(k).or_insert_with(|| v)`
  pub or_insert : K → V → List (K × V) → List (K × V)
  pub replace : K → V → List (K × V) → List (K × V)
  pub get-or_insert :
      (j k : K) (v : V) (m : List (K × V))
      → Map.get dec j (or_insert k v m) ≡ (
          if Map.contains_key dec k m
          then Map.get dec j m
          else (if same dec j k then some v else Map.get dec j m))
  pub length-or_insert :
      (k : K) (v : V) (m : List (K × V))
      → length (or_insert k v m) ≡ (if Map.contains_key dec k m then length m else suc (length m))
  pub In-or_insert :
      (e : K × V) (k : K) (v : V) (m : List (K × V))
      → In e (or_insert k v m)
      → In e m ⊎ (e ≡ (k, v))
  pub get-replace :
      (j k : K) (v : V) (m : List (K × V))
      → Map.get dec j (replace k v m) ≡ (if same dec j k then some v else Map.get dec j m)
  -- One entry is written, and the others stay.
  pub count-replace :
      (p : V → Bool) (k : K) (v : V) (m : List (K × V))
      → length (keep_if p (Map.values (replace k v m)))
        ≤ length (keep_if p (Map.values m)) + (if p v then 1 else 0)

pub record LinkedHashSet {K : Type 0} (dec : Discrete K) : Type 0 where
  pub insert : K → List K → List K
  pub insert_absent : (k : K) (s : List K) → Set.contains dec k s ≡ false → insert k s ≡ s ++ k ∷ []
  pub contains-insert :
      (j k : K) (s : List K)
      → Set.contains dec j (insert k s) ≡ (if same dec j k then true else Set.contains dec j s)

-- Sequences that meet the laws.
module _ {K V : Type 0} (dec : Discrete K) where
  abbrev or_insert : K → V → List (K × V) → List (K × V)
  or_insert k v m = if Map.contains_key dec k m then m else Map.insert dec k v m

  pub get-or_insert :
      (j k : K) (v : V) (m : List (K × V))
      → Map.get dec j (or_insert k v m) ≡ (
          if Map.contains_key dec k m
          then Map.get dec j m
          else (if same dec j k then some v else Map.get dec j m))
  get-or_insert j k v m = ground (arith, Map.get-insert dec j k v m)

  pub length-or_insert :
      (k : K) (v : V) (m : List (K × V))
      → length (or_insert k v m) ≡ (if Map.contains_key dec k m then length m else suc (length m))
  length-or_insert k v m = ground (arith, Map.length-insert dec k v m)

  In-insert :
      (e : K × V) (k : K) (v : V) (m : List (K × V))
      → In e (Map.insert dec k v m)
      → In e m ⊎ (e ≡ (k, v))
  In-insert e k v [] (inl q) = inr q
  In-insert e k v [] (inr i) = elim i [ ]
  In-insert e k v ((j, w) ∷ m) i = elim (Bool-cases (same dec k j)) [
    | inl q ↦ elim (rw (Map.insert, q) at i) [ inl r ↦ inr r | inr r ↦ inl (inr r) ]
    | inr q ↦ elim (rw (Map.insert, q) at i) [
      | inl r ↦ inl (inl r)
      | inr r ↦ elim (In-insert e k v m r) [ inl t ↦ inl (inr t) | inr t ↦ inr t ]
    ]
  ]

  pub In-or_insert :
      (e : K × V) (k : K) (v : V) (m : List (K × V))
      → In e (or_insert k v m)
      → In e m ⊎ (e ≡ (k, v))
  In-or_insert e k v m i = elim (Bool-cases (Map.contains_key dec k m)) [
    | inl q ↦ inl (rw (or_insert, q) at i)
    | inr q ↦ In-insert e k v m (rw (or_insert, q) at i)
  ]

  pub count-replace :
      (p : V → Bool) (k : K) (v : V) (m : List (K × V))
      → length (keep_if p (Map.values (Map.insert dec k v m)))
        ≤ length (keep_if p (Map.values m)) + (if p v then 1 else 0)
  count-replace p k v [] = ground arith
  count-replace p k v ((j, w) ∷ m) = ground (arith, count-replace p k v m)

  abbrev pub linked_map : LinkedHashMap V dec
  linked_map = record {
    or_insert = or_insert;
    replace = Map.insert dec;
    get-or_insert = get-or_insert;
    length-or_insert = length-or_insert;
    In-or_insert = In-or_insert;
    get-replace = Map.get-insert dec;
    count-replace = count-replace;
  }

module _ {K : Type 0} (dec : Discrete K) where
  pub insert_absent :
      (k : K) (s : List K) → Set.contains dec k s ≡ false → Set.insert dec k s ≡ s ++ k ∷ []
  insert_absent k [] h = refl
  insert_absent k (j ∷ s) h = ground (arith, insert_absent k s)

  abbrev pub linked_set : LinkedHashSet dec
  linked_set = record {
    insert = Set.insert dec;
    insert_absent = insert_absent;
    contains-insert = Set.contains-insert dec;
  }
