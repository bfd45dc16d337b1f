-- ===== src/BTree.antt =====
-- `std::collections::BTreeMap` over keys with an `Ord`: its entries in the order of the keys, which
-- is the order of `iter()`. A map that the code builds or receives is sorted (`IsSorted`).
pub mod Sorted
pub mod Lookup
use Prim.Native.Nat.Ordering.{lt, eq, gt}
use loomabase.Base.{Bool, true, false, List, [], ◌∷◌, Option, none, some}
use loomabase.Order.{Ord}

abbrev pub BTreeMap : Type 0 → Type 0 → Type 0
BTreeMap K V = List (K × V)

module _ {K V : Type 0} ⦃o : Ord K⦄ where
  -- `map.get(&key)`
  unfoldable pub get : K → BTreeMap K V → Option V
  get q [] = none
  get q ((k, v) ∷ m) = elim (o.cmp q k) [ eq ↦ some v | lt ↦ get q m | gt ↦ get q m ]

  -- `map.insert(key, value)`: a present key keeps its place and takes the new value.
  unfoldable pub insert : K → V → BTreeMap K V → BTreeMap K V
  insert q w [] = (q, w) ∷ []
  insert q w ((k, v) ∷ m) = elim (o.cmp q k) [
    | lt ↦ (q, w) ∷ (k, v) ∷ m
    | eq ↦ (q, w) ∷ m
    | gt ↦ (k, v) ∷ insert q w m
  ]

  -- `map.contains_key(&key)`
  unfoldable pub contains_key : K → BTreeMap K V → Bool
  contains_key q m = elim (get q m) [ none ↦ false | some _ ↦ true ]
