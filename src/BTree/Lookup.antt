-- ===== src/BTree/Lookup.antt =====
-- `get` after `insert`, and what `get` finds. None of these needs a sorted map.

use loomabase.Base.{◌≡◌, ◌≢◌, [], ◌∷◌, some, In, arith, if◌then◌else◌}
use loomabase.Order.{Ord, is_eq, cmp_refl}
use loomabase.BTree.{BTreeMap, get, insert}

module _ {K V : Type 0} ⦃o : Ord K⦄ where
  pub get-insert :
      (q k : K) (v : V) (m : BTreeMap K V)
      → get q (insert k v m) ≡ (if is_eq (o.cmp q k) then some v else get q m)
  unfolding get insert
  get-insert q k v [] = ground arith
  get-insert q k v ((j, w) ∷ m) =
      ground (arith, get-insert q k v m, o.identical k j, o.identical q k)

  pub get-insert_self : (k : K) (v : V) (m : BTreeMap K V) → get k (insert k v m) ≡ some v
  get-insert_self k v m = ground (arith, get-insert k k v m, cmp_refl k)

  pub get-In : (k : K) (v : V) (m : BTreeMap K V) → get k m ≡ some v → In (k, v) m
  unfolding get
  get-In k v [] h = ground arith
  get-In k v ((j, w) ∷ m) h = ground (arith, get-In k v m, o.identical k j)

  pub get-insert_other :
      (q k : K) (v : V) (m : BTreeMap K V) → q ≢ k → get q (insert k v m) ≡ get q m
  get-insert_other q k v m other = ground (arith, get-insert q k v m, o.identical q k)
