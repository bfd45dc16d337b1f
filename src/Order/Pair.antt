-- ===== src/Order/Pair.antt =====
-- Tuples compare lexicographically.
use Prim.Native.Nat.Ordering.{lt, eq}
use loomabase.Base.{◌≡◌, Ordering, arith}
use loomabase.Order.{Ord, IsTotalOrder, then, reverse}

module _ {K V : Type 0} ⦃first : Ord K⦄ ⦃second : Ord V⦄ where
  abbrev pub cmp_pair : K × V → K × V → Ordering
  cmp_pair (k, v) (j, w) = then (first.cmp k j) (second.cmp v w)

  flipped_pair : (x y : K × V) → cmp_pair y x ≡ reverse (cmp_pair x y)
  flipped_pair (k, v) (j, w) = ground (arith, first.flipped k j, second.flipped v w)

  chained_pair : (x y z : K × V) → cmp_pair x y ≡ lt → cmp_pair y z ≡ lt → cmp_pair x z ≡ lt
  chained_pair (k, v) (j, w) (i, u) p q =
      ground
        (arith, first.chained k j i, second.chained v w u, first.identical k j, first.identical j i)

  identical_pair : (x y : K × V) → cmp_pair x y ≡ eq → x ≡ y
  identical_pair (k, v) (j, w) h = ground (arith, first.identical k j, second.identical v w)

  pub cmp_pair-IsTotalOrder : IsTotalOrder cmp_pair
  cmp_pair-IsTotalOrder = record {
    flipped = flipped_pair;
    chained = chained_pair;
    identical = identical_pair;
  }

  instance unfoldable pub pair_ord : Ord (K × V)
  pair_ord = record { cmp = cmp_pair; total = cmp_pair-IsTotalOrder }
