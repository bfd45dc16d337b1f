-- ===== src/Order/Text.antt =====
-- The order of `String`: by code points, which is the order of the UTF-8 bytes.
use Prim.Native.Char.{Char, code}
use Prim.Native.Nat.Ordering.{lt}
use Prim.Native.Nat.{compare as compare_ℕ}
use Prim.Native.String.compare as steps
use Prim.Native.String.{compare, ◌∷◌}
use text.Mathlib.TextEquality.{path_by_compare}
use loomabase.Base.{String, ◌≡◌, arith}
use loomabase.Order.{IsTotalOrder, Ord, then, reverse}

compare_cons :
    (c d : Char) (s t : String)
    → compare (c ∷ s) (d ∷ t) ≡ then (compare_ℕ (code c) (code d)) (compare s t)
compare_cons c d s t = λ i. steps.cons-cons c d s t i

flipped_text : (s t : String) → compare t s ≡ reverse (compare s t)
flipped_text String.[] String.[] = ground arith
flipped_text String.[] (d ∷ t) = ground (arith, steps.nil-cons d t, steps.cons-nil d t)
flipped_text (c ∷ s) String.[] = ground (arith, steps.nil-cons c s, steps.cons-nil c s)
flipped_text (c ∷ s) (d ∷ t) =
    ground (arith, compare_cons c d s t, compare_cons d c t s, flipped_text s t)

chained_text : (s t u : String) → compare s t ≡ lt → compare t u ≡ lt → compare s u ≡ lt
chained_text String.[] t String.[] h k = ground (arith, flipped_text String.[] t)
chained_text String.[] t (e ∷ u) h k = steps.nil-cons e u
chained_text (c ∷ s) String.[] u h k = ground (arith, steps.cons-nil c s)
chained_text (c ∷ s) (d ∷ t) String.[] h k = ground (arith, steps.cons-nil d t)
chained_text (c ∷ s) (d ∷ t) (e ∷ u) h k =
    ground
      (arith, compare_cons c d s t, compare_cons d e t u, compare_cons c e s u, chained_text s t u)

pub text-IsTotalOrder : IsTotalOrder compare
text-IsTotalOrder = record {
  flipped = flipped_text;
  chained = chained_text;
  identical = path_by_compare;
}

instance unfoldable pub text_ord : Ord String
text_ord = record { cmp = compare; total = text-IsTotalOrder }
