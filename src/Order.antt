-- ===== src/Order.antt =====
-- `std::cmp::Ord` as an interface: a comparison and the laws that the trait asks of it. It orders
-- the keys of every `BTreeMap` and the CRDT versions.
pub mod Text
pub mod Pair
use Prim.Native.Nat.Ordering.{lt, eq, gt}
use Prim.Native.Nat.{compare}
-- `then a b`, `Ordering::then`: the first difference decides.
pub use Prim.Native.String.{then}
use loomabase.Base.{ℕ, ◌≡◌, refl, Bool, true, false, Ordering, arith}

-- `Ordering::reverse`
abbrev pub reverse : Ordering → Ordering
reverse lt = gt
reverse eq = eq
reverse gt = lt

pub record IsTotalOrder {ℓ} {K : Type ℓ} (cmp : K → K → Ordering) : Type ℓ where
  pub flipped : (x y : K) → cmp y x ≡ reverse (cmp x y)
  pub chained : (x y z : K) → cmp x y ≡ lt → cmp y z ≡ lt → cmp x z ≡ lt
  pub identical : (x y : K) → cmp x y ≡ eq → x ≡ y

pub record Ord {ℓ} (K : Type ℓ) : Type ℓ where
  pub cmp : K → K → Ordering
  pub total : IsTotalOrder cmp
  pub open total use {flipped, chained, identical}

module _ {ℓ} {K : Type ℓ} ⦃o : Ord K⦄ (x y : K) where
  pub gt_of_lt : o.cmp x y ≡ lt → o.cmp y x ≡ gt
  gt_of_lt h = ground (arith, o.flipped x y)

  pub lt_of_gt : o.cmp x y ≡ gt → o.cmp y x ≡ lt
  lt_of_gt h = ground (arith, o.flipped x y)

pub cmp_refl {ℓ} : {K : Type ℓ} ⦃o : Ord K⦄ (x : K) → o.cmp x x ≡ eq
cmp_refl ⦃o⦄ x = ground (arith, o.flipped x x)

abbrev pub is_lt : Ordering → Bool
is_lt lt = true
is_lt eq = false
is_lt gt = false

abbrev pub is_eq : Ordering → Bool
is_eq eq = true
is_eq lt = false
is_eq gt = false

pub compare-IsTotalOrder : IsTotalOrder compare
compare-IsTotalOrder = ground arith

instance unfoldable pub nat_ord : Ord ℕ
nat_ord = record { cmp = compare; total = compare-IsTotalOrder }

pub is_eq-eq : (c : Ordering) → is_eq c ≡ true → c ≡ eq
is_eq-eq eq h = refl
is_eq-eq lt h = absurd (ground arith)
is_eq-eq gt h = absurd (ground arith)
