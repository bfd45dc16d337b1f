-- ===== src/Lww/Laws.antt =====
-- The order of versions is total.
use Prim.Native.String.{compare as compare_text}
use loomabase.Base.{◌<◌, ◌↔◌, ℕ, String, ◌≡◌, ◌≢◌, ◌⊎◌, inl, inr, Ordering-cases, arith}
use loomabase.Order.{IsTotalOrder, Ord, nat_ord, cmp_refl, lt_of_gt, gt_of_lt}
use loomabase.Order.Text.{text_ord, text-IsTotalOrder}
use loomabase.Order.Pair.{cmp_pair, cmp_pair-IsTotalOrder}
use loomabase.Value.{ColumnMetadata}
use loomabase.Lww.{cmp_metadata, accept_incoming, keep_current, equal, decide_lww}
use Prim.Native.Nat.Ordering.{lt, gt}

pairs : IsTotalOrder {K = ℕ × String} cmp_pair
pairs = cmp_pair-IsTotalOrder

-- Versions compare as pairs of a clock and a device.
abbrev as_pair : ColumnMetadata → ℕ × String
as_pair m = (m.lamport_clock, m.device_id)

pub metadata-IsTotalOrder : IsTotalOrder cmp_metadata
unfolding cmp_metadata nat_ord text_ord
metadata-IsTotalOrder = record {
  flipped = λ x y. pairs.flipped (as_pair x) (as_pair y);
  chained = λ x y z. pairs.chained (as_pair x) (as_pair y) (as_pair z);
  identical = λ x y h.
      let e = pairs.identical (as_pair x) (as_pair y) h in
      λ i. record { lamport_clock = (e i).0; device_id = (e i).1 };
}

instance abbrev pub metadata_ord : Ord ColumnMetadata
metadata_ord = record { cmp = cmp_metadata; total = metadata-IsTotalOrder }

-- `a` is at most `b`, as versions.
infix 50 ◌⊑◌
abbrev pub ◌⊑◌ : ColumnMetadata → ColumnMetadata → Type 0
a ⊑ b = cmp_metadata a b ≢ gt

module _ (a b : ColumnMetadata) where
  pub decide_lww-accept : decide_lww a b ≡ accept_incoming → cmp_metadata a b ≡ lt
  unfolding decide_lww
  decide_lww-accept h = ground (arith, lt_of_gt b a)

  pub decide_lww-keep : decide_lww a b ≡ keep_current → cmp_metadata b a ≡ lt
  unfolding decide_lww
  decide_lww-keep h = ground arith

  pub decide_lww-equal : decide_lww a b ≡ equal → a ≡ b
  unfolding decide_lww
  decide_lww-equal h = ground (arith, metadata_ord.identical b a)

pub ⊑_refl : (a : ColumnMetadata) → a ⊑ a
⊑_refl a h = ground (arith, cmp_refl a)

pub ⊑_of_lt : (a b : ColumnMetadata) → cmp_metadata a b ≡ lt → a ⊑ b
⊑_of_lt a b h = ground arith

lt_or_eq : (a b : ColumnMetadata) → a ⊑ b → (cmp_metadata a b ≡ lt) ⊎ (a ≡ b)
lt_or_eq a b h = elim (Ordering-cases (cmp_metadata a b)) [
  | inl less ↦ inl less
  | inr (inl same) ↦ inr (metadata_ord.identical a b same)
  | inr (inr more) ↦ absurd (h more)
]

pub ⊑_trans : (a b c : ColumnMetadata) → a ⊑ b → b ⊑ c → a ⊑ c
⊑_trans a b c p q = elim (lt_or_eq a b p) [
  | inr e ↦ rw e q
  | inl l ↦ elim (lt_or_eq b c q) [
    | inr e ↦ rw (← e) p
    | inl m ↦ ⊑_of_lt a c (metadata_ord.chained a b c l m)
  ]
]

pub ⊑_antisymm : (a b : ColumnMetadata) → a ⊑ b → b ⊑ a → a ≡ b
⊑_antisymm a b p q = elim (lt_or_eq a b p) [ inr e ↦ e | inl l ↦ absurd (q (gt_of_lt a b l)) ]

-- The decision accepts exactly a higher clock, or an equal clock from a later device; it keeps
-- exactly where the reverse decision accepts; and it finds versions equal exactly when they are.
pub decide_lww_lem :
    (a b : ColumnMetadata)
    → ((decide_lww a b ≡ accept_incoming) ↔ (
        (a.lamport_clock < b.lamport_clock)
        ⊎ ((a.lamport_clock ≡ b.lamport_clock) × (compare_text a.device_id b.device_id ≡ lt))))
      × ((decide_lww a b ≡ keep_current) ↔ (decide_lww b a ≡ accept_incoming))
      × ((decide_lww a b ≡ equal) ↔ (a ≡ b))
unfolding decide_lww text_ord
decide_lww_lem a b = (
  (
    ground (arith, text-IsTotalOrder.flipped a.device_id b.device_id),
    ground (arith, text-IsTotalOrder.flipped a.device_id b.device_id),
  ),
  (
    ground (arith, text-IsTotalOrder.flipped a.device_id b.device_id),
    ground (arith, text-IsTotalOrder.flipped a.device_id b.device_id),
  ),
  (
    ground (arith, metadata-IsTotalOrder.identical b a),
    ground (arith, text-IsTotalOrder.flipped a.device_id a.device_id),
  ),
)
