-- ===== src/Lww.antt =====
-- The last-writer-wins decision (src/crdt.rs, `decide_lww`) on the order of `ColumnMetadata`.
pub mod Laws
use Prim.Native.Nat.Ordering.{lt, eq, gt}
use Prim.Native.Nat.{compare}
use Prim.Native.String.{compare as compare_text}
use loomabase.Base.{Ordering}
use loomabase.Order.{then}
use loomabase.Value.{ColumnMetadata}

-- The derived `Ord`: the fields in the order of their declaration.
unfoldable pub cmp_metadata : ColumnMetadata → ColumnMetadata → Ordering
cmp_metadata a b =
    then (compare a.lamport_clock b.lamport_clock) (compare_text a.device_id b.device_id)

pub data MergeDecision : Type 0 where
  accept_incoming keep_current equal : MergeDecision

unfoldable pub decide_lww : ColumnMetadata → ColumnMetadata → MergeDecision
unfolding cmp_metadata
decide_lww current incoming = elim (cmp_metadata incoming current) [
  | gt ↦ accept_incoming
  | lt ↦ keep_current
  | eq ↦ equal
]
