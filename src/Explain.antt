-- ===== src/Explain.antt =====
-- src/explain.rs: the explanation of a last-writer-wins decision. `debug_text` is the `{:?}` format
-- of a string, which the standard library of Rust defines.
pub mod Agreement
use Prim.Native.String.{◌++◌ as ◌<>◌}
use loomabase.Base.{String, Bool, Option, none, some, ltb, if◌then◌else◌}
use loomabase.Base.Decimal.{decimal}
use loomabase.Value.{ColumnMetadata, CrdtColumn, value_eq}
use loomabase.Lww.{decide_lww, accept_incoming, keep_current, equal}

pub data ConflictWinner : Type 0 where
  incoming_wins current_wins equal_versions invalid_conflict : ConflictWinner

pub data ConflictReason : Type 0 where
  missing_current_value higher_lamport_clock lower_lamport_clock : ConflictReason
  device_id_tie_break same_version_same_value same_version_different_value : ConflictReason

pub record ConflictExplanation : Type 0 where
  pub winner : ConflictWinner
  pub reason : ConflictReason
  pub current : Option ColumnMetadata
  pub incoming : ColumnMetadata
  pub summary : String

pub record Explained : Type 0 where
  pub winner : ConflictWinner
  pub reason : ConflictReason
  pub summary : String

module _ (debug_text : String → String) where
  -- `format!("… clock {} is … than current clock {}", …)`
  abbrev clock_summary : String → ColumnMetadata → ColumnMetadata → String
  clock_summary relation current incoming =
      "incoming clock "
      <> (decimal incoming.lamport_clock
          <> (" is " <> (relation <> (" than current clock " <> decimal current.lamport_clock))))

  abbrev device_summary : String → ColumnMetadata → ColumnMetadata → String
  device_summary side current incoming =
      "clocks are equal and incoming device ID "
      <> (debug_text incoming.device_id
          <> (" sorts " <> (side <> (" current device ID " <> debug_text current.device_id))))

  -- The `match` with its guards, in their order.
  unfoldable pub explain_decision : CrdtColumn → CrdtColumn → Explained
  unfolding decide_lww
  explain_decision current incoming = elim (decide_lww current.metadata incoming.metadata) [
    | accept_incoming ↦
        if ltb current.metadata.lamport_clock incoming.metadata.lamport_clock
        then record {
          winner = incoming_wins;
          reason = higher_lamport_clock;
          summary = clock_summary "greater" current.metadata incoming.metadata;
        }
        else record {
          winner = incoming_wins;
          reason = device_id_tie_break;
          summary = device_summary "after" current.metadata incoming.metadata;
        }
    | keep_current ↦
        if ltb incoming.metadata.lamport_clock current.metadata.lamport_clock
        then record {
          winner = current_wins;
          reason = lower_lamport_clock;
          summary = clock_summary "lower" current.metadata incoming.metadata;
        }
        else record {
          winner = current_wins;
          reason = device_id_tie_break;
          summary = device_summary "before" current.metadata incoming.metadata;
        }
    | equal ↦
        if value_eq current.value incoming.value
        then record {
          winner = equal_versions;
          reason = same_version_same_value;
          summary = "incoming value is an idempotent replay of the current version";
        }
        else record {
          winner = invalid_conflict;
          reason = same_version_different_value;
          summary = "the same CRDT version identifies two different values";
        }
  ]

  unfoldable pub explain_lww : Option CrdtColumn → CrdtColumn → ConflictExplanation
  unfolding explain_decision
  explain_lww none incoming = record {
    winner = incoming_wins;
    reason = missing_current_value;
    current = none;
    incoming = incoming.metadata;
    summary = "incoming value wins because the cell does not exist";
  }
  explain_lww (some current) incoming = record {
    winner = (explain_decision current incoming).winner;
    reason = (explain_decision current incoming).reason;
    current = some current.metadata;
    incoming = incoming.metadata;
    summary = (explain_decision current incoming).summary;
  }
