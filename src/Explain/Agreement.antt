-- ===== src/Explain/Agreement.antt =====
-- The explanation says what the merge does with the cell.

use Prim.Native.Nat.Ordering.{eq}
use loomabase.Base.{
  String, ◌≡◌, ◌≢◌, refl, subst, ◌↔◌, ◌<◌, Bool, true, false, Option, none, some, arith,
}
use loomabase.Order.{cmp_refl}
use loomabase.Order.Text.{text_ord}
use loomabase.Error.{Result, ok, err, invalid_payload}
use loomabase.Value.{CrdtColumn}
use loomabase.Lww.{decide_lww}
use loomabase.Merge.{should_apply}
use loomabase.Explain.{
  ConflictWinner, incoming_wins, current_wins, equal_versions, invalid_conflict,
  higher_lamport_clock, lower_lamport_clock, device_id_tie_break, explain_lww,
}

-- What the merge does after each outcome.
abbrev pub outcome : ConflictWinner → Result Bool
outcome incoming_wins = ok true
outcome current_wins = ok false
outcome equal_versions = ok false
outcome invalid_conflict = err (invalid_payload loomabase.Error.same_version_different_value)

module _ (debug_text : String → String) where
  -- The winner of an explanation says what the merge does with the cell: it is applied, kept, or
  -- refused as a conflict of equal versions.
  pub should_apply-explain_lww :
      (current : Option CrdtColumn) (incoming : CrdtColumn)
      → should_apply current incoming ≡ outcome (explain_lww debug_text current incoming).winner
  unfolding should_apply explain_lww
  should_apply-explain_lww none incoming = refl
  should_apply-explain_lww (some current) incoming = ground arith

  -- For a present cell the reason is a higher clock exactly if the incoming clock is higher, a
  -- lower clock exactly if it is lower, and a tie break exactly if the clocks are equal and the
  -- devices differ.
  pub explain_lww-reason :
      (current incoming : CrdtColumn)
      → (((explain_lww debug_text (some current) incoming).reason ≡ higher_lamport_clock)
          ↔ (current.metadata.lamport_clock < incoming.metadata.lamport_clock))
        × (((explain_lww debug_text (some current) incoming).reason ≡ lower_lamport_clock)
            ↔ (incoming.metadata.lamport_clock < current.metadata.lamport_clock))
        × (((explain_lww debug_text (some current) incoming).reason ≡ device_id_tie_break) ↔ (
            (current.metadata.lamport_clock ≡ incoming.metadata.lamport_clock)
            × (current.metadata.device_id ≢ incoming.metadata.device_id)))
  unfolding explain_lww decide_lww text_ord
  explain_lww-reason current incoming = (
    (ground arith, ground arith),
    (ground arith, ground arith),
    (
      ground (
        arith,
        text_ord.identical incoming.metadata.device_id current.metadata.device_id,
        not_self,
      ),
      ground (arith, text_ord.identical incoming.metadata.device_id current.metadata.device_id),
    ),
  )
    where
      not_self :
          current.metadata.device_id ≡ incoming.metadata.device_id
          → text_ord.cmp incoming.metadata.device_id current.metadata.device_id ≡ eq
      not_self e =
          subst (λ (d : String). text_ord.cmp d current.metadata.device_id ≡ eq) e
            (cmp_refl current.metadata.device_id)
