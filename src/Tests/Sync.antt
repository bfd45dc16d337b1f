-- ===== src/Tests/Sync.antt =====
-- The reference server on the fixtures.
use loomabase.BTree.Sorted.{IsSorted}
use loomabase.BTree.{get, insert, contains_key}
use loomabase.Order.Text.{text_ord}
use loomabase.Order.Pair.{pair_ord}
use loomabase.Schema.{fingerprint, column_type}
use loomabase.Validate.{validate_client_request, max_observed_clock}
use loomabase.Validate.Cell.{
  validate_column, validate_identifier, has_control, validate_clock, validate_clock_advance,
}
use loomabase.Merge.{merge_rows, merge_columns, merge_cell, apply_cell}
use loomabase.Feed.{candidates, fill_page, to_changes}
use loomabase.Server.{merge_with_security, merge_inner, next_clock, respond, cursor_valid}
use loomabase.Base.{◌≡◌, refl, ap, sym, ◌∙◌, ◌⊎◌, inl, inr, In, List, [], ◌∷◌, arith}
use loomabase.Schema.{todos_table}
use loomabase.Value.{CrdtColumn, ColumnMetadata, value_eq}
use loomabase.Validate.{Key}
use loomabase.Merge.{new}
use loomabase.Server.{merge}
use loomabase.Server.Convergence.{
  Delivery, IsConsistent, SameEntries, deliver_all, accepted_entries, deliver_all_converges,
}
use loomabase.Tests.Fixtures.{forty, title_by, retitle}

abbrev there_and_back : List Delivery
there_and_back = (retitle "a" 1 "t" "x", "a") ∷ (retitle "b" 2 "t" "y", "b") ∷ []

abbrev back_first : List Delivery
back_first =
    (retitle "b" 2 "t" "y", "b") ∷ (retitle "a" 1 "t" "x", "a") ∷ (retitle "b" 2 "t" "y", "b") ∷ []

abbrev first_cell : Key × CrdtColumn
first_cell = (("t", "title"), title_by "a" 1 "x")

abbrev second_cell : Key × CrdtColumn
second_cell = (("t", "title"), title_by "b" 2 "y")

first_entries :
    accepted_entries forty there_and_back (new todos_table) ≡ first_cell ∷ second_cell ∷ []
unfolding accepted_entries new merge merge_with_security merge_inner validate_client_request
    validate_column validate_identifier has_control validate_clock validate_clock_advance
    fingerprint column_type max_observed_clock merge_rows merge_columns merge_cell apply_cell
    next_clock respond candidates fill_page to_changes cursor_valid get insert contains_key text_ord
    pair_ord
first_entries = refl

repeated_entries :
    accepted_entries forty back_first (new todos_table)
    ≡ second_cell ∷ first_cell ∷ second_cell ∷ []
unfolding accepted_entries new merge merge_with_security merge_inner validate_client_request
    validate_column validate_identifier has_control validate_clock validate_clock_advance
    fingerprint column_type max_observed_clock merge_rows merge_columns merge_cell apply_cell
    next_clock respond candidates fill_page to_changes cursor_valid get insert contains_key text_ord
    pair_ord value_eq
repeated_entries = refl

In-pair :
    (k : Key) (c : CrdtColumn)
    → In (k, c) (first_cell ∷ second_cell ∷ [])
    → (c ≡ first_cell.1) ⊎ (c ≡ second_cell.1)
In-pair k c (inl e) = inl (ap (λ (x : Key × CrdtColumn). x.1) e)
In-pair k c (inr (inl e)) = inr (ap (λ (x : Key × CrdtColumn). x.1) e)
In-pair k c (inr (inr i)) = absurd i

pair-IsConsistent : IsConsistent [] (first_cell ∷ second_cell ∷ [])
unfolding get
pair-IsConsistent k c d (inl e) y same = ground arith
pair-IsConsistent k c d (inr i) (inl f) same = ground arith
pair-IsConsistent k c d (inr i) (inr j) same =
    let clocks : c.metadata.lamport_clock ≡ d.metadata.lamport_clock =
      ap (λ (m : ColumnMetadata). m.lamport_clock) same in
    elim (In-pair k c i) [
      | inl x ↦ elim (In-pair k d j) [ inl y ↦ x ∙ sym y | inr y ↦ absurd (clash_of x y clocks) ]
      | inr x ↦ elim (In-pair k d j) [
        | inl y ↦ absurd (clash_of y x (sym clocks))
        | inr y ↦ x ∙ sym y
      ]
    ]
  where
    clash_of :
        {c d : CrdtColumn}
        → c ≡ first_cell.1
        → d ≡ second_cell.1
        → c.metadata.lamport_clock ≡ d.metadata.lamport_clock
        → ⊥
    clash_of p q e = omega (
      arith,
      ap (λ (x : CrdtColumn). x.metadata.lamport_clock) p,
      ap (λ (x : CrdtColumn). x.metadata.lamport_clock) q,
    )

there_and_back-IsConsistent :
    IsConsistent (new todos_table).cells (accepted_entries forty there_and_back (new todos_table))
unfolding new
there_and_back-IsConsistent = rw first_entries pair-IsConsistent

swapped : SameEntries (first_cell ∷ second_cell ∷ []) (second_cell ∷ first_cell ∷ second_cell ∷ [])
swapped e = (there, back)
  where
    there :
        In e (first_cell ∷ second_cell ∷ []) → In e (second_cell ∷ first_cell ∷ second_cell ∷ [])
    there (inl p) = inr (inl p)
    there (inr (inl p)) = inl p
    there (inr (inr p)) = absurd p

    back : In e (second_cell ∷ first_cell ∷ second_cell ∷ []) → In e (first_cell ∷ second_cell ∷ [])
    back (inl p) = inr (inl p)
    back (inr (inl p)) = inl p
    back (inr (inr (inl p))) = inr (inl p)
    back (inr (inr (inr p))) = absurd p

same_deliveries :
    SameEntries
      (accepted_entries forty there_and_back (new todos_table))
      (accepted_entries forty back_first (new todos_table))
same_deliveries = rw (first_entries, repeated_entries) swapped

empty-IsSorted : IsSorted (new todos_table).cells
unfolding new
empty-IsSorted = tt

deliver_all_converges_example :
    (deliver_all forty there_and_back (new todos_table)).cells
    ≡ (deliver_all forty back_first (new todos_table)).cells
deliver_all_converges_example =
    deliver_all_converges forty there_and_back back_first (new todos_table) empty-IsSorted
      there_and_back-IsConsistent same_deliveries
