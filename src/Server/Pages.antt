-- ===== src/Server/Pages.antt =====
-- The feed page of an accepted merge, read from its response: which cells it lists, that its cursor
-- moves on, and that the next request may start from it.
use loomabase.Base.{ℕ, ◌+◌, ◌≤◌, String, ◌≡◌, sym, subst, List, [], some, In, length, arith}
use loomabase.Base.Int.{ℤ}
use loomabase.BTree.{BTreeMap, get}
use loomabase.Order.Pair.{pair_ord}
use loomabase.Order.Text.{text_ord}
use loomabase.Error.{Result, ok}
use loomabase.Value.{CrdtColumn, SyncPayload, SyncRejection, max_storable_lamport}
use loomabase.Validate.{Key}
use loomabase.Policy.{SyncSecurity}
use loomabase.Merge.{CrdtState}
use loomabase.Merge.Advance.{entries}
use loomabase.Feed.{Page, candidates, fill_page, seq_of}
use loomabase.Feed.Take.{fill_page-Filled}
use loomabase.Server.{
  context_of, effective_cursor, empty_page, final_cursor, issue_cursor, response_of, merge_inner,
}
use loomabase.Server.Inversion.{Accepted, merge_inner-Accepted, ticked}
use loomabase.Server.Clock.{merge_rows-Frame}
use loomabase.Server.Sequence.{IsSequenced, merge_rows-Sequenced}
use loomabase.Server.Coverage.{IsBetween, listed-IsBetween, IsBetween-listed}

-- The cursor that the page starts from: the requested one if the server issued it, otherwise zero.
abbrev pub start_of : CrdtState → CrdtState → String → ℤ → ℤ
start_of s s' device cursor =
    effective_cursor (record s' { issued_cursors = s.issued_cursors }) device cursor

-- The loop has sequence numbers left for every cell of the payload.
abbrev pub HasRoom : CrdtState → SyncPayload → Type 0
HasRoom s payload = s.seq + length (entries payload.changes) ≤ max_storable_lamport

-- What a page lists, with the cursors it is between.
abbrev pub ListsExactly : ℤ → CrdtState → SyncPayload → Type 0
ListsExactly start s response =
    (k : Key) (c : CrdtColumn)
    → (In (k, c) (entries response.changes)
        → (get k s.cells ≡ some c) × IsBetween start (seq_of s.cell_seq k) response.cursor)
      × (get k s.cells ≡ some c
          → IsBetween start (seq_of s.cell_seq k) response.cursor
          → In (k, c) (entries response.changes))

module _ (json_len : CrdtColumn → Result ℕ) (w : CrdtState) (inv : IsSequenced w)
    (bound : w.seq ≤ max_storable_lamport) (device : String) (payload : SyncPayload)
    (rejections : List SyncRejection) (page : Page) where
  abbrev start : ℤ
  start = effective_cursor w device payload.cursor

  module _ (filled : fill_page json_len (candidates w start) (empty_page start) ≡ ok page) where
    respond_exact :
        (issued : BTreeMap String ℤ)
        → w.issued_cursors ≡ issued
        → ListsExactly
            (effective_cursor (record w { issued_cursors = issued }) device payload.cursor)
            (issue_cursor device (final_cursor w page (candidates w start)) w)
            (response_of w device payload rejections page (candidates w start))
    unfolding issue_cursor response_of
    respond_exact issued same k c =
        let f = fill_page-Filled json_len (candidates w start) (empty_page start) page filled in
        rw (← same) (
          listed-IsBetween w inv bound start page f k c,
          λ e b. IsBetween-listed w inv bound start page f k c e b,
        )

module _ (json_len : CrdtColumn → Result ℕ) (payload : SyncPayload) (device : String)
    (security : SyncSecurity) (s s' : CrdtState) (response : SyncPayload) where
  module _ (inv : IsSequenced s) (room : HasRoom s payload)
      (accepted : Accepted json_len payload device security s s' response) where
    pub ticked-Sequenced :
        IsSequenced (ticked accepted.merged accepted.clock)
        × (accepted.merged.seq ≤ max_storable_lamport)
    ticked-Sequenced =
        let (kept, le) =
          merge_rows-Sequenced security (context_of s device) payload.changes (s, [])
            (accepted.merged, accepted.rejections) room inv accepted.loop in
        (
          record {
            sorted = kept.sorted;
            numbered = kept.numbered;
            bounded = kept.bounded;
            distinct = kept.distinct;
          },
          omega arith,
        )

    accepted_exact : ListsExactly (start_of s s' device payload.cursor) s' response
    unfolding issue_cursor
    accepted_exact =
        let (kept, bound) = ticked-Sequenced in
        let same =
          (merge_rows-Frame security (context_of s device) payload.changes (s, [])
            (accepted.merged, accepted.rejections) accepted.loop).same_issued in
        subst (λ (t : CrdtState). ListsExactly (start_of s t device payload.cursor) t response)
          (sym accepted.state)
          (rw (accepted.answer) (
            respond_exact json_len (ticked accepted.merged accepted.clock) kept bound device payload
              accepted.rejections accepted.page accepted.filled s.issued_cursors same))

  -- An accepted merge with numbers left for the payload keeps a state sequenced: the cells are in
  -- key order, every cell has a sequence number, all numbers are positive and at most the counter,
  -- and no two cells share one.
  pub merge-IsSequenced :
      IsSequenced s
      → HasRoom s payload
      → merge_inner json_len payload device security s ≡ ok (s', response)
      → IsSequenced s'
  unfolding issue_cursor
  merge-IsSequenced inv room h =
      let a = merge_inner-Accepted json_len payload device security s s' response h in
      let kept = (ticked-Sequenced inv room a).0 in
      rw (a.state) (record {
        sorted = kept.sorted;
        numbered = kept.numbered;
        bounded = kept.bounded;
        distinct = kept.distinct;
      })

  -- When an accepted merge starts from a sequenced state with numbers left for the payload, its
  -- response lists a cell exactly if the state after it holds that cell with a sequence number
  -- above the cursor that the page starts from and not above the cursor of the response.
  pub merge_page_exact :
      IsSequenced s
      → HasRoom s payload
      → merge_inner json_len payload device security s ≡ ok (s', response)
      → ListsExactly (start_of s s' device payload.cursor) s' response
  merge_page_exact inv room h =
      accepted_exact inv room
        (merge_inner-Accepted json_len payload device security s s' response h)
