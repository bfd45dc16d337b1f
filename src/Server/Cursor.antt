-- ===== src/Server/Cursor.antt =====
-- The cursor that a response carries: it moves on while there is more, and the server takes it back.
use loomabase.Base.{
  ℕ, ◌≤◌, String, ◌≡◌, refl, sym, ap, subst, ◌⊎◌, inl, inr, true, false, ◌&&◌, Bool-cases, List, [],
  Option, none, some, Option-cases, In, length, ltb, arith,
}
use loomabase.Base.Int.{ℤ, pos, negsuc, int_leb, int_eq, int_max}
use loomabase.BTree.{BTreeMap, get, insert}
use loomabase.BTree.Lookup.{get-insert_self}
use loomabase.Order.Pair.{pair_ord}
use loomabase.Order.Text.{text_ord}
use loomabase.Error.{Result, ok}
use loomabase.Value.{CrdtColumn, SyncPayload, max_storable_lamport}
use loomabase.Policy.{SyncSecurity}
use loomabase.Merge.{CrdtState}
use loomabase.Feed.{Candidate, Page, candidates, to_i64}
use loomabase.Feed.Take.{Filled, last_cursor, fill_page-Filled}
use loomabase.Server.{
  context_of, max_issued, effective_cursor, cursor_valid, empty_page, page_has_more, final_cursor,
  issue_cursor, response_of, merge_inner,
}
use loomabase.Server.Inversion.{Accepted, merge_inner-Accepted, ticked}
use loomabase.Server.Clock.{merge_rows-Frame}
use loomabase.Server.Sequence.{IsSequenced}
use loomabase.Server.Coverage.{
  In-candidates, seq_of_le, taken_In, Last-taken, taken_cases, end_cases,
}
use loomabase.Server.Pages.{start_of, HasRoom, ticked-Sequenced}

int_leb_refl : (a : ℤ) → int_leb a a ≡ true
int_leb_refl (pos a) = ground arith
int_leb_refl (negsuc a) = ground arith

int_leb-max : (a b : ℤ) → int_leb b (int_max a b) ≡ true
int_leb-max (pos a) (pos b) = ground arith
int_leb-max (pos a) (negsuc b) = refl
int_leb-max (negsuc a) (pos b) = ground arith
int_leb-max (negsuc a) (negsuc b) = ground arith

int_eq-pos : (a : ℤ) (n : ℕ) → int_eq a (pos 0) ≡ true → int_leb a (pos n) ≡ true
int_eq-pos (pos a) n e = ground arith
int_eq-pos (negsuc a) n e = refl

max_issued-insert :
    (device : String) (cursor : ℤ) (issued : BTreeMap String ℤ)
    → max_issued (insert device cursor issued) device ≡ cursor
max_issued-insert device cursor issued =
    ap (λ (found : Option ℤ). elim found [ none ↦ pos 0 | some c ↦ c ])
      (get-insert_self device cursor issued)

max_issued-issue_cursor :
    (device : String) (cursor : ℤ) (s : CrdtState)
    → int_leb cursor (max_issued (issue_cursor device cursor s).issued_cursors device) ≡ true
unfolding issue_cursor
max_issued-issue_cursor device cursor s = elim (Option-cases (get device s.issued_cursors)) [
  | inl e ↦ rw (e, max_issued-insert device cursor s.issued_cursors) (int_leb_refl cursor)
  | inr (old, e) ↦
      rw (e, max_issued-insert device (int_max old cursor) s.issued_cursors)
        (int_leb-max old cursor)
]

module _ (s : CrdtState) (inv : IsSequenced s) (bound : s.seq ≤ max_storable_lamport)
    (device : String) (cursor : ℤ) where
  abbrev start : ℤ
  start = effective_cursor s device cursor

  start_le : int_leb start (to_i64 s.seq) ≡ true
  unfolding cursor_valid
  start_le = elim (Bool-cases (int_eq cursor (pos 0))) [
    | inl zero ↦ ground (arith, int_eq-pos cursor)
    | inr other ↦
        elim (Bool-cases
          (int_leb cursor (to_i64 s.seq) && int_leb cursor (max_issued s.issued_cursors device))) [
            | inl valid ↦ ground arith
            | inr invalid ↦ ground arith
          ]
  ]

  module _ (page : Page) (filled : Filled (candidates s start) (empty_page start) page) where
    abbrev end : ℤ
    end = final_cursor s page (candidates s start)

    last_seq_le : (x : Candidate) → In x filled.taken → x.seq ≤ s.seq
    last_seq_le x i =
        let (there, seq, above) =
          In-candidates s inv bound start x (taken_In s inv bound start page filled x i) in
        let le = seq_of_le s inv bound start x.key x.column there in omega (arith, seq)

    last_cursor_cases :
        ((filled.taken ≡ []) × (last_cursor start filled.taken ≡ start))
        ⊎ ((x : Candidate) × In x filled.taken × (last_cursor start filled.taken ≡ to_i64 x.seq))
    last_cursor_cases = elim (taken_cases s inv bound start page filled) [
      | inl e ↦ inl (e, ap (last_cursor start) e)
      | inr (x, i) ↦
          let l = Last-taken s inv bound start page filled x i in
          inr (l.last, l.is_taken, l.is_cursor)
    ]

    end_le : int_leb end (to_i64 s.seq) ≡ true
    end_le = elim (end_cases s inv bound start page filled) [
      | inl all ↦ rw all (int_leb_refl (to_i64 s.seq))
      | inr cut ↦ elim last_cursor_cases [
        | inl (_, e) ↦ rw (cut, e) start_le
        | inr (x, i, e) ↦ let le = last_seq_le x i in rw (cut, e) (ground arith)
      ]
    ]

    end_moves : page_has_more page (candidates s start) ≡ true → int_leb end start ≡ false
    end_moves more = elim last_cursor_cases [
      | inl (empty, e) ↦
          let nothing : candidates s start ≡ [] =
            filled.progress refl (ap (λ (cs : List Candidate). length cs) empty) in
          absurd (no_more (rw nothing at more))
      | inr (x, i, e) ↦
          let (there, seq, above) =
            In-candidates s inv bound start x (taken_In s inv bound start page filled x i) in
          rw (is_last more, e) above
    ]
      where
        no_more : ltb page.included 0 ≡ true → ⊥
        no_more e = ground arith

        is_last :
            page_has_more page (candidates s start) ≡ true → end ≡ last_cursor start filled.taken
        is_last e = ground (arith, filled.cursor)

    issued_valid : effective_cursor (issue_cursor device end s) device end ≡ end
    unfolding cursor_valid issue_cursor
    issued_valid = ground (arith, end_le, max_issued-issue_cursor device end s)

-- The page ends after its start if there is more, at the last number if there is not, and where the
-- next request may start.
pub record PageEnds (start : ℤ) (s : CrdtState) (device : String) (response : SyncPayload)
    : Type 0 where
  pub moves : response.has_more ≡ true → int_leb response.cursor start ≡ false
  pub finishes : response.has_more ≡ false → response.cursor ≡ to_i64 s.seq
  pub resumes : effective_cursor s device response.cursor ≡ response.cursor

module _ (json_len : CrdtColumn → Result ℕ) (payload : SyncPayload) (device : String)
    (security : SyncSecurity) (s s' : CrdtState) (response : SyncPayload) where
  Accepted-ends :
      IsSequenced s
      → HasRoom s payload
      → Accepted json_len payload device security s s' response
      → PageEnds (start_of s s' device payload.cursor) s' device response
  unfolding issue_cursor response_of
  Accepted-ends inv room a =
      let (kept, bound) =
        ticked-Sequenced json_len payload device security s s' response inv room a in
      let w = ticked a.merged a.clock in
      let same =
        (merge_rows-Frame security (context_of s device) payload.changes (s, [])
          (a.merged, a.rejections) a.loop).same_issued in
      let f = fill_page-Filled json_len _ _ a.page a.filled in
      let ends : PageEnds
          (effective_cursor (record w { issued_cursors = w.issued_cursors }) device payload.cursor)
          (issue_cursor device (end w kept bound device payload.cursor a.page f) w) device
          response =
        rw (a.answer) (record {
          moves = end_moves w kept bound device payload.cursor a.page f;
          finishes = λ e. ground arith;
          resumes = issued_valid w kept bound device payload.cursor a.page f;
        }) in
      subst (λ (t : CrdtState). PageEnds (start_of s t device payload.cursor) t device response)
        (sym a.state) (rw (← same) ends)

  -- When an accepted merge starts from a sequenced state with numbers left for the payload: a
  -- response that says there is more has a cursor after the start of its page, one that says there
  -- is not has the last sequence number as cursor, and the server takes the cursor back from the
  -- same device as it is.
  pub merge-PageEnds :
      IsSequenced s
      → HasRoom s payload
      → merge_inner json_len payload device security s ≡ ok (s', response)
      → PageEnds (start_of s s' device payload.cursor) s' device response
  merge-PageEnds inv room h =
      Accepted-ends inv room (merge_inner-Accepted json_len payload device security s s' response h)
