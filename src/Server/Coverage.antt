-- ===== src/Server/Coverage.antt =====
-- What a feed page covers: the cells between the cursor it starts from and the cursor it ends at.
use loomabase.Base.{
  ℕ, ◌≤◌, ◌<◌, String, ◌≡◌, refl, sym, ap, subst, ◌∙◌, ◌⊎◌, inl, inr, true, List, [], ◌∷◌, ◌++◌,
  some, In, In-append_left, In-append_right, In-append_cases, length, length-append, arith,
}
use loomabase.Base.Int.{ℤ, int_leb}
use loomabase.BTree.{BTreeMap, get}
use loomabase.BTree.Lookup.{get-In}
use loomabase.BTree.Sorted.{get_of_In}
use loomabase.Order.Pair.{pair_ord}
use loomabase.Order.Text.{text_ord}
use loomabase.Value.{CrdtColumn, max_storable_lamport}
use loomabase.Validate.{Key}
use loomabase.Merge.{CrdtState}
use loomabase.Merge.Advance.{entries}
use loomabase.Feed.{Candidate, Page, to_i64, seq_of, above_cursor, candidates, to_changes}
use loomabase.Feed.Sort.{
  Ascending, candidate_at, IsAbove, In-sort_by_seq, sort_by_seq-In, sort_by_seq-Ascending,
  In-above_cursor, above_cursor-In,
}
use loomabase.Feed.Rows.{AreSorted, cell_at, cell_at_of_In, In-of_cell_at}
use loomabase.Feed.Take.{add_all, last_cursor, Filled}
use loomabase.Feed.Collect.{Agree, add_all-AreSorted, add_all_source, add_all-In}
use loomabase.Feed.Last.{Last, Ascending-Last}
use loomabase.Server.{empty_page, final_cursor}
use loomabase.Server.Sequence.{IsSequenced}

-- Above the first cursor, and not above the second.
abbrev pub IsBetween : ℤ → ℕ → ℤ → Type 0
IsBetween start seq end = IsAbove start seq × (int_leb (to_i64 seq) end ≡ true)

module _ (s : CrdtState) (inv : IsSequenced s) (room : s.seq ≤ max_storable_lamport)
    (start : ℤ) where
  pub In-candidates :
      (x : Candidate)
      → In x (candidates s start)
      → (get x.key s.cells ≡ some x.column)
        × (x.seq ≡ seq_of s.cell_seq x.key)
        × IsAbove start x.seq
  unfolding candidates
  In-candidates x i =
      let (j, e, a) = In-above_cursor s.cell_seq start s.cells x (In-sort_by_seq x _ i) in
      (get_of_In x.key x.column s.cells inv.sorted j, e, a)

  candidates-In :
      (k : Key) (c : CrdtColumn)
      → get k s.cells ≡ some c
      → IsAbove start (seq_of s.cell_seq k)
      → In (candidate_at s.cell_seq k c) (candidates s start)
  unfolding candidates
  candidates-In k c e a =
      sort_by_seq-In (candidate_at s.cell_seq k c) _
        (above_cursor-In s.cell_seq start s.cells k c (get-In k c s.cells e) a)

  -- The numbers of the cells are within the counter, and no two cells share one.
  pub seq_of_le : (k : Key) (c : CrdtColumn) → get k s.cells ≡ some c → seq_of s.cell_seq k ≤ s.seq
  seq_of_le k c e = let (n, f) = inv.numbered k c e in ground (arith, inv.bounded k n f)

  seq_of-distinct :
      (k j : Key) (c d : CrdtColumn)
      → get k s.cells ≡ some c
      → get j s.cells ≡ some d
      → seq_of s.cell_seq k ≡ seq_of s.cell_seq j
      → k ≡ j
  seq_of-distinct k j c d e f same =
      let (n, p) = inv.numbered k c e in
      let (m, q) = inv.numbered j d f in inv.distinct k j n p (ground arith)

  module _ (page : Page) (filled : Filled (candidates s start) (empty_page start) page) where
    pub taken_In : (x : Candidate) → In x filled.taken → In x (candidates s start)
    taken_In x i =
        subst (λ (cs : List Candidate). In x cs) (sym filled.split)
          (In-append_left x filled.taken filled.rest i)

    rows_of : page.response_rows ≡ add_all filled.taken []
    rows_of = filled.rows

    rows-AreSorted : AreSorted page.response_rows
    unfolding get
    rows-AreSorted = subst AreSorted (sym rows_of) (
        add_all-AreSorted filled.taken []
          (record { outside = tt; inside = λ t columns e. absurd (absent t columns e) }))
      where
        absent : (t : String) (columns : BTreeMap String CrdtColumn) → get t [] ≡ some columns → ⊥
        absent t columns e = ground arith

    -- What the page lists was taken.
    listed_taken :
        (k : Key) (c : CrdtColumn)
        → In (k, c) (entries (to_changes page.response_rows))
        → (x : Candidate) × In x filled.taken × (x.key ≡ k) × (x.column ≡ c)
    unfolding get
    listed_taken k c i =
        let found : cell_at k (add_all filled.taken []) ≡ some c =
          ap (cell_at k) (sym rows_of) ∙ cell_at_of_In k c page.response_rows rows-AreSorted i in
        elim (add_all_source filled.taken [] k c found) [ inl t ↦ t | inr e ↦ absurd (absent e) ]
      where
        absent : cell_at k [] ≡ some c → ⊥
        absent e = ground arith

    agree :
        (cs : List Candidate)
        → ((x : Candidate) → In x cs → In x filled.taken)
        → Agree (λ k. get k s.cells) cs
    agree [] i = tt
    agree (x ∷ cs) i =
        ((In-candidates x (taken_In x (i x (inl refl)))).0, agree cs (λ y j. i y (inr j)))

    -- What was taken is listed.
    taken_listed :
        (x : Candidate)
        → In x filled.taken
        → In (x.key, x.column) (entries (to_changes page.response_rows))
    taken_listed x i = In-of_cell_at x.key x.column page.response_rows (
        ap (cell_at x.key) rows_of
        ∙ add_all-In (λ k. get k s.cells) filled.taken [] x (agree filled.taken (λ y j. j)) i)

    ordered : Ascending (filled.taken ++ filled.rest)
    unfolding candidates
    ordered =
        subst Ascending filled.split (sort_by_seq-Ascending (above_cursor s.cell_seq start s.cells))

    end_of_rest :
        (r : Candidate)
        → In r filled.rest
        → final_cursor s page (candidates s start) ≡ last_cursor start filled.taken
    end_of_rest r i =
        let sizes = length-append filled.taken filled.rest in
        let more = positive r filled.rest i in
        let total = ap (λ (cs : List Candidate). length cs) filled.split in
        ground (arith, filled.cursor, filled.count)
      where
        positive : (r : Candidate) (rest : List Candidate) → In r rest → 0 < length rest
        positive r [] i = absurd i
        positive r (x ∷ rest) i = omega arith

    -- The last candidate of the page, when the page has one.
    pub Last-taken : (x : Candidate) → In x filled.taken → Last start filled.taken filled.rest
    Last-taken x i = split filled.taken i ordered
      where
        split :
            (taken : List Candidate)
            → In x taken
            → Ascending (taken ++ filled.rest)
            → Last start taken filled.rest
        split [] i a = absurd i
        split (c ∷ taken) i a = Ascending-Last start c taken filled.rest a

    abbrev end : ℤ
    end = final_cursor s page (candidates s start)

    pub end_cases : (end ≡ to_i64 s.seq) ⊎ (end ≡ last_cursor start filled.taken)
    end_cases = ground (arith, filled.cursor)

    pub listed-IsBetween :
        (k : Key) (c : CrdtColumn)
        → In (k, c) (entries (to_changes page.response_rows))
        → (get k s.cells ≡ some c) × IsBetween start (seq_of s.cell_seq k) end
    listed-IsBetween k c i =
        let (x, j, e, f) = listed_taken k c i in
        let (there, seq, above) = In-candidates x (taken_In x j) in
        let here : get k s.cells ≡ some c =
          ap (λ (q : Key). get q s.cells) (sym e) ∙ there ∙ ap some f in
        let number : x.seq ≡ seq_of s.cell_seq k = seq ∙ ap (seq_of s.cell_seq) e in
        let bound = seq_of_le k c here in
        let l = Last-taken x j in
        let le = l.above x j in
        let is_cursor = l.is_cursor in
        (
          here,
          (
            subst (λ (n : ℕ). IsAbove start n) number above,
            elim end_cases [
              | inl all ↦ rw all (ground arith)
              | inr cut ↦ rw (cut, is_cursor) (ground arith)
            ],
          ),
        )

    pub taken_cases : (filled.taken ≡ []) ⊎ ((x : Candidate) × In x filled.taken)
    taken_cases = split filled.taken
      where
        split : (taken : List Candidate) → (taken ≡ []) ⊎ ((x : Candidate) × In x taken)
        split [] = inl refl
        split (c ∷ taken) = inr (c, inl refl)

    -- A candidate that the next page starts with is above the cursor.
    rest-above :
        (k : Key) (c : CrdtColumn)
        → get k s.cells ≡ some c
        → In (candidate_at s.cell_seq k c) filled.rest
        → int_leb (to_i64 (seq_of s.cell_seq k)) end ≡ true
        → In (k, c) (entries (to_changes page.response_rows))
    rest-above k c e i within = elim taken_cases [
      | inl nothing ↦
          let empty : candidates s start ≡ [] =
            filled.progress refl (ap (λ (cs : List Candidate). length cs) nothing) in
          let all : [] ≡ filled.taken ++ filled.rest = sym empty ∙ filled.split in
          absurd (
            subst (λ (cs : List Candidate). In (candidate_at s.cell_seq k c) cs) (sym all)
              (In-append_right (candidate_at s.cell_seq k c) filled.taken filled.rest i))
      | inr (x, j) ↦
          let l = Last-taken x j in
          let le = l.below (candidate_at s.cell_seq k c) i in
          let (there, seq, above) = In-candidates l.last (taken_In l.last l.is_taken) in
          let is_end : end ≡ to_i64 l.last.seq =
            end_of_rest (candidate_at s.cell_seq k c) i ∙ l.is_cursor in
          let within' : int_leb (to_i64 (seq_of s.cell_seq k)) (to_i64 l.last.seq) ≡ true =
            rw is_end at within in
          let bound = seq_of_le k c e in
          let bound' = seq_of_le l.last.key l.last.column there in
          let same : seq_of s.cell_seq k ≡ seq_of s.cell_seq l.last.key = ground arith in
          let is_key = seq_of-distinct k l.last.key c l.last.column e there same in
          let both : some c ≡ some l.last.column =
            sym e ∙ ap (λ (q : Key). get q s.cells) is_key ∙ there in
          let is_cell : c ≡ l.last.column = ground arith in
          subst (λ (q : Key × CrdtColumn). In q (entries (to_changes page.response_rows)))
            (λ t. (sym is_key t, sym is_cell t)) (taken_listed l.last l.is_taken)
    ]

    pub IsBetween-listed :
        (k : Key) (c : CrdtColumn)
        → get k s.cells ≡ some c
        → IsBetween start (seq_of s.cell_seq k) end
        → In (k, c) (entries (to_changes page.response_rows))
    IsBetween-listed k c e (above, within) =
        let i =
          subst (λ (cs : List Candidate). In (candidate_at s.cell_seq k c) cs) filled.split
            (candidates-In k c e above) in
        elim (In-append_cases (candidate_at s.cell_seq k c) filled.taken filled.rest i) [
          | inl taken ↦ taken_listed (candidate_at s.cell_seq k c) taken
          | inr left ↦ rest-above k c e left within
        ]
