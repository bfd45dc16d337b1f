-- ===== src/Feed/Sort.antt =====
-- The candidates are the cells above the cursor, in the order of their sequence numbers.
use loomabase.Base.{
  ℕ, ◌≤◌, ◌≡◌, refl, sym, subst, ◌⊎◌, inl, inr, false, Bool-cases, List, [], ◌∷◌, In, All, leb,
  leb→le, arith,
}
use loomabase.Base.Int.{ℤ, int_leb}
use loomabase.BTree.{BTreeMap}
use loomabase.Value.{CrdtColumn}
use loomabase.Validate.{Key}
use loomabase.Feed.{Candidate, to_i64, seq_of, above_cursor, insert_by_seq, sort_by_seq}

abbrev pub candidate_at : BTreeMap Key ℕ → Key → CrdtColumn → Candidate
candidate_at cell_seq key column = record { seq = seq_of cell_seq key; key = key; column = column }

-- Above the cursor: what the filter tests.
abbrev pub IsAbove : ℤ → ℕ → Type 0
IsAbove cursor seq = int_leb (to_i64 seq) cursor ≡ false

In-insert_by_seq :
    (x c : Candidate) (cs : List Candidate) → In x (insert_by_seq c cs) → (x ≡ c) ⊎ In x cs
unfolding insert_by_seq
In-insert_by_seq x c [] i = i
In-insert_by_seq x c (d ∷ ds) i = elim (Bool-cases (leb c.seq d.seq)) [
  | inl first ↦ rw first at i
  | inr later ↦
      let j : In x (d ∷ insert_by_seq c ds) = rw later at i in
      elim j [
        | inl e ↦ inr (inl e)
        | inr r ↦ elim (In-insert_by_seq x c ds r) [ inl e ↦ inl e | inr k ↦ inr (inr k) ]
      ]
]

insert_by_seq-In :
    (x c : Candidate) (cs : List Candidate) → (x ≡ c) ⊎ In x cs → In x (insert_by_seq c cs)
unfolding insert_by_seq
insert_by_seq-In x c [] i = i
insert_by_seq-In x c (d ∷ ds) i = elim (Bool-cases (leb c.seq d.seq)) [
  | inl first ↦ rw first i
  | inr later ↦ rw later (elim i [
    | inl e ↦ inr (insert_by_seq-In x c ds (inl e))
    | inr (inl e) ↦ inl e
    | inr (inr r) ↦ inr (insert_by_seq-In x c ds (inr r))
  ])
]

-- Sorting keeps the elements.
pub In-sort_by_seq : (x : Candidate) (cs : List Candidate) → In x (sort_by_seq cs) → In x cs
unfolding sort_by_seq
In-sort_by_seq x [] i = i
In-sort_by_seq x (c ∷ cs) i = elim (In-insert_by_seq x c (sort_by_seq cs) i) [
  | inl e ↦ inl e
  | inr j ↦ inr (In-sort_by_seq x cs j)
]

pub sort_by_seq-In : (x : Candidate) (cs : List Candidate) → In x cs → In x (sort_by_seq cs)
unfolding sort_by_seq
sort_by_seq-In x [] i = i
sort_by_seq-In x (c ∷ cs) (inl e) = insert_by_seq-In x c (sort_by_seq cs) (inl e)
sort_by_seq-In x (c ∷ cs) (inr i) =
    insert_by_seq-In x c (sort_by_seq cs) (inr (sort_by_seq-In x cs i))

-- The sequence numbers do not fall.
abbrev pub Ascending : List Candidate → Type 0
Ascending [] = Unit
Ascending (c ∷ cs) = All (λ (d : Candidate). c.seq ≤ d.seq) cs × Ascending cs

All-le :
    (a b : ℕ) (cs : List Candidate)
    → a ≤ b
    → All (λ (d : Candidate). b ≤ d.seq) cs
    → All (λ (d : Candidate). a ≤ d.seq) cs
All-le a b [] h p = tt
All-le a b (c ∷ cs) h (q, p) = (omega arith, All-le a b cs h p)

All-insert_by_seq :
    (a : ℕ) (c : Candidate) (cs : List Candidate)
    → a ≤ c.seq
    → All (λ (d : Candidate). a ≤ d.seq) cs
    → All (λ (d : Candidate). a ≤ d.seq) (insert_by_seq c cs)
unfolding insert_by_seq
All-insert_by_seq a c [] h p = (h, tt)
All-insert_by_seq a c (d ∷ ds) h (q, p) = ground (arith, All-insert_by_seq a c ds h p)

insert_by_seq-Ascending :
    (c : Candidate) (cs : List Candidate) → Ascending cs → Ascending (insert_by_seq c cs)
unfolding insert_by_seq
insert_by_seq-Ascending c [] p = (tt, tt)
insert_by_seq-Ascending c (d ∷ ds) (p, q) = elim (Bool-cases (leb c.seq d.seq)) [
  | inl first ↦
      let h = leb→le c.seq d.seq first in rw first ((h, All-le c.seq d.seq ds h p), (p, q))
  | inr later ↦
      let h : d.seq ≤ c.seq = ground arith in
      rw later (All-insert_by_seq d.seq c ds h p, insert_by_seq-Ascending c ds q)
]

pub sort_by_seq-Ascending : (cs : List Candidate) → Ascending (sort_by_seq cs)
unfolding sort_by_seq
sort_by_seq-Ascending [] = tt
sort_by_seq-Ascending (c ∷ cs) =
    insert_by_seq-Ascending c (sort_by_seq cs) (sort_by_seq-Ascending cs)

-- The filter keeps the cells above the cursor, and those alone.
pub In-above_cursor :
    (cell_seq : BTreeMap Key ℕ) (cursor : ℤ) (cells : BTreeMap Key CrdtColumn) (x : Candidate)
    → In x (above_cursor cell_seq cursor cells)
    → In (x.key, x.column) cells × (x.seq ≡ seq_of cell_seq x.key) × IsAbove cursor x.seq
unfolding above_cursor
In-above_cursor cell_seq cursor [] x i = absurd i
In-above_cursor cell_seq cursor ((key, column) ∷ cells) x i =
    elim (Bool-cases (int_leb (to_i64 (seq_of cell_seq key)) cursor)) [
      | inl below ↦
          let (j, e, a) = In-above_cursor cell_seq cursor cells x (rw below at i) in (inr j, e, a)
      | inr above ↦
          let j : (x ≡ candidate_at cell_seq key column)
              ⊎ In x (above_cursor cell_seq cursor cells) =
            rw above at i in
          elim j [
            | inl e ↦
                subst
                  (λ (y : Candidate).
                    In (y.key, y.column) ((key, column) ∷ cells)
                    × (y.seq ≡ seq_of cell_seq y.key)
                    × IsAbove cursor y.seq)
                  (sym e) (inl refl, refl, above)
            | inr r ↦ let (k, e, a) = In-above_cursor cell_seq cursor cells x r in (inr k, e, a)
          ]
    ]

pub above_cursor-In :
    (cell_seq : BTreeMap Key ℕ) (cursor : ℤ) (cells : BTreeMap Key CrdtColumn) (k : Key)
    (c : CrdtColumn)
    → In (k, c) cells
    → IsAbove cursor (seq_of cell_seq k)
    → In (candidate_at cell_seq k c) (above_cursor cell_seq cursor cells)
unfolding above_cursor
above_cursor-In cell_seq cursor [] k c i a = absurd i
above_cursor-In cell_seq cursor ((key, column) ∷ cells) k c (inl e) a =
    let above : IsAbove cursor (seq_of cell_seq key) =
      subst (λ (x : Key × CrdtColumn). IsAbove cursor (seq_of cell_seq x.0)) e a in
    rw above (inl (λ i. candidate_at cell_seq (e i).0 (e i).1))
above_cursor-In cell_seq cursor ((key, column) ∷ cells) k c (inr i) a =
    elim (Bool-cases (int_leb (to_i64 (seq_of cell_seq key)) cursor)) [
      | inl below ↦ rw below (above_cursor-In cell_seq cursor cells k c i a)
      | inr above ↦ rw above (inr (above_cursor-In cell_seq cursor cells k c i a))
    ]
