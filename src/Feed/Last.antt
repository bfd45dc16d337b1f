-- ===== src/Feed/Last.antt =====
-- The last candidate of a page: it stands between the page and what is left for the next one.
use loomabase.Base.{
  ◌≤◌, ◌≡◌, refl, subst, sym, inl, inr, List, [], ◌∷◌, ◌++◌, In, In-append_left, All, arith,
}
use loomabase.Base.Int.{ℤ}
use loomabase.Feed.{Candidate, to_i64}
use loomabase.Feed.Sort.{Ascending}
use loomabase.Feed.Take.{last_cursor}

All-In : (P : Candidate → Type 0) (x : Candidate) (cs : List Candidate) → All P cs → In x cs → P x
All-In P x [] a i = absurd i
All-In P x (c ∷ cs) (p, a) (inl e) = subst P (sym e) p
All-In P x (c ∷ cs) (p, a) (inr i) = All-In P x cs a i

pub record Last (cursor : ℤ) (taken rest : List Candidate) : Type 0 where
  pub last : Candidate
  pub is_taken : In last taken
  pub is_cursor : last_cursor cursor taken ≡ to_i64 last.seq
  pub above : (x : Candidate) → In x taken → x.seq ≤ last.seq
  pub below : (x : Candidate) → In x rest → last.seq ≤ x.seq

pub Ascending-Last :
    (cursor : ℤ) (c : Candidate) (taken rest : List Candidate)
    → Ascending ((c ∷ taken) ++ rest)
    → Last cursor (c ∷ taken) rest
Ascending-Last cursor c [] rest (a, p) = record {
  last = c;
  is_taken = inl refl;
  is_cursor = refl;
  above = λ x i. elim i [
    | inl e ↦ subst (λ (y : Candidate). y.seq ≤ c.seq) (sym e) (omega arith)
    | inr j ↦ absurd j
  ];
  below = λ x i. All-In (λ (d : Candidate). c.seq ≤ d.seq) x rest a i;
}
Ascending-Last cursor c (d ∷ taken) rest (a, p) =
    let l = Ascending-Last (to_i64 c.seq) d taken rest p in
    let first : c.seq ≤ l.last.seq =
      All-In (λ (y : Candidate). c.seq ≤ y.seq) l.last ((d ∷ taken) ++ rest) a
        (In-append_left l.last (d ∷ taken) rest l.is_taken) in
    record {
      last = l.last;
      is_taken = inr l.is_taken;
      is_cursor = l.is_cursor;
      above = λ x i. elim i [
        | inl e ↦ subst (λ (y : Candidate). y.seq ≤ l.last.seq) (sym e) first
        | inr j ↦ l.above x j
      ];
      below = l.below;
    }
