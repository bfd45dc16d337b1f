-- ===== src/Feed/Collect.antt =====
-- The rows of a page hold exactly the cells that were taken.
use loomabase.Base.{
  ◌≡◌, refl, sym, ap, subst, ◌∙◌, ◌⊎◌, inl, inr, Bool-cases, List, [], ◌∷◌, Option, some, In, All,
  arith,
}
use loomabase.Order.{Ord, is_eq, cmp_refl}
use loomabase.Order.Pair.{pair_ord}
use loomabase.Order.Text.{text_ord}
use loomabase.Value.{CrdtColumn}
use loomabase.Validate.{Key}
use loomabase.Feed.{Candidate, Rows, add_cell}
use loomabase.Feed.Rows.{cell_at, cell_at-add_cell, AreSorted, add_cell-AreSorted}
use loomabase.Feed.Take.{add_all}

abbrev keys : Ord Key
keys = pair_ord

pub add_all-AreSorted :
    (cs : List Candidate) (rows : Rows) → AreSorted rows → AreSorted (add_all cs rows)
add_all-AreSorted [] rows s = s
add_all-AreSorted (c ∷ cs) rows s =
    add_all-AreSorted cs (add_cell c.key c.column rows) (add_cell-AreSorted c.key c.column rows s)

-- What the rows hold comes from the candidates, or was there.
pub add_all_source :
    (cs : List Candidate) (rows : Rows) (k : Key) (c : CrdtColumn)
    → cell_at k (add_all cs rows) ≡ some c
    → ((x : Candidate) × In x cs × (x.key ≡ k) × (x.column ≡ c)) ⊎ (cell_at k rows ≡ some c)
add_all_source [] rows k c e = inr e
add_all_source (x ∷ cs) rows k c e = elim (add_all_source cs (add_cell x.key x.column rows) k c e) [
  | inl (y, i, p, q) ↦ inl (y, inr i, p, q)
  | inr there ↦ elim (Bool-cases (is_eq (keys.cmp k x.key))) [
    | inl same ↦ inl (
      x,
      inl refl,
      sym (keys.identical k x.key (ground arith)),
      ground (arith, cell_at-add_cell k x.key x.column rows),
    )
    | inr other ↦ inr (ground (arith, cell_at-add_cell k x.key x.column rows))
  ]
]

-- The candidates agree with `cell` on the cell of a key.
abbrev pub Agree : (Key → Option CrdtColumn) → List Candidate → Type 0
Agree cell cs = All (λ (x : Candidate). cell x.key ≡ some x.column) cs

module _ (cell : Key → Option CrdtColumn) where
  add_all_keeps :
      (cs : List Candidate) (rows : Rows) (k : Key) (c : CrdtColumn)
      → Agree cell cs
      → cell k ≡ some c
      → cell_at k rows ≡ some c
      → cell_at k (add_all cs rows) ≡ some c
  add_all_keeps [] rows k c a e h = h
  add_all_keeps (x ∷ cs) rows k c (f, a) e h =
      add_all_keeps cs (add_cell x.key x.column rows) k c a e
        (elim (Bool-cases (is_eq (keys.cmp k x.key))) [
          | inl same ↦
              let is_key : k ≡ x.key = keys.identical k x.key (ground arith) in
              let there : cell k ≡ some x.column = ap cell is_key ∙ f in
              let is_cell : c ≡ x.column = cc in
              ground (arith, cell_at-add_cell k x.key x.column rows)
          | inr other ↦ ground (arith, cell_at-add_cell k x.key x.column rows)
        ])

  pub add_all-In :
      (cs : List Candidate) (rows : Rows) (x : Candidate)
      → Agree cell cs
      → In x cs
      → cell_at x.key (add_all cs rows) ≡ some x.column
  add_all-In [] rows x a i = absurd i
  add_all-In (y ∷ cs) rows x (f, a) (inr i) = add_all-In cs (add_cell y.key y.column rows) x a i
  add_all-In (y ∷ cs) rows x (f, a) (inl e) =
      subst
        (λ (z : Candidate).
          cell_at z.key (add_all cs (add_cell y.key y.column rows)) ≡ some z.column)
        (sym e)
        (add_all_keeps cs (add_cell y.key y.column rows) y.key y.column a f
          (ground (arith, cell_at-add_cell y.key y.key y.column rows, cmp_refl y.key)))
