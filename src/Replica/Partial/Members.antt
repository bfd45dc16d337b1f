-- ===== src/Replica/Partial/Members.antt =====
-- The members of a scope: the live rows that match the interest, read off the cells.

use loomabase.Base.{
  String, ◌≡◌, refl, sym, ap, subst, ◌∙◌, ◌⊎◌, inl, inr, Bool, true, false, ◌&&◌, Bool-cases, List,
  [], ◌∷◌, Option, none, some, In, all, arith,
}
use loomabase.BTree.{BTreeMap, get}
use loomabase.BTree.Lookup.{get-In}
use loomabase.BTree.Sorted.{IsSorted, get_of_In}
use loomabase.Order.Pair.{pair_ord}
use loomabase.Order.Text.{text_ord}
use loomabase.Value.{CrdtValue, CrdtColumn, deleted_column}
use loomabase.Validate.{Key}
use loomabase.Replica.{ReplicaInterest, ReplicaPredicate, matches, matches_predicate}
use loomabase.Replica.Partial.{Values, values_by_row, is_live, members}
use loomabase.Replica.Partial.Values.{
  HasRow, value_of, values_at, value_at-values_by_row, row-values_by_row, values_by_row-row,
  values_by_row-IsSorted,
}

-- Only what `get` reads counts for a match.
abbrev pub SameValues : BTreeMap String CrdtValue → BTreeMap String CrdtValue → Type 0
SameValues a b = (column : String) → get column a ≡ get column b

matches_predicate-ext :
    (row_id : String) (a b : BTreeMap String CrdtValue) (p : ReplicaPredicate)
    → SameValues a b
    → matches_predicate row_id a p ≡ matches_predicate row_id b p
unfolding matches_predicate
matches_predicate-ext row_id a b (ReplicaPredicate.id_equals expected) same = refl
matches_predicate-ext row_id a b (ReplicaPredicate.id_prefix prefix) same = refl
matches_predicate-ext row_id a b (ReplicaPredicate.column_equals column value) same =
    rw (same column) refl

all-ext :
    (f g : ReplicaPredicate → Bool) (ps : List ReplicaPredicate)
    → ((p : ReplicaPredicate) → f p ≡ g p)
    → all f ps ≡ all g ps
all-ext f g [] e = refl
all-ext f g (p ∷ ps) e = rw (e p, all-ext f g ps e) refl

matches-ext :
    (interest : ReplicaInterest) (row_id : String) (a b : BTreeMap String CrdtValue)
    → SameValues a b
    → matches interest row_id a ≡ matches interest row_id b
unfolding matches
matches-ext interest row_id a b same =
    all-ext (matches_predicate row_id a) (matches_predicate row_id b) interest.predicates
      (λ p. matches_predicate-ext row_id a b p same)

is_live-ext : (a b : BTreeMap String CrdtValue) → SameValues a b → is_live a ≡ is_live b
unfolding is_live
is_live-ext a b same = rw (is_live, same deleted_column) refl

In-members :
    (interest : ReplicaInterest) (rows : Values) (id : String)
    → In id (members interest rows)
    → (values : BTreeMap String CrdtValue) × In (id, values) rows
      × (is_live values ≡ true)
      × (matches interest id values ≡ true)
unfolding members
In-members interest [] id i = absurd i
In-members interest ((row_id, values) ∷ rows) id i =
    elim (Bool-cases (is_live values && matches interest row_id values)) [
      | inl in_scope ↦
          let j : (id ≡ row_id) ⊎ In id (members interest rows) = rw in_scope at i in
          elim j [
            | inl e ↦
                let (live, fits) =
                  split (is_live values) (matches interest row_id values) in_scope in
                (
                  values,
                  inl (λ t. (e t, values)),
                  live,
                  subst (λ (r : String). matches interest r values ≡ true) (sym e) fits,
                )
            | inr k ↦
                let (v, m, live, fits) = In-members interest rows id k in (v, inr m, live, fits)
          ]
      | inr out ↦
          let k : In id (members interest rows) = rw out at i in
          let (v, m, live, fits) = In-members interest rows id k in (v, inr m, live, fits)
    ]
  where
    split : (a b : Bool) → (a && b) ≡ true → (a ≡ true) × (b ≡ true)
    split true b e = (refl, e)
    split false b e = absurd (ground arith)

members-In :
    (interest : ReplicaInterest) (rows : Values) (id : String) (values : BTreeMap String CrdtValue)
    → In (id, values) rows
    → is_live values ≡ true
    → matches interest id values ≡ true
    → In id (members interest rows)
unfolding members
members-In interest [] id values i live fits = absurd i
members-In interest ((row_id, found) ∷ rows) id values (inl e) live fits =
    let is_row : id ≡ row_id = ap (λ (x : String × BTreeMap String CrdtValue). x.0) e in
    let both : (is_live found && matches interest row_id found) ≡ true =
      subst
        (λ (x : String × BTreeMap String CrdtValue).
          (is_live x.1 && matches interest x.0 x.1) ≡ true)
        e (rw (live, fits) refl) in
    rw both (inl is_row)
members-In interest ((row_id, found) ∷ rows) id values (inr i) live fits =
    let rest = members-In interest rows id values i live fits in
    elim (Bool-cases (is_live found && matches interest row_id found)) [
      | inl in_scope ↦ rw in_scope (inr rest)
      | inr out ↦ rw out rest
    ]

-- The row has a cell, its values are live, and they match.
pub record InScope (interest : ReplicaInterest) (cells : BTreeMap Key CrdtColumn) (row_id : String)
    : Type 0 where
  pub row : HasRow cells row_id
  pub values : BTreeMap String CrdtValue
  pub read : (column : String) → get column values ≡ value_of (get (row_id, column) cells)
  pub live : is_live values ≡ true
  pub matching : matches interest row_id values ≡ true

module _ (interest : ReplicaInterest) (cells : BTreeMap Key CrdtColumn) (sorted : IsSorted cells)
    (id : String) where
  abbrev rows : Values
  rows = values_by_row cells []

  read_row :
      (values : BTreeMap String CrdtValue)
      → get id rows ≡ some values
      → (column : String) → get column values ≡ value_of (get (id, column) cells)
  unfolding get
  read_row values e column =
      let found : values_at id rows ≡ values =
        ap (λ (o : Option (BTreeMap String CrdtValue)). elim o [ none ↦ [] | some v ↦ v ]) e in
      ap (get column) (sym found) ∙ value_at-values_by_row cells [] (id, column) sorted ∙ either
    where
      either :
          (elim (get (id, column) cells) [ none ↦ none | some found ↦ some found.value ])
          ≡ value_of (get (id, column) cells)
      either = ground arith

  pub members-InScope : In id (members interest rows) → InScope interest cells id
  unfolding get
  members-InScope i =
      let (values, j, live, fits) = In-members interest rows id i in
      let found = get_of_In id values rows (values_by_row-IsSorted cells [] tt) j in
      record {
        row = elim (row-values_by_row cells [] id values found) [
          | inl h ↦ h
          | inr (v, e) ↦ absurd (ground arith)
        ];
        values = values;
        read = read_row values found;
        live = live;
        matching = fits;
      }

  pub InScope-members : InScope interest cells id → In id (members interest rows)
  InScope-members h =
      let (values, found) = values_by_row-row cells [] id (inl h.row) in
      let same : SameValues h.values values =
        λ column. h.read column ∙ sym (read_row values found column) in
      members-In interest rows id values (get-In id values rows found)
        (sym (is_live-ext h.values values same) ∙ h.live)
        (sym (matches-ext interest id h.values values same) ∙ h.matching)
