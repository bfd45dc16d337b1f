-- ===== src/Replica/Partial/Snapshot.antt =====
-- What `merge_partial` returns: the members, the snapshot of their cells, and the evicted rows.
use text.Mathlib.TextEquality.{eq_iff}
use loomabase.Base.{
  ℕ, String, ◌≡◌, sym, subst, ◌⊎◌, inl, inr, true, false, Bool-cases, List, [], ◌∷◌, none, some, In,
  arith, if◌then◌else◌,
}
use package.text.Mathlib.Text.{◌==◌ as str_eq}
use loomabase.BTree.{BTreeMap, get}
use loomabase.BTree.Sorted.{IsSorted, get-Above}
use loomabase.Order.{Ord}
use loomabase.Order.Pair.{pair_ord}
use loomabase.Order.Text.{text_ord}
use loomabase.Error.{Result, ok, reject_if, bind-eq-ok, then-eq-ok, ok-injective}
use loomabase.Value.{CrdtColumn}
use loomabase.Validate.{Key}
use loomabase.Feed.{Rows, add_cell}
use loomabase.Feed.Rows.{AreSorted, cell_at, cell_at-add_cell, add_cell-AreSorted}
use loomabase.Replica.{contains_id}
use loomabase.Replica.Partial.{snapshot, evicted}

abbrev keys : Ord Key
keys = pair_ord

-- Being contained is standing in the list.
pub contains_id-In : (ids : List String) (id : String) → contains_id ids id ≡ true → In id ids
contains_id-In [] id e = absurd (ground arith)
contains_id-In (other ∷ ids) id e = elim (Bool-cases (str_eq other id)) [
  | inl same ↦ inl (sym ((eq_iff other id).0 same))
  | inr differs ↦ inr (contains_id-In ids id (ground arith))
]

pub In-contains_id : (ids : List String) (id : String) → In id ids → contains_id ids id ≡ true
In-contains_id [] id i = absurd i
In-contains_id (other ∷ ids) id (inl e) = let same = (eq_iff other id).1 (sym e) in ground arith
In-contains_id (other ∷ ids) id (inr i) = let later = In-contains_id ids id i in ground arith

-- Evicted: known to the client, and no member now.
pub In-evicted :
    (ids known : List String) (id : String)
    → In id (evicted ids known)
    → In id known × (contains_id ids id ≡ false)
unfolding evicted
In-evicted ids [] id i = absurd i
In-evicted ids (other ∷ known) id i = elim (Bool-cases (contains_id ids other)) [
  | inl member ↦ let (j, out) = In-evicted ids known id (rw member at i) in (inr j, out)
  | inr out ↦
      let j : (id ≡ other) ⊎ In id (evicted ids known) = rw out at i in
      elim j [
        | inl e ↦ (inl e, subst (λ (x : String). contains_id ids x ≡ false) (sym e) out)
        | inr k ↦ let (m, gone) = In-evicted ids known id k in (inr m, gone)
      ]
]

pub evicted-In :
    (ids known : List String) (id : String)
    → In id known
    → contains_id ids id ≡ false
    → In id (evicted ids known)
unfolding evicted
evicted-In ids [] id i out = absurd i
evicted-In ids (other ∷ known) id (inl e) out =
    let gone : contains_id ids other ≡ false =
      subst (λ (x : String). contains_id ids x ≡ false) e out in
    rw gone (inl e)
evicted-In ids (other ∷ known) id (inr i) out = elim (Bool-cases (contains_id ids other)) [
  | inl member ↦ rw member (evicted-In ids known id i out)
  | inr gone ↦ rw gone (inr (evicted-In ids known id i out))
]

module _ (json_len : CrdtColumn → Result ℕ) (ids : List String) where
  -- The snapshot holds the cells of the members.
  pub cell_at-snapshot :
      (cells : BTreeMap Key CrdtColumn) (bytes : ℕ) (rows rows' : Rows) (k : Key)
      → IsSorted cells
      → snapshot json_len ids cells bytes rows ≡ ok rows'
      → cell_at k rows' ≡ (
          if contains_id ids k.0
          then elim (get k cells) [ none ↦ cell_at k rows | some column ↦ some column ]
          else cell_at k rows)
  unfolding snapshot get
  cell_at-snapshot [] bytes rows rows' k s h = rw (← ok-injective h) (ground arith)
  cell_at-snapshot ((key, column) ∷ cells) bytes rows rows' k (above, s) h =
      elim (Bool-cases (contains_id ids key.0)) [
        | inl member ↦
            let (n, _, h') = bind-eq-ok (json_len column) _ (rw (snapshot, member) at h) in
            let (_, rest) = then-eq-ok (reject_if _ _) _ h' in
            let later = cell_at-snapshot cells _ (add_cell key column rows) rows' k s rest in
            ground (
              arith,
              later,
              cell_at-add_cell k key column rows,
              get-Above key cells above,
              keys.identical k key,
            )
        | inr out ↦
            let later = cell_at-snapshot cells bytes rows rows' k s (rw (snapshot, out) at h) in
            ground (arith, later, keys.identical k key)
      ]

  pub snapshot-AreSorted :
      (cells : BTreeMap Key CrdtColumn) (bytes : ℕ) (rows rows' : Rows)
      → AreSorted rows
      → snapshot json_len ids cells bytes rows ≡ ok rows'
      → AreSorted rows'
  unfolding snapshot
  snapshot-AreSorted [] bytes rows rows' s h = subst AreSorted (ok-injective h) s
  snapshot-AreSorted ((key, column) ∷ cells) bytes rows rows' s h =
      elim (Bool-cases (contains_id ids key.0)) [
        | inl member ↦
            let (n, _, h') = bind-eq-ok (json_len column) _ (rw (snapshot, member) at h) in
            let (_, rest) = then-eq-ok (reject_if _ _) _ h' in
            snapshot-AreSorted cells _ (add_cell key column rows) rows'
              (add_cell-AreSorted key column rows s) rest
        | inr out ↦ snapshot-AreSorted cells bytes rows rows' s (rw (snapshot, out) at h)
      ]
