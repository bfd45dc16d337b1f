-- ===== src/Server/Convergence.antt =====
-- Replicas that accepted the same cells hold the same cells.
use loomabase.Base.{
  String, ◌≡◌, refl, sym, ap, ◌∙◌, ◌⊎◌, inl, inr, List, [], ◌∷◌, ◌++◌, none, some, Option-cases, In,
  arith, ℕ, subst,
}
use loomabase.BTree.{BTreeMap, get}
use loomabase.BTree.Sorted.{IsSorted, IsSorted-ext}
use loomabase.Order.Pair.{pair_ord}
use loomabase.Order.Text.{text_ord}
use loomabase.Error.{Result, ok, err}
use loomabase.Value.{CrdtColumn, SyncPayload}
use loomabase.Validate.{Key}
use loomabase.Lww.Laws.{◌⊑◌, ⊑_refl, ⊑_antisymm}
use loomabase.Merge.{CrdtState}
use loomabase.Merge.Join.{Holds}
use loomabase.Merge.Advance.{
  Entries, entries, Advances, Advances-refl, Advances-trans, Offered, Offered-keeps, Offered-append,
  open_security, merge_rows-Advances, merge_rows-Offered,
}
use loomabase.Server.{context_of, issue_cursor, commit, merge_inner, merge_with_security, merge}
use loomabase.Server.Inversion.{merge_inner-Accepted}

-- A cell that was there before, or was offered.
abbrev pub Known : BTreeMap Key CrdtColumn → Entries → Key → CrdtColumn → Type 0
Known cells es k c = (get k cells ≡ some c) ⊎ In (k, c) es

-- A version of a cell has one value.
abbrev pub IsConsistent : BTreeMap Key CrdtColumn → Entries → Type 0
IsConsistent cells es =
    (k : Key) (c d : CrdtColumn)
    → Known cells es k c
    → Known cells es k d
    → c.metadata ≡ d.metadata
    → c ≡ d

-- The same cells, in any order and as often as it may be.
abbrev pub SameEntries : Entries → Entries → Type 0
SameEntries es fs = (e : Key × CrdtColumn) → (In e es → In e fs) × (In e fs → In e es)

Offered-In :
    (es : Entries) (cells : BTreeMap Key CrdtColumn) (k : Key) (c : CrdtColumn)
    → Offered es cells
    → In (k, c) es
    → Holds cells k c.metadata
Offered-In [] cells k c o i = absurd i
Offered-In ((j, d) ∷ es) cells k c (h, o) (inl e) =
    subst (λ (f : Key × CrdtColumn). Holds cells f.0 f.1.metadata) (sym e) h
Offered-In ((j, d) ∷ es) cells k c (h, o) (inr i) = Offered-In es cells k c o i

Known-Holds :
    (es : Entries) (a b : BTreeMap Key CrdtColumn) (k : Key) (c : CrdtColumn)
    → Advances es a b
    → Offered es b
    → Known a es k c
    → Holds b k c.metadata
Known-Holds es a b k c p o (inl e) = p.keeps k c.metadata (c, e, ⊑_refl c.metadata)
Known-Holds es a b k c p o (inr i) = Offered-In es b k c o i

module _ (a b c : BTreeMap Key CrdtColumn) (es fs : Entries) (p : Advances es a b)
    (o : Offered es b) (q : Advances fs a c) (r : Offered fs c) (same : SameEntries es fs)
    (consistent : IsConsistent a es) where
  Known-there : (k : Key) (x : CrdtColumn) → Known a es k x → Known a fs k x
  Known-there k x (inl e) = inl e
  Known-there k x (inr i) = inr ((same (k, x)).0 i)

  Known-back : (k : Key) (x : CrdtColumn) → Known a fs k x → Known a es k x
  Known-back k x (inl e) = inl e
  Known-back k x (inr i) = inr ((same (k, x)).1 i)

  both_hold : (k : Key) (x y : CrdtColumn) → get k b ≡ some x → get k c ≡ some y → x ≡ y
  both_hold k x y e f =
      let known_x = p.source k x e in
      let known_y = q.source k y f in
      let (y', f', x_le) = Known-Holds fs a c k x q r (Known-there k x known_x) in
      let (x', e', y_le) = Known-Holds es a b k y p o (Known-back k y known_y) in
      let y_same : y' ≡ y = cc in
      let x_same : x' ≡ x = cc in
      let le : x.metadata ⊑ y.metadata = subst (λ z. x.metadata ⊑ z.metadata) y_same x_le in
      let ge : y.metadata ⊑ x.metadata = subst (λ z. y.metadata ⊑ z.metadata) x_same y_le in
      consistent k x y known_x (Known-back k y known_y) (⊑_antisymm x.metadata y.metadata le ge)

  one_holds : (k : Key) (x : CrdtColumn) → get k b ≡ some x → get k c ≡ none → ⊥
  one_holds k x e f =
      let (y, f', le) = Known-Holds fs a c k x q r (Known-there k x (p.source k x e)) in
      ground arith

  other_holds : (k : Key) (y : CrdtColumn) → get k b ≡ none → get k c ≡ some y → ⊥
  other_holds k y e f =
      let (x, e', le) = Known-Holds es a b k y p o (Known-back k y (q.source k y f)) in ground arith

  same_reads : (k : Key) → get k b ≡ get k c
  same_reads k = elim (Option-cases (get k b)) [
    | inl e ↦ elim (Option-cases (get k c)) [
      | inl f ↦ e ∙ sym f
      | inr (y, f) ↦ absurd (other_holds k y e f)
    ]
    | inr (x, e) ↦ elim (Option-cases (get k c)) [
      | inl f ↦ absurd (one_holds k x e f)
      | inr (y, f) ↦ e ∙ ap some (both_hold k x y e f) ∙ sym f
    ]
  ]

  -- Two ways of offering the same cells end in the same map.
  same_cells : IsSorted a → b ≡ c
  same_cells s = IsSorted-ext b c (p.sorted s) (q.sorted s) same_reads

-- A payload with the device that is authenticated for it.
abbrev pub Delivery : Type 0
Delivery = SyncPayload × String

-- The cells of a request that was accepted.
abbrev pub accepted_by : Result SyncPayload → SyncPayload → Entries
accepted_by (ok response) payload = entries payload.changes
accepted_by (err e) payload = []

module _ (json_len : CrdtColumn → Result ℕ) where
  -- The requests reach the server one after the other.
  unfoldable pub deliver_all : List Delivery → CrdtState → CrdtState
  deliver_all [] s = s
  deliver_all ((payload, device) ∷ ds) s = deliver_all ds (merge json_len payload device s).0

  -- The cells of the accepted requests.
  unfoldable pub accepted_entries : List Delivery → CrdtState → Entries
  accepted_entries [] s = []
  accepted_entries ((payload, device) ∷ ds) s =
      accepted_by (merge json_len payload device s).1 payload
      ++ accepted_entries ds (merge json_len payload device s).0

  -- The cells after a request that the server accepted.
  merge_ok :
      (payload : SyncPayload) (device : String) (s s' : CrdtState) (response : SyncPayload)
      → merge_inner json_len payload device open_security s ≡ ok (s', response)
      → Advances (entries payload.changes) s.cells s'.cells
        × Offered (entries payload.changes) s'.cells
  unfolding issue_cursor
  merge_ok payload device s s' response h =
      let a = merge_inner-Accepted json_len payload device open_security s s' response h in
      rw (a.state) (
        merge_rows-Advances open_security (context_of s device) payload.changes (s, [])
            (a.merged, a.rejections) a.loop,
        merge_rows-Offered (context_of s device) payload.changes (s, []) (a.merged, a.rejections)
            a.loop,
      )

  -- What a request does to the cells, accepted or not.
  abbrev Outcome : SyncPayload → CrdtState → CrdtState × Result SyncPayload → Type 0
  Outcome payload s (s', answer) =
      Advances (accepted_by answer payload) s.cells s'.cells
      × Offered (accepted_by answer payload) s'.cells

  commit-Outcome :
      (payload : SyncPayload) (device : String) (s : CrdtState)
      (m : Result (CrdtState × SyncPayload))
      → merge_inner json_len payload device open_security s ≡ m
      → Outcome payload s (commit s m)
  commit-Outcome payload device s (ok (s', response)) e = merge_ok payload device s s' response e
  commit-Outcome payload device s (err e) h = (Advances-refl [] s.cells, tt)

  merge-Outcome :
      (payload : SyncPayload) (device : String) (s : CrdtState)
      → Outcome payload s (merge json_len payload device s)
  unfolding merge merge_with_security
  merge-Outcome payload device s =
      commit-Outcome payload device s (merge_inner json_len payload device open_security s) refl

  pub deliver_all-Advances :
      (ds : List Delivery) (s : CrdtState)
      → Advances (accepted_entries ds s) s.cells (deliver_all ds s).cells
  unfolding deliver_all accepted_entries
  deliver_all-Advances [] s = Advances-refl [] s.cells
  deliver_all-Advances ((payload, device) ∷ ds) s =
      Advances-trans (accepted_by (merge json_len payload device s).1 payload)
        (accepted_entries ds _) s.cells _ _ (merge-Outcome payload device s).0
        (deliver_all-Advances ds (merge json_len payload device s).0)

  deliver_all-Offered :
      (ds : List Delivery) (s : CrdtState)
      → Offered (accepted_entries ds s) (deliver_all ds s).cells
  unfolding deliver_all accepted_entries
  deliver_all-Offered [] s = tt
  deliver_all-Offered ((payload, device) ∷ ds) s =
      let s' = (merge json_len payload device s).0 in
      Offered-append (accepted_by (merge json_len payload device s).1 payload)
        (accepted_entries ds s') _
        (Offered-keeps _ (accepted_entries ds s') _ _ (deliver_all-Advances ds s')
          (merge-Outcome payload device s).1)
        (deliver_all-Offered ds s')

  -- Two request sequences whose accepted requests carry the same cells, in any order and
  -- repetition, leave the reference server with equal cells, when its cells are in key order and
  -- every known version has one value.
  pub deliver_all_converges :
      (ds es : List Delivery) (s : CrdtState)
      → IsSorted s.cells
      → IsConsistent s.cells (accepted_entries ds s)
      → SameEntries (accepted_entries ds s) (accepted_entries es s)
      → (deliver_all ds s).cells ≡ (deliver_all es s).cells
  deliver_all_converges ds es s sorted consistent same =
      same_cells s.cells (deliver_all ds s).cells (deliver_all es s).cells (accepted_entries ds s)
        (accepted_entries es s) (deliver_all-Advances ds s) (deliver_all-Offered ds s)
        (deliver_all-Advances es s) (deliver_all-Offered es s) same consistent sorted
