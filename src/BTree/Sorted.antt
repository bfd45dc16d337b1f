-- ===== src/BTree/Sorted.antt =====
-- The order of the keys: `insert` keeps it, and a sorted map is determined by what `get` reads.
use Prim.Native.Nat.Ordering.{lt}
use loomabase.Base.{◌≡◌, refl, sym, ◌∙◌, Ordering-cases, [], ◌∷◌, none, some, In, inl, inr, arith}
use loomabase.Order.{Ord, cmp_refl, lt_of_gt, gt_of_lt}
use loomabase.BTree.{BTreeMap, get, insert}

module _ {K V : Type 0} ⦃o : Ord K⦄ where
  -- Every key of the map is above `k`.
  abbrev pub Above : K → BTreeMap K V → Type 0
  Above k [] = Unit
  Above k ((j, w) ∷ m) = (o.cmp k j ≡ lt) × Above k m

  abbrev pub IsSorted : BTreeMap K V → Type 0
  IsSorted [] = Unit
  IsSorted ((k, v) ∷ m) = Above k m × IsSorted m

  Above-trans : (j k : K) (m : BTreeMap K V) → o.cmp j k ≡ lt → Above k m → Above j m
  Above-trans j k [] h a = tt
  Above-trans j k ((i, w) ∷ m) h (e, a) = (o.chained j k i h e, Above-trans j k m h a)

  Above-insert :
      (j k : K) (v : V) (m : BTreeMap K V) → o.cmp j k ≡ lt → Above j m → Above j (insert k v m)
  unfolding insert
  Above-insert j k v [] h a = (h, tt)
  Above-insert j k v ((i, w) ∷ m) h a = ground (arith, Above-insert j k v m)

  pub insert-IsSorted : (k : K) (v : V) (m : BTreeMap K V) → IsSorted m → IsSorted (insert k v m)
  unfolding insert
  insert-IsSorted k v [] s = (tt, tt)
  insert-IsSorted k v ((j, w) ∷ m) s = ground (
    arith,
    insert-IsSorted k v m,
    Above-insert j k v m,
    Above-trans k j m,
    lt_of_gt k j,
    o.identical k j,
  )

  pub get-Above : (k : K) (m : BTreeMap K V) → Above k m → get k m ≡ none
  unfolding get
  get-Above k [] a = refl
  get-Above k ((j, w) ∷ m) (h, a) = ground (arith, get-Above k m a)

  In-Above : (k j : K) (v : V) (m : BTreeMap K V) → Above k m → In (j, v) m → o.cmp k j ≡ lt
  In-Above k j v [] a i = absurd i
  In-Above k j v ((i, w) ∷ m) (h, a) (inl e) = ground arith
  In-Above k j v ((i, w) ∷ m) (h, a) (inr r) = In-Above k j v m a r

  -- An entry of a sorted map is the one that `get` finds.
  pub get_of_In : (k : K) (v : V) (m : BTreeMap K V) → IsSorted m → In (k, v) m → get k m ≡ some v
  unfolding get
  get_of_In k v [] s i = absurd i
  get_of_In k v ((j, w) ∷ m) s (inl e) = ground (arith, cmp_refl j)
  get_of_In k v ((j, w) ∷ m) s (inr r) =
      ground (arith, get_of_In k v m s.1 r, In-Above j k v m s.0 r, gt_of_lt j k)

  abbrev empty_map : BTreeMap K V
  empty_map = []

  get-nil : (q : K) → get q empty_map ≡ none
  unfolding get
  get-nil q = refl

  get_head : (k : K) (v : V) (m : BTreeMap K V) → get k ((k, v) ∷ m) ≡ some v
  unfolding get
  get_head k v m = ground (arith, cmp_refl k)

  -- A key below the first one is absent.
  get_below :
      (q k : K) (v : V) (m : BTreeMap K V) → o.cmp q k ≡ lt → Above k m → get q ((k, v) ∷ m) ≡ none
  unfolding get
  get_below q k v m h a = ground (arith, get-Above q m (Above-trans q k m h a))

  -- The entries behind the first one read as the whole does, but for the first key.
  tail_eq :
      (k : K) (v w : V) (m n : BTreeMap K V)
      → Above k m
      → Above k n
      → ((q : K) → get q ((k, v) ∷ m) ≡ get q ((k, w) ∷ n))
      → (q : K) → get q m ≡ get q n
  unfolding get
  tail_eq k v w m n a b h q = elim (Ordering-cases (o.cmp q k)) [
    | inr (inl same) ↦
        let e = o.identical q k same in rw e (get-Above k m a ∙ sym (get-Above k n b))
    | inl less ↦ ground (arith, h q)
    | inr (inr more) ↦ ground (arith, h q)
  ]

  -- Sorted maps that read alike are equal.
  pub IsSorted-ext :
      (m n : BTreeMap K V) → IsSorted m → IsSorted n → ((q : K) → get q m ≡ get q n) → m ≡ n
  IsSorted-ext [] [] s t h = refl
  IsSorted-ext [] ((j, w) ∷ n) s t h = ground (arith, h j, get_head j w n, get-nil j)
  IsSorted-ext ((k, v) ∷ m) [] s t h = ground (arith, h k, get_head k v m, get-nil k)
  IsSorted-ext ((k, v) ∷ m) ((j, w) ∷ n) s t h = elim (Ordering-cases (o.cmp k j)) [
    | inl less ↦ ground (arith, h k, get_head k v m, get_below k j w n less t.0)
    | inr (inr more) ↦
        ground (arith, h j, get_head j w n, get_below j k v m (lt_of_gt k j more) s.0)
    | inr (inl same) ↦
        let e : k ≡ j = o.identical k j same in
        let same_value : v ≡ w = ground (arith, h k, get_head k v m, get_head j w n) in
        let moved : (q : K) → get q ((j, w) ∷ n) ≡ get q ((k, w) ∷ n) = λ q. rw e in
        let same_rest : m ≡ n =
          IsSorted-ext m n s.1 t.1 (tail_eq k v w m n s.0 (rw e t.0) (λ q. h q ∙ moved q)) in
        λ i. (e i, same_value i) ∷ same_rest i
  ]
