-- ===== src/Feed/Take.antt =====
-- The page loop takes a prefix of the candidates, at least one if there is one, within the limits.
use loomabase.Base.{
  ℕ, ◌+◌, ◌≤◌, ◌≡◌, ◌≢◌, refl, sym, ap, ◌⊎◌, inl, inr, true, false, Bool-cases, List, [], ◌∷◌, ◌++◌,
  length, arith,
}
use Prim.Native.String.{len}
use loomabase.Base.Int.{ℤ}
use loomabase.Order.{Ord}
use loomabase.Order.Pair.{pair_ord}
use loomabase.Order.Text.{text_ord}
use loomabase.Error.{Result, ok, bind-eq-ok, ok-injective}
use loomabase.Value.{CrdtColumn}
use loomabase.Validate.{Key}
use loomabase.Feed.{Candidate, Page, Rows, add_cell, to_i64, page_is_full, add_to_page, fill_page}

abbrev keys : Ord Key
keys = pair_ord

abbrev pub add_all : List Candidate → Rows → Rows
add_all [] rows = rows
add_all (c ∷ cs) rows = add_all cs (add_cell c.key c.column rows)

-- The cursor after the candidates.
abbrev pub last_cursor : ℤ → List Candidate → ℤ
last_cursor cursor [] = cursor
last_cursor cursor (c ∷ cs) = last_cursor (to_i64 c.seq) cs

-- A page within the limits: at most 1000 cells, and 4 MiB unless it holds a single cell.
abbrev pub WithinLimits : Page → Type 0
WithinLimits page =
    (page.included ≤ 1000) × ((page.included ≤ 1) ⊎ (page.response_bytes ≤ 4_194_304))

pub record Filled (cs : List Candidate) (page page' : Page) : Type 0 where
  pub taken : List Candidate
  pub rest : List Candidate
  pub split : cs ≡ taken ++ rest
  pub rows : page'.response_rows ≡ add_all taken page.response_rows
  pub count : page'.included ≡ page.included + length taken
  pub cursor : page'.next_cursor ≡ last_cursor page.next_cursor taken
  pub progress : page.included ≡ 0 → length taken ≡ 0 → cs ≡ []
  pub bounded : WithinLimits page → WithinLimits page'

module _ (json_len : CrdtColumn → Result ℕ) where
  -- A page that is full, or has no candidate left, stays as it is.
  Filled-stop :
      (cs : List Candidate) (page page' : Page)
      → page' ≡ page
      → (page.included ≡ 0 → cs ≡ [])
      → Filled cs page page'
  Filled-stop cs page page' e start = record {
    taken = [];
    rest = cs;
    split = refl;
    rows = ap (λ (p : Page). p.response_rows) e;
    count = omega (arith, ap (λ (p : Page). p.included) e);
    cursor = ap (λ (p : Page). p.next_cursor) e;
    progress = λ z _. start z;
    bounded = λ b. rw e b;
  }

  full-not-start :
      (page : Page) (cell_bytes : ℕ)
      → page_is_full json_len page cell_bytes ≡ true
      → page.included ≢ 0
  unfolding page_is_full
  full-not-start page cell_bytes h e = ground arith

  add_to_page-WithinLimits :
      (page : Page) (c : Candidate) (cell_bytes : ℕ)
      → page_is_full json_len page cell_bytes ≡ false
      → WithinLimits page
      → WithinLimits (add_to_page json_len page c cell_bytes)
  unfolding page_is_full add_to_page
  add_to_page-WithinLimits page c cell_bytes h b = ground arith

  Filled-step :
      (c : Candidate) (cs : List Candidate) (cell_bytes : ℕ) (page page' : Page)
      → page_is_full json_len page cell_bytes ≡ false
      → Filled cs (add_to_page json_len page c cell_bytes) page'
      → Filled (c ∷ cs) page page'
  unfolding add_to_page
  Filled-step c cs cell_bytes page page' room f = record {
    taken = c ∷ f.taken;
    rest = f.rest;
    split = ap (◌∷◌ c) f.split;
    rows = f.rows;
    count = omega (arith, f.count);
    cursor = f.cursor;
    progress = λ _ z. absurd (omega arith);
    bounded = λ b. f.bounded (add_to_page-WithinLimits page c cell_bytes room b);
  }

  pub fill_page-Filled :
      (cs : List Candidate) (page page' : Page)
      → fill_page json_len cs page ≡ ok page'
      → Filled cs page page'
  unfolding fill_page
  fill_page-Filled [] page page' h = Filled-stop [] page page' (sym (ok-injective h)) (λ _. refl)
  fill_page-Filled (c ∷ cs) page page' h =
      let (column_bytes, sized, next) = bind-eq-ok (json_len c.column) _ h in
      let cell_bytes = column_bytes + len c.key.0 + len c.key.1 in
      elim (Bool-cases (page_is_full json_len page cell_bytes)) [
        | inl full ↦
            Filled-stop (c ∷ cs) page page' (sym (ok-injective (rw full at next)))
              (λ z. absurd (full-not-start page cell_bytes full z))
        | inr room ↦
            Filled-step c cs cell_bytes page page' room
              (fill_page-Filled cs (add_to_page json_len page c cell_bytes) page' (rw room at next))
      ]
