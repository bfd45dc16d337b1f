-- ===== src/Client/Scope/Revision.antt =====
-- The revisions of the scopes: they start at 0, and a new one is one above the old.

use loomabase.Base.{
  zero, suc, String, Bool, true, false, ◌≡◌, refl, sym, subst, ◌∙◌, inl, inr, Bool-cases, Option,
  none, some, arith,
}
use loomabase.Base.Int.{ℤ, pos, negsuc, int_eq, int_leb, int_succ}
use loomabase.BTree.{BTreeMap, get}
use loomabase.BTree.Lookup.{get-insert, get-insert_self}
use loomabase.Order.{is_eq}
use loomabase.Order.Text.{text_ord}
use loomabase.Error.{ok}
use loomabase.Client.{Client, ScopeState}
use loomabase.Client.Scope.{next_version, set_scope}
use loomabase.Client.Scope.Kept.{SameScopes}

-- The revision of a scope; one that was never requested has 0.
abbrev pub revision : String → Client → ℤ
revision scope_id s = elim (get scope_id s.scope_states) [
  | none ↦ pos 0
  | some state ↦ state.version
]

-- What an operation does to the revisions: none falls.
abbrev pub NotBelow : Client → Client → Type 0
NotBelow s s' = (scope_id : String) → int_leb (revision scope_id s) (revision scope_id s') ≡ true

pub int_leb_refl : (z : ℤ) → int_leb z z ≡ true
int_leb_refl (pos a) = ground arith
int_leb_refl (negsuc a) = ground arith

pub int_leb_trans : (a b c : ℤ) → int_leb a b ≡ true → int_leb b c ≡ true → int_leb a c ≡ true
int_leb_trans (pos a) (pos b) (pos c) p q = ground arith
int_leb_trans (pos a) (pos b) (negsuc c) p q = ground arith
int_leb_trans (pos a) (negsuc b) c p q = absurd (ground arith)
int_leb_trans (negsuc a) b (pos c) p q = refl
int_leb_trans (negsuc a) (pos b) (negsuc c) p q = absurd (ground arith)
int_leb_trans (negsuc a) (negsuc b) (negsuc c) p q = ground arith

pub int_succ_le : (a b : ℤ) → int_leb a b ≡ true → int_leb (int_succ a) (int_succ b) ≡ true
int_succ_le (pos a) (pos b) h = ground arith
int_succ_le (pos a) (negsuc b) h = absurd (ground arith)
int_succ_le (negsuc zero) (pos b) h = ground arith
int_succ_le (negsuc (suc a)) (pos b) h = refl
int_succ_le (negsuc zero) (negsuc zero) h = refl
int_succ_le (negsuc zero) (negsuc (suc b)) h = absurd (ground arith)
int_succ_le (negsuc (suc a)) (negsuc zero) h = refl
int_succ_le (negsuc (suc a)) (negsuc (suc b)) h = ground arith

int_leb-succ : (z : ℤ) → int_leb z (int_succ z) ≡ true
int_leb-succ (pos a) = ground arith
int_leb-succ (negsuc zero) = refl
int_leb-succ (negsuc (suc a)) = ground arith

pub not_int_leb-succ : (z : ℤ) → int_leb (int_succ z) z ≡ false
not_int_leb-succ (pos a) = ground arith
not_int_leb-succ (negsuc zero) = refl
not_int_leb-succ (negsuc (suc a)) = ground arith

pub int_eq-same : (a b : ℤ) → int_eq a b ≡ true → a ≡ b
int_eq-same (pos a) (pos b) h = ground arith
int_eq-same (pos a) (negsuc b) h = absurd (ground arith)
int_eq-same (negsuc a) (pos b) h = absurd (ground arith)
int_eq-same (negsuc a) (negsuc b) h = ground arith

pub SameScopes-NotBelow : (s s' : Client) → SameScopes s s' → NotBelow s s'
SameScopes-NotBelow s s' same scope_id =
    subst
      (λ (m : BTreeMap String ScopeState).
        int_leb (revision scope_id s)
          (elim (get scope_id m) [ none ↦ pos 0 | some state ↦ state.version ])
        ≡ true)
      (sym same) (int_leb_refl (revision scope_id s))

-- The next revision is one above.
pub next_version-succ :
    (found : Option ScopeState) (version : ℤ)
    → next_version found ≡ ok version
    → version ≡ int_succ (elim found [ none ↦ pos 0 | some state ↦ state.version ])
unfolding next_version
next_version-succ none version h = ground arith
next_version-succ (some state) version h = ground arith

-- A new revision of one scope.
pub set_scope-revision :
    (scope_id : String) (state : ScopeState) (s : Client)
    → revision scope_id (set_scope scope_id state s) ≡ state.version
unfolding set_scope
set_scope-revision scope_id state s = ground (arith, get-insert_self scope_id state s.scope_states)

pub set_scope-NotBelow :
    (scope_id : String) (version : ℤ) (active : Bool) (s : Client)
    → next_version (get scope_id s.scope_states) ≡ ok version
    → NotBelow s (set_scope scope_id (record { version = version; active = active }) s)
unfolding set_scope
set_scope-NotBelow scope_id version active s h other =
    let next = next_version-succ (get scope_id s.scope_states) version h in
    let state : ScopeState = record { version = version; active = active } in
    elim (Bool-cases (is_eq (text_ord.cmp other scope_id))) [
      | inl same ↦
          let e : other ≡ scope_id = text_ord.identical other scope_id (ground arith) in
          subst
            (λ (o : String).
              int_leb (revision o s) (revision o (set_scope scope_id state s)) ≡ true)
            (sym e)
            (subst (λ (z : ℤ). int_leb (revision scope_id s) z ≡ true)
              (sym (set_scope-revision scope_id state s ∙ next))
              (int_leb-succ (revision scope_id s)))
      | inr differs ↦
          let kept : revision other (set_scope scope_id state s) ≡ revision other s =
            ground (arith, get-insert other scope_id state s.scope_states) in
          subst (λ (z : ℤ). int_leb (revision other s) z ≡ true) (sym kept)
            (int_leb_refl (revision other s))
    ]
