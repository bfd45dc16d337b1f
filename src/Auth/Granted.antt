-- ===== src/Auth/Granted.antt =====
-- What follows when a chain of checks of src/auth.rs grants a value.
use Prim.Native.Char.{Char, code}
use Prim.Native.String.{◌++◌}
use Prim.Native.String.append
use package.text.Mathlib.Text.{◌==◌ as str_eq}
use package.text.Mathlib.TextEquality.{Char-path, eq_iff}
use loomabase.Base.{
  ℕ, ◌≤◌, String, Bool, true, false, ◌≡◌, refl, sym, ap, ◌∙◌, Option, none, some, ltb, ◌==◌,
  if◌then◌else◌, inl, inr, Bool-cases, ==_iff, arith,
}
use loomabase.Error.{Check, Passes, ok, err}
use loomabase.Auth.{Outcome, granted, refused, ◌>>=◌, ◌>>◌, or_refuse, refuse_if, or_message}
use loomabase.Auth.Text.{strip_prefix}

module _ {ℓ κ} {A : Type ℓ} {B : Type κ} where
  pub bind-granted :
      (first : Outcome A) (next : A → Outcome B) {result : B}
      → (first >>= next) ≡ granted result
      → (value : A) × (first ≡ granted value) × (next value ≡ granted result)
  bind-granted (refused message) next h = ground arith
  bind-granted (granted value) next h = (value, refl, h)

module _ {ℓ} {B : Type ℓ} where
  pub refuse_if-granted :
      (test : Bool) (message : String) (next : Outcome B) {result : B}
      → (refuse_if test message >> next) ≡ granted result
      → (test ≡ false) × (next ≡ granted result)
  refuse_if-granted true message next h = ground arith
  refuse_if-granted false message next h = (refl, h)

  pub or_message-granted :
      (check : Check) (message : String) (next : Outcome B) {result : B}
      → (or_message check message >> next) ≡ granted result
      → Passes check × (next ≡ granted result)
  or_message-granted (ok tt) message next h = (refl, h)
  or_message-granted (err e) message next h = ground arith

module _ {ℓ κ} {A : Type ℓ} {B : Type κ} where
  pub or_refuse-granted :
      (o : Option A) (message : String) (next : A → Outcome B) {result : B}
      → (or_refuse o message >>= next) ≡ granted result
      → (value : A) × (o ≡ some value) × (next value ≡ granted result)
  or_refuse-granted none message next h = ground arith
  or_refuse-granted (some value) message next h = (value, refl, h)

pub granted-injective {ℓ} : {A : Type ℓ} {a b : A} → granted a ≡ granted b → a ≡ b
granted-injective h = cc

pub not_above : (n bound : ℕ) → ltb bound n ≡ false → n ≤ bound
not_above n bound h = ground arith

pub refuse_if-passed :
    (test : Bool) (message : String) → refuse_if test message ≡ granted tt → test ≡ false
refuse_if-passed true message h = ground arith
refuse_if-passed false message h = refl

pub holds : (valid : Bool) → (if valid then false else true) ≡ false → valid ≡ true
holds true h = refl
holds false h = ground arith

pub some-injective {ℓ} : {A : Type ℓ} {a b : A} → some a ≡ some b → a ≡ b
some-injective h = cc

pub same_text : (s t : String) → (if str_eq s t then false else true) ≡ false → s ≡ t
same_text s t h = elim (Bool-cases (str_eq s t)) [
  | inl same ↦ (eq_iff s t).0 same
  | inr other ↦ absurd (ground arith)
]

pub strip_prefix-some : (p s t : String) → strip_prefix p s ≡ some t → s ≡ p ++ t
unfolding strip_prefix
strip_prefix-some String.[] s t h = let same : s ≡ t = cc in same ∙ sym (append.nil t)
strip_prefix-some (String.◌∷◌ c p) String.[] t h = ground arith
strip_prefix-some (String.◌∷◌ c p) (String.◌∷◌ d s) t h = elim (Bool-cases (code c == code d)) [
  | inl same ↦
      let rest : strip_prefix p s ≡ some t = ground arith in
      let letter : d ≡ c = Char-path d c (sym ((==_iff (code c) (code d)).0 same)) in
      ap (λ (e : Char). String.◌∷◌ e s) letter
      ∙ ap (String.◌∷◌ c) (strip_prefix-some p s t rest)
      ∙ sym (append.cons c p t)
  | inr other ↦ absurd (ground arith)
]
