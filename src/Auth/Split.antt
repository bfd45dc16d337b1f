-- ===== src/Auth/Split.antt =====
-- The parts of a token: joined by dots they are the token, and cutting it at its last dot gives the
-- part before and the last part.
use Prim.Native.Char.{Char, code}
use Prim.Native.String.{◌++◌}
use Prim.Native.String.append
use package.text.Mathlib.TextEquality.{Char-path}
use loomabase.Base.{
  String, false, ◌≡◌, refl, sym, ap, ◌∙◌, Option, none, some, List, [], ◌∷◌, ◌==◌, inl, inr,
  Bool-cases, ==_iff, arith,
}
use loomabase.Auth.Text.{split_dots, rsplit_once, add_first, cut_at}

abbrev join_dots : List String → String
join_dots [] = ""
join_dots (part ∷ []) = part
join_dots (part ∷ next ∷ parts) = part ++ ("." ++ join_dots (next ∷ parts))

abbrev glue : String → String → Option (String × String) → String × String
glue part next none = (part, next)
glue part next (some cut) = (part ++ ("." ++ cut.0), cut.1)

-- The parts, cut before the last one.
abbrev cut_of : List String → Option (String × String)
cut_of [] = none
cut_of (part ∷ []) = none
cut_of (part ∷ next ∷ parts) = some (glue part next (cut_of (next ∷ parts)))

dot-cons : (c : Char) (s : String) → code c ≡ 0x2E → "." ++ s ≡ String.◌∷◌ c s
dot-cons c s h =
    append.cons "." String.[] s
    ∙ ap (λ (t : String). String.◌∷◌ "." t) (append.nil s)
    ∙ ap (λ (d : Char). String.◌∷◌ d s) (Char-path "." c (sym h))

join-add_first :
    (c : Char) (parts : List String)
    → join_dots (add_first c parts) ≡ String.◌∷◌ c (join_dots parts)
join-add_first c [] = refl
join-add_first c (part ∷ []) = refl
join-add_first c (part ∷ next ∷ parts) = append.cons c part ("." ++ join_dots (next ∷ parts))

cut-dot :
    (c : Char) (part : String) (parts : List String)
    → code c ≡ 0x2E
    → cut_at c (join_dots (part ∷ parts)) (cut_of (part ∷ parts)) ≡ cut_of ("" ∷ part ∷ parts)
cut-dot c part [] h = ground arith
cut-dot c part (next ∷ parts) h =
    let x = glue part next (cut_of (next ∷ parts)) in
    ap (λ (t : String). some (t, x.1)) (sym (append.nil ("." ++ x.0) ∙ dot-cons c x.0 h))

glue-cons :
    (c : Char) (part next : String) (o : Option (String × String))
    → (String.◌∷◌ c ((glue part next o).0), (glue part next o).1) ≡ glue (String.◌∷◌ c part) next o
glue-cons c part next none = refl
glue-cons c part next (some cut) =
    ap (λ (t : String). (t, cut.1)) (sym (append.cons c part ("." ++ cut.0)))

cut-add_first :
    (c : Char) (part : String) (parts : List String)
    → (code c == 0x2E) ≡ false
    → cut_at c (join_dots (part ∷ parts)) (cut_of (part ∷ parts))
      ≡ cut_of (add_first c (part ∷ parts))
cut-add_first c part [] h = ground arith
cut-add_first c part (next ∷ parts) h = ap some (glue-cons c part next (cut_of (next ∷ parts)))

split-dot :
    (c : Char) (s : String) → code c ≡ 0x2E → split_dots (String.◌∷◌ c s) ≡ "" ∷ split_dots s
unfolding split_dots
split-dot c s h = ground arith

split-other :
    (c : Char) (s : String)
    → (code c == 0x2E) ≡ false
    → split_dots (String.◌∷◌ c s) ≡ add_first c (split_dots s)
unfolding split_dots
split-other c s h = ground arith

-- The parts of a text: there is one, they join to the text, and they cut as the text does.
record IsSplit (s : String) (parts : List String) : Type 0 where
  first : String
  others : List String
  some_part : parts ≡ first ∷ others
  joined : join_dots parts ≡ s
  cut : rsplit_once s ≡ cut_of parts

cons-IsSplit :
    (c : Char) (s : String)
    → IsSplit s (split_dots s)
    → IsSplit (String.◌∷◌ c s) (split_dots (String.◌∷◌ c s))
unfolding rsplit_once
cons-IsSplit c s known =
    let first = known.first in
    let others = known.others in
    let parts : split_dots s ≡ first ∷ others = known.some_part in
    let joined : join_dots (first ∷ others) ≡ s = ap join_dots (sym parts) ∙ known.joined in
    let cut : rsplit_once s ≡ cut_of (first ∷ others) = known.cut ∙ ap cut_of parts in
    elim (Bool-cases (code c == 0x2E)) [
      | inl dot ↦
          let h : code c ≡ 0x2E = (==_iff (code c) 0x2E).0 dot in
          let now : split_dots (String.◌∷◌ c s) ≡ "" ∷ first ∷ others =
            split-dot c s h ∙ ap (λ (l : List String). "" ∷ l) parts in
          record {
            first = "";
            others = first ∷ others;
            some_part = now;
            joined =
                ap join_dots now
                ∙ append.nil ("." ++ join_dots (first ∷ others))
                ∙ dot-cons c (join_dots (first ∷ others)) h
                ∙ ap (String.◌∷◌ c) joined;
            cut =
                ap (cut_at c s) cut
                ∙ ap (λ (t : String). cut_at c t (cut_of (first ∷ others))) (sym joined)
                ∙ cut-dot c first others h
                ∙ ap cut_of (sym now);
          }
      | inr other ↦
          let now : split_dots (String.◌∷◌ c s) ≡ String.◌∷◌ c first ∷ others =
            split-other c s other ∙ ap (add_first c) parts in
          record {
            first = String.◌∷◌ c first;
            others = others;
            some_part = now;
            joined =
                ap join_dots now ∙ join-add_first c (first ∷ others) ∙ ap (String.◌∷◌ c) joined;
            cut =
                ap (cut_at c s) cut
                ∙ ap (λ (t : String). cut_at c t (cut_of (first ∷ others))) (sym joined)
                ∙ cut-add_first c first others other
                ∙ ap cut_of (sym now);
          }
    ]

split_dots-IsSplit : (s : String) → IsSplit s (split_dots s)
unfolding rsplit_once split_dots
split_dots-IsSplit String.[] = record {
  first = "";
  others = [];
  some_part = refl;
  joined = refl;
  cut = refl;
}
split_dots-IsSplit (String.◌∷◌ c s) = cons-IsSplit c s (split_dots-IsSplit s)

-- A text of three parts, joined and cut.
pub three_parts :
    (token header payload signature : String)
    → split_dots token ≡ header ∷ payload ∷ signature ∷ []
    → (token ≡ header ++ ("." ++ (payload ++ ("." ++ signature))))
      × (rsplit_once token ≡ some (header ++ ("." ++ payload), signature))
three_parts token header payload signature h =
    let known = split_dots-IsSplit token in
    (sym known.joined ∙ ap join_dots h, known.cut ∙ ap cut_of h)
