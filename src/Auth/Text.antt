-- ===== src/Auth/Text.antt =====
-- The text functions of a bearer token: `str::strip_prefix`, `split('.')` and `rsplit_once('.')`, as
-- src/auth.rs uses them, and how the last two agree.
use Prim.Native.Char.{Char, code}
use loomabase.Base.{String, Option, none, some, List, [], ◌∷◌, ◌==◌, if◌then◌else◌}

unfoldable pub strip_prefix : String → String → Option String
strip_prefix String.[] s = some s
strip_prefix (String.◌∷◌ c p) String.[] = none
strip_prefix (String.◌∷◌ c p) (String.◌∷◌ d s) =
    let rest = strip_prefix p s in if code c == code d then rest else none

abbrev pub add_first : Char → List String → List String
add_first c [] = String.◌∷◌ c "" ∷ []
add_first c (part ∷ parts) = String.◌∷◌ c part ∷ parts

-- `split('.')`
unfoldable pub split_dots : String → List String
split_dots String.[] = "" ∷ []
split_dots (String.◌∷◌ c s) =
    let rest = split_dots s in if code c == 0x2E then "" ∷ rest else add_first c rest

abbrev pub cut_at : Char → String → Option (String × String) → Option (String × String)
cut_at c s (some (before, after)) = some (String.◌∷◌ c before, after)
cut_at c s none = if code c == 0x2E then some ("", s) else none

-- `rsplit_once('.')`
unfoldable pub rsplit_once : String → Option (String × String)
rsplit_once String.[] = none
rsplit_once (String.◌∷◌ c s) = cut_at c s (rsplit_once s)
