-- ===== src/Auth/Text.antt =====
-- The text operations that the authentication uses, over code points. What Unicode says of case and of
-- decimal digits is a parameter, `Letters`.
use Prim.Native.Char.{code}
use backend_ssas_rrhh.Base.{
  ℕ, Bool, true, false, ◌&&◌, ◌||◌, List, [], ◌∷◌, String, leb, ◌==◌, if◌then◌else◌,
}
use mathlib.Core.List.{reverse}

abbrev pub Text : Type 0
Text = List ℕ

abbrev pub text : String → Text
text String.[] = []
text (String.◌∷◌ c s) = code c ∷ text s

abbrev pub text_eq : Text → Text → Bool
text_eq [] [] = true
text_eq [] (_ ∷ _) = false
text_eq (_ ∷ _) [] = false
text_eq (a ∷ s) (b ∷ t) = a == b && text_eq s t

-- What Python's `str` and the database know of letters: `s.lower()`, `s.casefold()`, the `\d` of a
-- pattern, and `lower` of SQL.
pub record Letters : Type 0 where
  pub lower : Text → Text
  pub casefold : Text → Text
  pub is_decimal : ℕ → Bool
  pub sql_lower : Text → Text

-- `[a-z]`, `[A-Z]`, `[0-9]`
abbrev pub is_lower : ℕ → Bool
is_lower c = leb 97 c && leb c 122

abbrev pub is_upper : ℕ → Bool
is_upper c = leb 65 c && leb c 90

abbrev pub is_ascii_digit : ℕ → Bool
is_ascii_digit c = leb 48 c && leb c 57

-- `\s`: the white space of `str.isspace`.
abbrev pub is_space : ℕ → Bool
is_space c =
    (leb 9 c && leb c 13)
    || (leb 28 c && leb c 32)
    || c == 133
    || c == 160
    || c == 5760
    || (leb 8192 c && leb c 8202)
    || c == 8232
    || c == 8233
    || c == 8239
    || c == 8287
    || c == 12288

unfoldable pub lstrip : Text → Text
lstrip [] = []
lstrip (c ∷ s) = let rest = lstrip s in if is_space c then rest else c ∷ s

-- `s.strip()`
unfoldable pub strip : Text → Text
unfolding lstrip
strip s = reverse (lstrip (reverse (lstrip s)))

-- `s.split("@", 1)[0]`
unfoldable pub before_at : Text → Text
before_at [] = []
before_at (c ∷ s) = let rest = before_at s in if c == 64 then [] else c ∷ rest

abbrev pub is_prefix : Text → Text → Bool
is_prefix [] t = true
is_prefix (a ∷ s) [] = false
is_prefix (a ∷ s) (b ∷ t) = a == b && is_prefix s t

-- `s in t`
unfoldable pub is_infix : Text → Text → Bool
is_infix s [] = is_prefix s []
is_infix s (c ∷ t) = is_prefix s (c ∷ t) || is_infix s t
