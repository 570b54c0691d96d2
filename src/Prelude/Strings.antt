-- ===== src/Prelude/Strings.antt =====
-- Text and bytes as lists of numbers, and dictionaries keyed by text.
use Prim.Native.Char.{code}
use Prim.Native.String.{String, ◌++◌ as str_append}
use Prim.Native.Nat.{ℕ}
use mathlib.Core.Path.{◌≡◌, refl}
use mathlib.Core.Bool.{Bool, true, false, ◌&&◌, ◌||◌}
use mathlib.Core.List.{List, [], ◌∷◌, ◌++◌}
use mathlib.Core.Option.{Option, none, some}
use native.Mathlib.Omega.{arith}
pub use text.Mathlib.Text.{◌==◌ as str_eq}
use samgita.Prelude.Tests.{◌==◌, leb, if◌then◌else◌}

-- The code points of a text, or its bytes.
abbrev pub Text : Type 0
Text = List ℕ

abbrev pub codes : String → Text
codes String.[] = []
codes (String.◌∷◌ c s) = code c ∷ codes s

-- "".join(parts), and f-strings.
unfoldable pub join : List String → String
join [] = ""
join (s ∷ parts) = str_append s (join parts)

-- text.startswith(prefix)
unfoldable pub starts_with : String → String → Bool
starts_with s String.[] = true
starts_with String.[] (String.◌∷◌ d p) = false
starts_with (String.◌∷◌ c s) (String.◌∷◌ d p) = code c == code d && starts_with s p

-- text.endswith(suffix)
unfoldable pub ends_with : String → String → Bool
ends_with String.[] suffix = str_eq String.[] suffix
ends_with (String.◌∷◌ c s) suffix = str_eq (String.◌∷◌ c s) suffix || ends_with s suffix

after_slash : String → String → String
after_slash part String.[] = part
after_slash part (String.◌∷◌ c s) = if code c == b'/' then after_slash s s else after_slash part s

-- text.rsplit("/", 1)[-1]
unfoldable pub last_segment : String → String
unfolding after_slash
last_segment s = after_slash s s

-- `value in (...)`, for strings.
abbrev pub member : String → List String → Bool
member s [] = false
member s (t ∷ ts) = str_eq s t || member s ts

abbrev pub text_eq : Text → Text → Bool
text_eq [] [] = true
text_eq (a ∷ as') (b ∷ bs) = a == b && text_eq as' bs
text_eq _ _ = false

-- str.startswith and str.removeprefix in one: what follows the prefix.
abbrev pub strip_prefix : Text → Text → Option Text
strip_prefix [] t = some t
strip_prefix (p ∷ ps) [] = none
strip_prefix (p ∷ ps) (c ∷ t) = if p == c then strip_prefix ps t else none

-- The characters for which str.isspace holds, and which `\s` matches.
unfoldable pub is_space : ℕ → Bool
is_space c =
    leb 9 c && leb c 13
    || leb 28 c && leb c 32
    || c == 133
    || c == 160
    || c == 5760
    || leb 8192 c && leb c 8202
    || c == 8232
    || c == 8233
    || c == 8239
    || c == 8287
    || c == 12288

unfoldable pub is_digit : ℕ → Bool
is_digit c = leb b'0' c && leb c b'9'

pub strip_prefix-append : (p t u : Text) → strip_prefix p t ≡ some u → t ≡ p ++ u
strip_prefix-append [] t u h = ground arith
strip_prefix-append (p ∷ ps) [] u h = ground arith
strip_prefix-append (p ∷ ps) (c ∷ t) u h = ground (arith, strip_prefix-append ps t u)

pub text_eq_refl : (t : Text) → text_eq t t ≡ true
text_eq_refl [] = refl
text_eq_refl (c ∷ t) = ground (arith, text_eq_refl t)

pub text_eq→eq : (s t : Text) → text_eq s t ≡ true → s ≡ t
text_eq→eq [] [] h = refl
text_eq→eq [] (b ∷ bs) h = ground arith
text_eq→eq (a ∷ as') [] h = ground arith
text_eq→eq (a ∷ as') (b ∷ bs) h = ground (arith, text_eq→eq as' bs)
