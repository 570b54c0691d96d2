-- ===== src/Rust/Fields.antt =====
-- field_type and camel of generate_gates.py: the type of a field, and the name it has in JSON.
pub mod Balanced
pub mod Names
use samgita.Prelude.{
  split, ℕ, zero, suc, ◌+◌, ◌-◌, Bool, true, false, Option, none, some, Text, codes, if◌then◌else◌,
  ◌==◌, ◌&&◌, leb, has, List, [], ◌∷◌, ◌++◌, is_space,
}

-- The depth, which a `>` of an arrow takes below 0: `negsuc n` is -(n + 1).
pub data ℤ : Type 0 where
  pos negsuc : ℕ → ℤ

abbrev pub deeper : ℤ → ℤ
deeper (pos n) = pos (suc n)
deeper (negsuc zero) = pos zero
deeper (negsuc (suc n)) = negsuc n

abbrev pub outer : ℤ → ℤ
outer (pos zero) = negsuc zero
outer (pos (suc n)) = pos n
outer (negsuc n) = negsuc (suc n)

abbrev pub is_zero : ℤ → Bool
is_zero (pos zero) = true
is_zero _ = false

abbrev pub opens : Text
opens = codes "<([{"

abbrev pub closes : Text
closes = codes ">)]}"

abbrev pub comma : ℕ
comma = b','

-- depth += char in "<([{"; depth -= char in ">)]}"
unfoldable pub move : ℕ → ℤ → ℤ
move c depth =
    let moved = if has c opens then deeper depth else depth in
    if has c closes then outer moved else moved

abbrev pub add : ℕ → Option Text → Option Text
add c none = none
add c (some front) = some (c ∷ front)

-- The loop: what stands before the first comma at depth 0; none is the ValueError.
unfoldable pub until_comma : ℤ → Text → Option Text
unfolding move
until_comma depth [] = none
until_comma depth (c ∷ t) =
    let rest = until_comma (move c depth) t in
    if c == comma && is_zero (move c depth) then some [] else add c rest

-- text.lstrip() and text.rstrip()
left_strip : Text → Text
left_strip [] = []
left_strip (c ∷ t) = let rest = left_strip t in if is_space c then rest else c ∷ t

right_strip : Text → Text
right_strip [] = []
right_strip (c ∷ t) = elim (right_strip t) [
  | [] ↦ if is_space c then [] else c ∷ []
  | d ∷ rest ↦ c ∷ d ∷ rest
]

unfoldable pub strip : Text → Text
unfolding left_strip right_strip
strip t = right_strip (left_strip t)

-- field_type(text, start), on what follows start
unfoldable pub field_type : Text → Option Text
unfolding until_comma strip
field_type t = elim (until_comma (pos 0) t) [ none ↦ none | some front ↦ some (strip front) ]

-- text.upper(), for one ASCII letter: the names of Rust fields are ASCII
unfoldable pub upper : ℕ → ℕ
upper c = if leb b'a' c && leb c b'z' then c - 32 else c

-- part[:1].upper() + part[1:]
unfoldable pub capital : Text → Text
unfolding upper
capital [] = []
capital (c ∷ t) = upper c ∷ t

unfoldable pub capitals : List Text → Text
unfolding capital
capitals [] = []
capitals (part ∷ parts) = capital part ++ capitals parts

-- camel(name). A split has a first part.
unfoldable pub camel : Text → Text
unfolding split capitals
camel name = elim (split b'_' name) [ [] ↦ [] | first ∷ tail ↦ first ++ capitals tail ]
