-- ===== src/Legacy/Scan.antt =====
-- violations of check_legacy_runtime.py. A source is the text of a file.
pub mod Found
use samgita.Prelude.{
  ℕ, zero, suc, ◌+◌, ◌-◌, Bool, true, false, not, Option, none, some, String, Text, codes,
  if◌then◌else◌, ◌&&◌, ◌||◌, ltb, leb, ◌==◌, has, any, length, is_space, strip_prefix, List, [],
  ◌∷◌, ◌++◌, map,
}

-- The alternatives of FORBIDDEN, in their order.
abbrev pub forbidden : List Text
forbidden =
    codes "SamgitaProvider"
    ∷ codes "SamgitaMemory"
    ∷ codes "samgita_provider"
    ∷ codes "samgita_memory"
    ∷ codes "Horde"
    ∷ codes "pgvector"
    ∷ codes "ANTHROPIC_API_KEY"
    ∷ codes "CLAUDE_COMMAND"
    ∷ codes "MEMORY_POOL_SIZE"
    ∷ codes "DNS_CLUSTER_QUERY"
    ∷ []

-- The first alternative that matches here, and what follows it.
unfoldable pub match_any : List Text → Text → Option (Text × Text)
match_any [] t = none
match_any (w ∷ ws) t = elim (strip_prefix w t) [
  | none ↦ match_any ws t
  | some rest ↦ some (w, rest)
]

-- FORBIDDEN.finditer(line), with fuel: the positions of the matches, and what was matched.
unfoldable pub find_from : ℕ → ℕ → Text → List (ℕ × Text)
unfolding match_any
find_from zero position t = []
find_from (suc fuel) position [] = []
find_from (suc fuel) position (c ∷ t) = elim (match_any forbidden (c ∷ t)) [
  | none ↦ find_from fuel (suc position) t
  | some found ↦ (position, found.0) ∷ find_from fuel (position + length found.0) found.1
]

unfoldable pub find_all : Text → List (ℕ × Text)
unfolding find_from
find_all line = find_from (suc (length line)) 0 line

-- The characters at which str.splitlines ends a line.
breaks : ℕ → Bool
breaks c = leb 10 c && leb c 13 || leb 28 c && leb c 30 || c == 133 || c == 8232 || c == 8233

starts_newline : Text → Bool
starts_newline [] = false
starts_newline (c ∷ t) = c == 10

extend : ℕ → List Text → List Text
extend c [] = (c ∷ []) ∷ []
extend c (line ∷ lines) = (c ∷ line) ∷ lines

-- source.splitlines(keepends=True)
unfoldable pub split_lines : Text → List Text
unfolding breaks starts_newline extend
split_lines [] = []
split_lines (c ∷ t) =
    let lines = split_lines t in
    if breaks c && not (c == 13 && starts_newline t) then (c ∷ []) ∷ lines else extend c lines

-- line.lstrip().startswith("#")
unfoldable pub is_comment : Text → Bool
is_comment [] = false
is_comment (c ∷ t) = let later = is_comment t in if is_space c then later else c == b'#'

-- [\s,:a-z_]
in_class : ℕ → Bool
in_class c = is_space c || c == b',' || c == b':' || leb b'a' c && leb c b'z' || c == b'_'

-- The length of the run of such characters, and what follows it.
class_run : Text → ℕ × Text
unfolding in_class
class_run [] = (0, [])
class_run (c ∷ t) = let run = class_run t in if in_class c then (suc run.0, run.1) else (0, c ∷ t)

-- NEGATIVE_ATOMS here: the length of the match, and what follows it. The bracket is in no run, so that
-- only the whole run can stand before it.
match_negative : Text → Option (ℕ × Text)
unfolding class_run
match_negative t = elim (strip_prefix (codes "refute app in [") t) [
  | none ↦ none
  | some u ↦ elim (class_run u).1 [
    | [] ↦ none
    | c ∷ rest ↦
        if c == b']' && leb 1 (class_run u).0 && leb (class_run u).0 1000
        then some (16 + (class_run u).0, rest)
        else none
  ]
]

-- NEGATIVE_ATOMS.finditer(source), with fuel: the spans.
spans_from : ℕ → ℕ → Text → List (ℕ × ℕ)
unfolding match_negative
spans_from zero position t = []
spans_from (suc fuel) position [] = []
spans_from (suc fuel) position (c ∷ t) = elim (match_negative (c ∷ t)) [
  | none ↦ spans_from fuel (suc position) t
  | some found ↦ (position, position + found.0) ∷ spans_from fuel (position + found.0) found.1
]

-- path.endswith("_test.exs")
unfoldable pub is_test : Text → Bool
is_test [] = false
is_test (c ∷ t) =
    let later = is_test t in
    elim (strip_prefix (codes "_test.exs") (c ∷ t)) [ some [] ↦ true | _ ↦ later ]

unfoldable pub negatives : Text → Text → List (ℕ × ℕ)
unfolding spans_from is_test
negatives path source = if is_test path then spans_from (suc (length source)) 0 source else []

unfoldable pub within : ℕ → List (ℕ × ℕ) → Bool
within position spans = any (λ span. leb span.0 position && ltb position span.1) spans

-- A line of the report.
pub record Violation : Type 0 where
  pub path : Text
  pub line_no : ℕ
  pub identifier : Text

-- The loop over the matches of a line.
unfoldable pub report : Text → List (ℕ × ℕ) → ℕ → ℕ → Text → List (ℕ × Text) → List Violation
unfolding within is_comment
report path spans offset line_no line [] = []
report path spans offset line_no line (found ∷ rest) =
    let others = report path spans offset line_no line rest in
    if is_comment line
    then others
    else if within (offset + found.0) spans
    then others
    else record { path = path; line_no = line_no; identifier = found.1 } ∷ others

-- The loop over the lines.
unfoldable pub report_lines : Text → List (ℕ × ℕ) → ℕ → ℕ → List Text → List Violation
unfolding report find_all
report_lines path spans offset line_no [] = []
report_lines path spans offset line_no (line ∷ lines) =
    report path spans offset line_no line (find_all line)
    ++ report_lines path spans (offset + length line) (suc line_no) lines

unfoldable pub violations : Text → Text → List Violation
unfolding report_lines negatives split_lines
violations path source = report_lines path (negatives path source) 0 1 (split_lines source)
