-- ===== src/Ordinary/Counts.antt =====
-- `check_test_count` of check_ordinary.py: the result line that a step's log must show.
use package.text.Mathlib.Text.{starts_with}
use samgita.Prelude.{
  ℕ, Bool, true, Option, none, some, String, str_eq, Text, codes, str, text_eq, ◌==◌, any,
  if◌then◌else◌, List, [], ◌∷◌, ◌++◌,
}

-- The lines of a text, without their ends: where re.M lets ^ and $ match.
unfoldable pub lines : Text → List Text
lines [] = [] ∷ []
lines (c ∷ t) = elim (lines t) [
  | [] ↦ [] ∷ []
  | line ∷ rest ↦ if c == b'\n' then [] ∷ line ∷ rest else (c ∷ line) ∷ rest
]

abbrev pub driver_cases : ℕ
driver_cases = 166

abbrev pub extra_driver_cases : ℕ
extra_driver_cases = 26

-- The line that the regular expression of a step matches; the other steps have none.
unfoldable pub expected_line : String → Option Text
expected_line name =
    if starts_with name "websocket-"
    then some (codes "16 tests, 0 failures, 13 excluded")
    else if str_eq name "stdio-cleanup-phases"
    then some (codes "4 tests, 0 failures")
    else if str_eq name "query-uncertainty"
    then some (codes "29 tests, 0 failures")
    else if starts_with name "ordinary-extra-"
    then some (str extra_driver_cases ++ codes " tests, 0 failures")
    else if starts_with name "ordinary-"
    then some (str driver_cases ++ codes " tests, 0 failures")
    else if str_eq name "independent-consumer"
    then some (codes "3 tests, 0 failures")
    else none

-- Whether the call returns None; if not, it returns its message.
unfoldable pub check_test_count : String → Text → Bool
unfolding expected_line lines
check_test_count name log = elim (expected_line name) [
  | none ↦ true
  | some expected ↦ any (λ line. text_eq line expected) (lines log)
]
