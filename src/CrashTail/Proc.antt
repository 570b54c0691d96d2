-- ===== src/CrashTail/Proc.antt =====
-- How the crash controller reads /proc: `facts`, `argv` and `homes`.
use samgita.Prelude.{
  ℕ, zero, suc, Bool, true, false, not, Option, none, some, String, Text, codes, text_eq, has,
  is_space, int, if◌then◌else◌, ◌&&◌, ltb, leb, ◌==◌, length, all, is_digit, Result, ok, raise,
  ◌>>=◌, ◌>>◌, List, [], ◌∷◌, ◌++◌, ◌≡◌, refl, arith,
}

-- What the controller raises; `runtime_error` is a check of its own that fails.
pub data Failure : Type 0 where
  runtime_error : String → Failure
  os_error value_error index_error type_error : Failure

-- require(condition, message)
abbrev pub require : Bool → String → Result Failure (Unit {0})
require true message = ok tt
require false message = raise (runtime_error message)

-- text.rsplit(")", 1)[1]: what follows the last parenthesis; `none` if there is none.
unfoldable pub after_last_paren : Text → Option Text
after_last_paren [] = none
after_last_paren (c ∷ t) = elim (after_last_paren t) [
  | some rest ↦ some rest
  | none ↦ if c == b')' then some t else none
]

-- text.split(): the words of a text, with the word in progress.
add_word : Text → List Text → List Text
add_word [] ws = ws
add_word (c ∷ w) ws = (c ∷ w) ∷ ws

words_from : Text → Text → List Text
unfolding add_word
words_from word [] = add_word word []
words_from word (c ∷ t) =
    let ended = add_word word (words_from [] t) in
    let longer = words_from (word ++ c ∷ []) t in if is_space c then ended else longer

unfoldable pub words : Text → List Text
unfolding words_from
words t = words_from [] t

abbrev nth : List Text → ℕ → Result Failure Text
nth [] i = raise index_error
nth (x ∷ xs) zero = ok x
nth (x ∷ xs) (suc i) = nth xs i

-- int(part), for a part of /proc/PID/stat: ASCII digits.
number : Text → Result Failure ℕ
number [] = raise value_error
number (c ∷ t) = if all is_digit (c ∷ t) then ok (int (c ∷ t)) else raise value_error

pub record Facts : Type 0 where
  pub ppid : ℕ
  pub pgrp : ℕ
  pub session : ℕ
  pub start : Text

unfoldable pub facts : Text → Result Failure Facts
unfolding after_last_paren words number
facts stat = elim (after_last_paren stat) [
  | none ↦ raise index_error
  | some rest ↦
      (let parts = words rest in
        do
          second ← nth parts 1
          ppid ← number second
          third ← nth parts 2
          pgrp ← number third
          fourth ← nth parts 3
          session ← number fourth
          start ← nth parts 19
          ok (record { ppid = ppid; pgrp = pgrp; session = session; start = start }))
]

unfoldable pub equal_facts : Facts → Facts → Bool
equal_facts f g =
    f.ppid == g.ppid && f.pgrp == g.pgrp && f.session == g.session && text_eq f.start g.start

-- data.split(b"\0")
unfoldable pub split_nul : Text → List Text
split_nul [] = [] ∷ []
split_nul (c ∷ t) = elim (split_nul t) [
  | [] ↦ [] ∷ []
  | part ∷ parts ↦ if c == 0 then [] ∷ part ∷ parts else (c ∷ part) ∷ parts
]

-- data[:-1].split(b"\0"), where data ends in NUL.
drop_last_part : List Text → List Text
drop_last_part [] = []
drop_last_part (p ∷ []) = []
drop_last_part (p ∷ q ∷ ps) = p ∷ drop_last_part (q ∷ ps)

abbrev ends_in_nul : Text → Bool
ends_in_nul [] = false
ends_in_nul (c ∷ []) = c == 0
ends_in_nul (c ∷ d ∷ t) = ends_in_nul (d ∷ t)

unfoldable pub argv : Text → Result Failure (List Text)
unfolding split_nul drop_last_part
argv cmdline = do
  require (ltb 0 (length cmdline) && leb (length cmdline) 16384 && ends_in_nul cmdline)
      "Owned argv bound"
  ok (drop_last_part (split_nul cmdline))

-- part.partition(b"="), where the part holds a "=".
partition : Text → Option (Text × Text)
partition [] = none
partition (c ∷ t) = elim (partition t) [
  | none ↦ if c == b'=' then some ([], t) else none
  | some (name, value) ↦ if c == b'=' then some ([], t) else some (c ∷ name, value)
]

-- The values of HOME and CODEX_HOME, if they are set.
pub record Homes : Type 0 where
  pub home : Option Text
  pub codex_home : Option Text

abbrev is_some : Option Text → Bool
is_some none = false
is_some (some t) = true

add_home : Text → Text → Homes → Result Failure Homes
add_home name value h =
    if text_eq name (codes "HOME")
    then (do
      require (not (is_some h.home)) "Duplicate owned home field"
      ok (record h { home = some value }))
    else if text_eq name (codes "CODEX_HOME")
    then (do
      require (not (is_some h.codex_home)) "Duplicate owned home field"
      ok (record h { codex_home = some value }))
    else ok h

add_homes : List Text → Homes → Result Failure Homes
unfolding partition add_home
add_homes [] h = ok h
add_homes (part ∷ parts) h = elim (partition part) [
  | none ↦ add_homes parts h
  | some (name, value) ↦ (do h' ← add_home name value h; add_homes parts h')
]

unfoldable pub homes : Text → Result Failure Homes
unfolding split_nul add_homes
homes environ = do
  require (leb (length environ) 131072) "Owned environment bound"
  add_homes (split_nul environ) (record { home = none; codex_home = none })

-- The name of a process stands in parentheses and may itself hold some: what follows it is found
-- all the same.
after_last_paren-absent : (rest : Text) → has b')' rest ≡ false → after_last_paren rest ≡ none
unfolding after_last_paren
after_last_paren-absent [] h = refl
after_last_paren-absent (c ∷ t) h = ground (arith, after_last_paren-absent t)

pub after_last_paren-name :
    (name rest : Text)
    → has b')' rest ≡ false
    → after_last_paren (name ++ codes ")" ++ rest) ≡ some rest
unfolding after_last_paren
after_last_paren-name [] rest h = ground (arith, after_last_paren-absent rest h)
after_last_paren-name (c ∷ name) rest h = rw (after_last_paren-name name rest h)
