-- ===== src/Rust/Bodies.antt =====
-- body_end of generate_gates.py: where the body of a declaration ends.
pub mod Blocks
use samgita.Prelude.{
  ℕ, zero, suc, ◌+◌, ◌-◌, Bool, true, false, Option, none, some, Text, if◌then◌else◌, ◌==◌, List,
  [], ◌∷◌,
}

abbrev pub quote : ℕ
quote = b'"'

abbrev pub backslash : ℕ
backslash = 92

-- The loop from the position index; none is the ValueError.
unfoldable pub scan_body : (index depth : ℕ) → (quoted escaped : Bool) → Text → Option ℕ
scan_body index depth quoted escaped [] = none
scan_body index depth true true (c ∷ t) = scan_body (suc index) depth true false t
scan_body index depth true false (c ∷ t) =
    let escape = scan_body (suc index) depth true true t in
    let ended = scan_body (suc index) depth false false t in
    let inside = scan_body (suc index) depth true false t in
    if c == backslash then escape else if c == quote then ended else inside
scan_body index depth false escaped (c ∷ t) =
    let text = scan_body (suc index) depth true escaped t in
    let deeper = scan_body (suc index) (depth + 1) false escaped t in
    let outer = scan_body (suc index) (depth - 1) false escaped t in
    let same = scan_body (suc index) depth false escaped t in
    if c == quote
    then text
    else if c == b'{'
    then deeper
    else if c == b'}'
    then if depth - 1 == 0 then some index else outer
    else if depth == 0
    then some index
    else same

-- body_end(text, start), on what follows start
unfoldable pub body_end : Text → Option ℕ
unfolding scan_body
body_end t = scan_body 0 1 false false t
