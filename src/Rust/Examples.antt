-- ===== src/Rust/Examples.antt =====
-- The scanners on pieces of Rust, and their theorems there.
use samgita.Prelude.{some, none, codes, is_space, split, [], ◌∷◌, ◌++◌, length, ◌≡◌, refl, arith}
use samgita.Rust.Bodies.{quote, body_end}
use samgita.Rust.Bodies.Blocks.{
  escape, Body, block, literal, empty as empty_body, print as print_body, body_end-print,
}
use samgita.Rust.Fields.{field_type, strip, camel, upper, comma}
use samgita.Rust.Fields.Balanced.{Balanced, char, group, empty, print, field_type-print}
use samgita.Rust.Fields.Names.{snake, humps, camel-snake}

-- A brace in a string literal does not count.
body_end-literal : body_end (codes " a: \"}\", b: { c }, } rest") ≡ some 19
unfolding body_end
body_end-literal = refl

-- The arrow of a function type takes the depth below 0, so that the comma behind it is not found.
field_type-arrow : field_type (codes "fn(u8) -> u8, next: u8,") ≡ none
unfolding field_type is_space
field_type-arrow = refl

camel-example : camel (codes "turn_id") ≡ codes "turnId"
unfolding camel split upper
camel-example = refl

camel-snake_example : camel (codes "turn" ++ snake ((8, codes "d") ∷ [])) ≡ codes "turnId"
unfolding humps
camel-snake_example =
    camel-snake (codes "turn") ((8, codes "d") ∷ []) refl ((omega arith, refl), tt)

-- { "\"" }
abbrev small_body : Body
small_body = block (literal (escape quote ∷ []) empty_body) empty_body

body_end-print_example :
    body_end (print_body small_body ++ (b'}' ∷ codes " struct"))
    ≡ some (length (print_body small_body))
body_end-print_example = body_end-print small_body (codes " struct")

-- <,>
abbrev small_type : Balanced
small_type = group b'<' b'>' refl refl (char comma refl refl empty) empty

field_type-print_example :
    field_type (print small_type ++ (comma ∷ codes " next")) ≡ some (strip (print small_type))
field_type-print_example = field_type-print small_type (codes " next") tt
