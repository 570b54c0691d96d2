-- ===== src/Rust/Bodies/Blocks.antt =====
-- The grammar of the bodies that body_end is meant for.
use samgita.Prelude.{
  ℕ, suc, ◌+◌, ◌-◌, Bool, true, false, some, Text, ◌==◌, List, [], ◌∷◌, ◌++◌, length, length-append,
  append_assoc, ◌≡◌, ◌≢◌, ap, ◌∙◌, arith,
}
use samgita.Rust.Bodies.{quote, backslash, scan_body, body_end}

-- A piece of a string literal: a character, or a backslash and the character behind it.
pub data Letter : Type 0 where
  letter : (c : ℕ) → c ≢ quote → c ≢ backslash → Letter
  escape : (c : ℕ) → Letter

-- A body: characters that are no quote and no brace, string literals, and blocks.
pub data Body : Type 0 where
  empty : Body
  char : (c : ℕ) → c ≢ quote → c ≢ b'{' → c ≢ b'}' → Body → Body
  literal : List Letter → Body → Body
  block : Body → Body → Body

abbrev pub print_letters : List Letter → Text
print_letters [] = quote ∷ []
print_letters (letter c p q ∷ ls) = c ∷ print_letters ls
print_letters (escape c ∷ ls) = backslash ∷ c ∷ print_letters ls

abbrev pub print : Body → Text
print empty = []
print (char c p q r rest) = c ∷ print rest
print (literal ls rest) = quote ∷ (print_letters ls ++ print rest)
print (block inner rest) = b'{' ∷ (print inner ++ (b'}' ∷ print rest))

differs : (c d : ℕ) → c ≢ d → (c == d) ≡ false
differs c d h = ground arith

inside : (depth : ℕ) → (suc depth == 0) ≡ false
inside depth = ground arith

-- The same position, written in two ways.
at :
    (depth : ℕ) (quoted : Bool) (t : Text) {i j : ℕ}
    → i ≡ j
    → scan_body i depth quoted false t ≡ scan_body j depth quoted false t
at depth quoted t same = ap (λ i. scan_body i depth quoted false t) same

-- A literal is passed over.
scan_body-letters :
    (ls : List Letter) (index depth : ℕ) (t : Text)
    → scan_body index depth true false (print_letters ls ++ t)
      ≡ scan_body (index + length (print_letters ls)) depth false false t
unfolding scan_body
scan_body-letters [] index depth t = at depth false t (omega arith)
scan_body-letters (letter c p q ∷ ls) index depth t =
    rw (differs c backslash q, differs c quote p)
      (scan_body-letters ls (suc index) depth t ∙ at depth false t (omega arith))
scan_body-letters (escape c ∷ ls) index depth t =
    scan_body-letters ls (suc (suc index)) depth t ∙ at depth false t (omega arith)

-- The end of a block inside of another.
scan_body-brace :
    (index depth : ℕ) (t : Text)
    → scan_body index (suc (suc depth)) false false (b'}' ∷ t)
      ≡ scan_body (suc index) (suc depth) false false t
unfolding scan_body
scan_body-brace index depth t = rw (stays) (ap (λ d. scan_body (suc index) d false false t) outer)
  where
    outer : suc (suc depth) - 1 ≡ suc depth
    outer = omega arith

    stays : (suc (suc depth) - 1 == 0) ≡ false
    stays = ground arith

-- A body is passed over, inside of any block.
scan_body-print :
    (body : Body) (index depth : ℕ) (t : Text)
    → scan_body index (suc depth) false false (print body ++ t)
      ≡ scan_body (index + length (print body)) (suc depth) false false t
unfolding scan_body
scan_body-print empty index depth t = at (suc depth) false t (omega arith)
scan_body-print (char c p q r rest) index depth t =
    rw (differs c quote p, differs c b'{' q, differs c b'}' r, inside depth)
      (scan_body-print rest (suc index) depth t ∙ at (suc depth) false t (omega arith))
scan_body-print (literal ls rest) index depth t =
    rw (append_assoc (print_letters ls) (print rest) t) (
      scan_body-letters ls (suc index) (suc depth) (print rest ++ t)
      ∙ scan_body-print rest (suc index + length (print_letters ls)) depth t
      ∙ at (suc depth) false t (omega (arith, length-append (print_letters ls) (print rest))))
scan_body-print (block inner rest) index depth t =
    rw (append_assoc (print inner) (b'}' ∷ print rest) t) (
      ap (λ d. scan_body (suc index) d false false (print inner ++ (b'}' ∷ (print rest ++ t))))
        deeper
      ∙ scan_body-print inner (suc index) (suc depth) (b'}' ∷ (print rest ++ t))
      ∙ scan_body-brace (suc index + length (print inner)) depth (print rest ++ t)
      ∙ scan_body-print rest (suc (suc index + length (print inner))) depth t
      ∙ at (suc depth) false t (omega (arith, length-append (print inner) (b'}' ∷ print rest))))
  where
    deeper : suc depth + 1 ≡ suc (suc depth)
    deeper = omega arith

-- body_end finds the brace behind a body, whatever follows it.
pub body_end-print :
    (body : Body) (rest : Text)
    → body_end (print body ++ (b'}' ∷ rest)) ≡ some (length (print body))
unfolding body_end
body_end-print body rest = rw (scan_body-print body 0 0 (b'}' ∷ rest)) (ap some (omega arith))
