-- ===== src/Rust/Fields/Balanced.antt =====
-- The grammar of the types that field_type is meant for.
use samgita.Prelude.{
  ℕ, suc, Bool, true, false, Option, some, Text, ◌==◌, ◌&&◌, has, [], ◌∷◌, ◌++◌, append_assoc,
  append-nil, ◌≡◌, ◌≢◌, refl, sym, ap, ◌∙◌, arith,
}
use samgita.Rust.Fields.{
  ℤ, pos, deeper, outer, is_zero, opens, closes, comma, add, move, until_comma, strip, field_type,
}

-- Text with its brackets in pairs: a character that is no bracket, or a group between two brackets.
pub data Balanced : Type 0 where
  empty : Balanced
  char : (c : ℕ) → has c opens ≡ false → has c closes ≡ false → Balanced → Balanced
  group :
      (left right : ℕ)
      → has left opens ≡ true
      → has right closes ≡ true
      → Balanced
      → Balanced
      → Balanced

abbrev pub print : Balanced → Text
print empty = []
print (char c p q rest) = c ∷ print rest
print (group left right p q inner rest) = left ∷ (print inner ++ (right ∷ print rest))

-- No comma stands outside of a group.
abbrev pub IsType : Balanced → Type 0
IsType empty = Unit
IsType (char c p q rest) = (c ≢ comma) × IsType rest
IsType (group left right p q inner rest) = IsType rest

-- The characters of a text, in front of a result.
prepend : Text → Option Text → Option Text
prepend [] found = found
prepend (c ∷ front) found = add c (prepend front found)

prepend-append :
    (s t : Text) (found : Option Text) → prepend (s ++ t) found ≡ prepend s (prepend t found)
unfolding prepend
prepend-append [] t found = refl
prepend-append (c ∷ s) t found = ap (add c) (prepend-append s t found)

prepend-some : (s t : Text) → prepend s (some t) ≡ some (s ++ t)
unfolding prepend
prepend-some [] t = refl
prepend-some (c ∷ s) t = ap (add c) (prepend-some s t)

move-char : (c : ℕ) (depth : ℤ) → has c opens ≡ false → has c closes ≡ false → move c depth ≡ depth
unfolding move
move-char c depth p q = rw (p, q) refl

move-open : (c : ℕ) (depth : ℤ) → has c opens ≡ true → move c depth ≡ deeper depth
unfolding move
move-open c depth p = let no_close : has c closes ≡ false = ground arith in rw (p, no_close) refl

move-close : (c : ℕ) (depth : ℤ) → has c closes ≡ true → move c depth ≡ outer depth
unfolding move
move-close c depth p = let no_open : has c opens ≡ false = ground arith in rw (p, no_open) refl

until_comma-step :
    (c : ℕ) (depth after : ℤ) (t : Text)
    → move c depth ≡ after
    → (c == comma && is_zero after) ≡ false
    → until_comma depth (c ∷ t) ≡ add c (until_comma after t)
unfolding until_comma
until_comma-step c depth after t moved goes = rw (moved, goes) refl

and_false : (b : Bool) → (b && false) ≡ false
and_false true = refl
and_false false = refl

-- A text that is passed over one level deeper is passed over as a group.
until_comma-group :
    (left right n : ℕ) (inner : Text) (after : ℤ) (t : Text)
    → has left opens ≡ true
    → has right closes ≡ true
    → deeper after ≡ pos (suc n)
    → outer (pos (suc n)) ≡ after
    → ((u : Text)
        → until_comma (pos (suc n)) (inner ++ u) ≡ prepend inner (until_comma (pos (suc n)) u))
    → until_comma after (left ∷ (inner ++ (right ∷ t)))
      ≡ add left (prepend inner (add right (until_comma after t)))
until_comma-group left right n inner after t p q down up passes =
    let no_comma : (right == comma && is_zero after) ≡ false = ground arith in
    until_comma-step left after (pos (suc n)) (inner ++ (right ∷ t)) (move-open left after p ∙ down)
      (and_false (left == comma))
    ∙ ap (add left) (
        passes (right ∷ t)
        ∙ ap (prepend inner) (
            until_comma-step right (pos (suc n)) after t (move-close right (pos (suc n)) q ∙ up)
              no_comma))

-- What is behind a group, in front of a result.
prepend-group :
    (left right : ℕ) (inner rest : Text) (found : Option Text)
    → add left (prepend inner (add right (prepend rest found)))
      ≡ prepend (left ∷ (inner ++ (right ∷ rest))) found
unfolding prepend
prepend-group left right inner rest found =
    ap (add left) (sym (prepend-append inner (right ∷ rest) found))

-- Inside of a group everything balanced is passed over.
until_comma-inside :
    (b : Balanced) (n : ℕ) (t : Text)
    → until_comma (pos (suc n)) (print b ++ t) ≡ prepend (print b) (until_comma (pos (suc n)) t)
unfolding prepend
until_comma-inside empty n t = refl
until_comma-inside (char c p q rest) n t =
    until_comma-step c (pos (suc n)) (pos (suc n)) (print rest ++ t) (move-char c _ p q)
      (and_false (c == comma))
    ∙ ap (add c) (until_comma-inside rest n t)
until_comma-inside (group left right p q inner rest) n t =
    ap (λ u. until_comma (pos (suc n)) (left ∷ u))
      (append_assoc (print inner) (right ∷ print rest) t)
    ∙ until_comma-group left right (suc n) (print inner) (pos (suc n)) (print rest ++ t) p q refl
        refl (λ u. until_comma-inside inner (suc n) u)
    ∙ ap (λ found. add left (prepend (print inner) (add right found))) (until_comma-inside rest n t)
    ∙ prepend-group left right (print inner) (print rest) (until_comma (pos (suc n)) t)

-- Outside of a group a type is passed over.
until_comma-outside :
    (b : Balanced) (t : Text)
    → IsType b
    → until_comma (pos 0) (print b ++ t) ≡ prepend (print b) (until_comma (pos 0) t)
unfolding prepend
until_comma-outside empty t h = refl
until_comma-outside (char c p q rest) t (h, hs) =
    until_comma-step c (pos 0) (pos 0) (print rest ++ t) (move-char c (pos 0) p q) (ground arith)
    ∙ ap (add c) (until_comma-outside rest t hs)
until_comma-outside (group left right p q inner rest) t h =
    ap (λ u. until_comma (pos 0) (left ∷ u)) (append_assoc (print inner) (right ∷ print rest) t)
    ∙ until_comma-group left right 0 (print inner) (pos 0) (print rest ++ t) p q refl refl
        (λ u. until_comma-inside inner 0 u)
    ∙ ap (λ found. add left (prepend (print inner) (add right found)))
        (until_comma-outside rest t h)
    ∙ prepend-group left right (print inner) (print rest) (until_comma (pos 0) t)

until_comma-comma : (t : Text) → until_comma (pos 0) (comma ∷ t) ≡ some []
unfolding until_comma move
until_comma-comma t = refl

-- The type of a field is what stands before the comma behind it, commas inside of its brackets included.
pub field_type-print :
    (b : Balanced) (t : Text)
    → IsType b
    → field_type (print b ++ (comma ∷ t)) ≡ some (strip (print b))
unfolding field_type
field_type-print b t h =
    let found : until_comma (pos 0) (print b ++ (comma ∷ t)) ≡ some (print b) =
      until_comma-outside b (comma ∷ t) h
      ∙ ap (prepend (print b)) (until_comma-comma t)
      ∙ prepend-some (print b) []
      ∙ ap some (append-nil (print b)) in
    rw (field_type, found) refl
