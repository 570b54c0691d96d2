-- ===== src/Stdio/Bytes.antt =====
-- NUL bytes in what the two pump threads of stdio_owner.py move.
use samgita.Prelude.{ℕ, zero, suc, ◌≡◌, refl, false, List, [], ◌∷◌, ◌++◌, take, drop, has, arith}

-- b"\0", the acknowledgement of a finished cleanup.
abbrev pub nul : ℕ
nul = 0

abbrev pub NoNul : List ℕ → Type 0
NoNul data' = has nul data' ≡ false

pub NoNul-append : (xs ys : List ℕ) → NoNul xs → NoNul ys → NoNul (xs ++ ys)
NoNul-append [] ys h k = k
NoNul-append (x ∷ xs) ys h k = ground (arith, NoNul-append xs ys)

pub NoNul-take : (n : ℕ) (xs : List ℕ) → NoNul xs → NoNul (take n xs)
NoNul-take zero xs h = refl
NoNul-take (suc n) [] h = refl
NoNul-take (suc n) (x ∷ xs) h = ground (arith, NoNul-take n xs)

pub NoNul-drop : (n : ℕ) (xs : List ℕ) → NoNul xs → NoNul (drop n xs)
NoNul-drop zero xs h = h
NoNul-drop (suc n) [] h = refl
NoNul-drop (suc n) (x ∷ xs) h = ground (arith, NoNul-drop n xs)
