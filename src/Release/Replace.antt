-- ===== src/Release/Replace.antt =====
-- str.count and str.replace, for a pattern that is not empty.
use samgita.Prelude.{
  ℕ, zero, suc, ◌<◌, none, some, Text, strip_prefix, strip_prefix-append, List, [], ◌∷◌, ◌++◌, ◌≡◌,
  refl, sym, ap, ◌∙◌, length, length-append, append_assoc, arith, Option-cases, inl, inr,
}

-- What stands before the first occurrence of a pattern, and between and behind the occurrences, found
-- from left to right. A round takes at least one character if the pattern is not empty.
cut_from : ℕ → Text → Text → Text → Text × List Text
cut_from zero pattern part t = (part, [])
cut_from (suc fuel) pattern part [] = (part, [])
cut_from (suc fuel) pattern part (c ∷ t) = elim (strip_prefix pattern (c ∷ t)) [
  | some rest ↦ (let (next, others) = cut_from fuel pattern [] rest in (part, next ∷ others))
  | none ↦ cut_from fuel pattern (part ++ c ∷ []) t
]

unfoldable pub cut : Text → Text → Text × List Text
unfolding cut_from
cut pattern t = cut_from (suc (length t)) pattern [] t

-- Each part behind the replacement.
join : Text → List Text → Text
join new [] = []
join new (part ∷ rest) = new ++ (part ++ join new rest)

-- text.count(pattern)
unfoldable pub count : Text → Text → ℕ
unfolding cut
count pattern t = length (cut pattern t).1

-- text.replace(pattern, new)
unfoldable pub replace : Text → Text → Text → Text
unfolding cut join
replace pattern new t = (cut pattern t).0 ++ join new (cut pattern t).1

-- A text that starts with a pattern, and what is left of it, when the pattern is not empty.
rest-length :
    {c fuel : ℕ} {t : Text} (pattern rest : Text)
    → c ∷ t ≡ pattern ++ rest
    → 0 < length pattern
    → suc (length t) < suc fuel
    → length rest < fuel
rest-length {c} {fuel} {t} pattern rest form h k =
    let whole : length (c ∷ t) ≡ length (pattern ++ rest) = ap length form in
    omega (arith, whole, length-append pattern rest)

join-cut :
    (fuel : ℕ) (pattern part t : Text)
    → 0 < length pattern
    → length t < fuel
    → (cut_from fuel pattern part t).0 ++ join pattern (cut_from fuel pattern part t).1 ≡ part ++ t
unfolding cut_from join
join-cut zero pattern part t h k = absurd (omega arith)
join-cut (suc fuel) pattern part [] h k = refl
join-cut (suc fuel) pattern part (c ∷ t) h k = elim (Option-cases (strip_prefix pattern (c ∷ t))) [
  | inl missing ↦
      rw (cut_from, missing)
        (join-cut fuel pattern (part ++ c ∷ []) t h (omega (arith, k))
          ∙ append_assoc part (c ∷ []) t)
  | inr (rest, found) ↦
      let form = strip_prefix-append pattern (c ∷ t) rest found in
      rw
        (
          cut_from,
          join,
          found,
          join-cut fuel pattern [] rest h (rest-length pattern rest form h k),
          sym form,
        )
        refl
]

-- Replacing a pattern by itself leaves the text as it is.
pub replace-same : (pattern t : Text) → 0 < length pattern → replace pattern pattern t ≡ t
unfolding replace cut
replace-same pattern t h = join-cut (suc (length t)) pattern [] t h (omega arith)
