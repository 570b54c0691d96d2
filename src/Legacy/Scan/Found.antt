-- ===== src/Legacy/Scan/Found.antt =====
-- violations of check_legacy_runtime.py, for a source in which it reports nothing.
use samgita.Prelude.{
  ℕ, zero, suc, ◌+◌, ◌<◌, Bool, true, false, none, some, Text, strip_prefix, length, List, [], ◌∷◌,
  ◌++◌, ◌≡◌, ◌≢◌, refl, sym, ◌∙◌, arith, Option-cases, inl, inr, All,
}
use mathlib.Core.Path.{subst}
use samgita.Legacy.Scan.{
  forbidden, match_any, find_from, find_all, split_lines, is_comment, is_test, negatives, within,
  Violation, report, report_lines, violations,
}

-- A text is one of a list.
pub data Among (w : Text) : List Text → Type 0 where
  first : {ws : List Text} → Among w (w ∷ ws)
  later : {v : Text} {ws : List Text} → Among w ws → Among w (v ∷ ws)

strip_prefix-prefix : (w t : Text) → strip_prefix w (w ++ t) ≡ some t
strip_prefix-prefix [] t = refl
strip_prefix-prefix (c ∷ w) t = ground (arith, strip_prefix-prefix w t)

-- Where no alternative matches, none of them stands.
match_any-none : (w t : Text) (ws : List Text) → Among w ws → match_any ws (w ++ t) ≡ none → ⊥
unfolding match_any
match_any-none w t ws (first {ws = rest}) k =
    let red : match_any (w ∷ rest) (w ++ t) ≡ some (w, t) =
      rw (match_any, strip_prefix-prefix w t) refl in
    cc (red, k)
match_any-none w t ws (later {v = v} {ws = rest} among) k =
    elim (Option-cases (strip_prefix v (w ++ t))) [
      | inl missing ↦
          let red : match_any (v ∷ rest) (w ++ t) ≡ match_any rest (w ++ t) =
            rw (match_any, missing) refl in
          match_any-none w t rest among (sym red ∙ k)
      | inr (u, found) ↦
          let red : match_any (v ∷ rest) (w ++ t) ≡ some (v, u) = rw (match_any, found) refl in
          cc (red, k)
    ]

is_filled : Text → Bool
is_filled [] = false
is_filled (c ∷ t) = true

Among-filled :
    (w : Text) (ws : List Text) → All (λ x. is_filled x ≡ true) ws → Among w ws → is_filled w ≡ true
Among-filled w ws h (first {ws = rest}) = h.0
Among-filled w ws h (later {ws = rest} among) = Among-filled w rest h.1 among

forbidden-filled : All (λ x. is_filled x ≡ true) forbidden
unfolding is_filled
forbidden-filled =
    (refl, (refl, (refl, (refl, (refl, (refl, (refl, (refl, (refl, (refl, tt))))))))))

-- A text in which nothing is found holds no alternative.
find_from-none :
    (fuel position : ℕ) (w before after : Text)
    → Among w forbidden
    → length (before ++ (w ++ after)) < fuel
    → find_from fuel position (before ++ (w ++ after)) ≡ []
    → ⊥
unfolding find_from
find_from-none zero position w before after among h k = omega arith
find_from-none (suc fuel) position [] [] after among h k =
    let filled = Among-filled [] forbidden forbidden-filled among in unfold is_filled in cc
find_from-none (suc fuel) position (c ∷ w) [] after among h k =
    elim (Option-cases (match_any forbidden (c ∷ (w ++ after)))) [
      | inl missing ↦ match_any-none (c ∷ w) after forbidden among missing
      | inr (found, matched) ↦
          let red : find_from (suc fuel) position (c ∷ (w ++ after))
              ≡ (position, found.0) ∷ find_from fuel (position + length found.0) found.1 =
            rw (find_from, matched) refl in
          cc (red, k)
    ]
find_from-none (suc fuel) position w (c ∷ before) after among h k =
    elim (Option-cases (match_any forbidden (c ∷ (before ++ (w ++ after))))) [
      | inl missing ↦
          let red : find_from (suc fuel) position (c ∷ (before ++ (w ++ after)))
              ≡ find_from fuel (suc position) (before ++ (w ++ after)) =
            rw (find_from, missing) refl in
          find_from-none fuel (suc position) w before after among (omega (arith, h)) (sym red ∙ k)
      | inr (found, matched) ↦
          let red : find_from (suc fuel) position (c ∷ (before ++ (w ++ after)))
              ≡ (position, found.0) ∷ find_from fuel (position + length found.0) found.1 =
            rw (find_from, matched) refl in
          cc (red, k)
    ]

-- Outside of a comment and without spans, an empty report comes from a line in which nothing is found.
report-none :
    (path : Text) (offset line_no : ℕ) (line : Text) (matches : List (ℕ × Text))
    → is_comment line ≡ false
    → report path [] offset line_no line matches ≡ []
    → matches ≡ []
unfolding report within
report-none path offset line_no line [] h k = refl
report-none path offset line_no line (found ∷ rest) h k =
    let red : report path [] offset line_no line (found ∷ rest)
        ≡ record { path = path; line_no = line_no; identifier = found.1 }
          ∷ report path [] offset line_no line rest =
      rw (report, h) refl in
    cc (red, k)

parts-none : (xs ys : List Violation) → xs ++ ys ≡ [] → (xs ≡ []) × (ys ≡ [])
parts-none [] ys h = (refl, h)
parts-none (x ∷ xs) ys h = cc

report_lines-none :
    (path line : Text) (offset line_no : ℕ) (lines : List Text)
    → Among line lines
    → is_comment line ≡ false
    → report_lines path [] offset line_no lines ≡ []
    → find_all line ≡ []
unfolding report_lines
report_lines-none path line offset line_no lines (first {ws = rest}) h k =
    report-none path offset line_no line (find_all line) h
      (parts-none (report path [] offset line_no line (find_all line)) _ k).0
report_lines-none path line offset line_no lines (later {v = v} {ws = rest} among) h k =
    report_lines-none path line (offset + length v) (suc line_no) rest among h
      (parts-none (report path [] offset line_no v (find_all v)) _ k).1

-- When a file that is no test has no violation, none of its lines but comments holds a forbidden identifier.
pub violations-none :
    (path source line w before after : Text)
    → is_test path ≡ false
    → violations path source ≡ []
    → Among line (split_lines source)
    → is_comment line ≡ false
    → Among w forbidden
    → line ≢ before ++ (w ++ after)
unfolding violations negatives find_all
violations-none path source line w before after h k among no_comment listed form =
    let red : violations path source ≡ report_lines path [] 0 1 (split_lines source) =
      rw (violations, negatives, h) refl in
    let nothing : find_all line ≡ [] =
      report_lines-none path line 0 1 (split_lines source) among no_comment (sym red ∙ k) in
    find_from-none (suc (length (before ++ (w ++ after)))) 0 w before after listed (omega arith)
      (subst (λ t. find_all t ≡ []) form nothing)
