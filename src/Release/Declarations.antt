-- ===== src/Release/Declarations.antt =====
-- The version declarations of a manifest: what the regular expression VERSION of release.py finds in a
-- text, and what VERSION.sub writes.
use samgita.Prelude.{
  ℕ, zero, suc, ◌<◌, All, Bool, true, false, Option, none, some, Text, codes, if◌then◌else◌, ◌==◌,
  is_space, strip_prefix, strip_prefix-append, List, [], ◌∷◌, ◌++◌, ◌≡◌, refl, ap, length,
  length-append, arith, append_assoc, Option-cases, inl, inr,
}

abbrev newline : ℕ
newline = 10

abbrev quote : ℕ
quote = 34

-- \s*, and what follows it
skip_space : Text → Text × Text
skip_space [] = ([], [])
skip_space (c ∷ t) =
    let rest = skip_space t in if is_space c then (c ∷ rest.0, rest.1) else ([], c ∷ t)

-- [^"]*, and what follows it
until_quote : Text → Text × Text
until_quote [] = ([], [])
until_quote (c ∷ t) =
    let rest = until_quote t in if c == quote then ([], c ∷ t) else (c ∷ rest.0, rest.1)

-- The end of a line: `$` under the flag m.
ends_line : Text → Bool
ends_line [] = true
ends_line (c ∷ t) = c == newline

-- The first two groups of a match, and the text behind it.
pub record Match : Type 0 where
  pub before : Text
  pub version : Text
  pub rest : Text

-- The third group, behind the first two.
match_end : Text → Text → Text → Option Match
unfolding ends_line
match_end before [] after = none
match_end before (c ∷ version) after = elim (strip_prefix (codes "\",") after) [
  | none ↦ none
  | some rest ↦
      if ends_line rest
      then some (record { before = before; version = c ∷ version; rest = rest })
      else none
]

-- VERSION at the start of a line. Neither repetition can match less than it does here: a space is no
-- v, and what follows [^"]+ is a quote.
match_version : Text → Option Match
unfolding match_end skip_space until_quote
match_version t =
    let (spaces, after) = skip_space t in
    elim (strip_prefix (codes "version: \"") after) [
      | none ↦ none
      | some u ↦
          (let (version, behind) = until_quote u in
            match_end (spaces ++ codes "version: \"") version behind)
    ]

-- A text, cut by VERSION.finditer: single characters and declarations.
pub data Piece : Type 0 where
  plain : ℕ → Piece
  declared : Text → Text → Piece

-- The search from left to right, with fuel: a round takes at least one character.
scan : ℕ → Bool → Text → List Piece
scan zero at_start t = []
scan (suc fuel) at_start [] = []
scan (suc fuel) at_start (c ∷ t) = elim (if at_start then match_version (c ∷ t) else none) [
  | some m ↦ declared m.before m.version ∷ scan fuel false m.rest
  | none ↦ plain c ∷ scan fuel (c == newline) t
]

unfoldable pub pieces : Text → List Piece
unfolding scan match_version
pieces t = scan (suc (length t)) true t

-- [match.group(2) for match in VERSION.finditer(source)]
unfoldable pub versions_of : List Piece → List Text
versions_of [] = []
versions_of (plain c ∷ ps) = versions_of ps
versions_of (declared before version ∷ ps) = version ∷ versions_of ps

unfoldable pub write_piece : Piece → Text
write_piece (plain c) = c ∷ []
write_piece (declared before version) = before ++ (version ++ codes "\",")

-- The text that pieces make up.
unfoldable pub write : List Piece → Text
unfolding write_piece
write [] = []
write (p ∷ ps) = write_piece p ++ write ps

-- lambda m: m.group(1) + version + m.group(3)
unfoldable pub set_version : Text → List Piece → List Piece
set_version version [] = []
set_version version (plain c ∷ ps) = plain c ∷ set_version version ps
set_version version (declared before old ∷ ps) = declared before version ∷ set_version version ps

-- VERSION.sub(..., source)
unfoldable pub substitute : Text → Text → Text
unfolding pieces set_version write
substitute version source = write (set_version version (pieces source))

-- Proofs: the cut loses nothing.
skip_space-append : (t : Text) → (skip_space t).0 ++ (skip_space t).1 ≡ t
unfolding skip_space
skip_space-append [] = refl
skip_space-append (c ∷ t) = ground (arith, skip_space-append t)

until_quote-append : (t : Text) → (until_quote t).0 ++ (until_quote t).1 ≡ t
unfolding until_quote
until_quote-append [] = refl
until_quote-append (c ∷ t) = ground (arith, until_quote-append t)

match_end-append :
    (before version after : Text) (m : Match)
    → match_end before version after ≡ some m
    → before ++ (version ++ after) ≡ m.before ++ (m.version ++ (codes "\"," ++ m.rest))
unfolding match_end
match_end-append before [] after m h = cc
match_end-append before (c ∷ version) after m h =
    elim (Option-cases (strip_prefix (codes "\",") after)) [
      | inl missing ↦ ground (arith, missing)
      | inr (rest, found) ↦ ground (arith, strip_prefix-append (codes "\",") after rest found)
    ]

match_version-append :
    (t : Text) (m : Match)
    → match_version t ≡ some m
    → t ≡ m.before ++ (m.version ++ (codes "\"," ++ m.rest))
unfolding match_version
match_version-append t m h =
    elim (Option-cases (strip_prefix (codes "version: \"") (skip_space t).1)) [
      | inl missing ↦ ground (arith, missing)
      | inr (u, found) ↦
          let form = strip_prefix-append (codes "version: \"") (skip_space t).1 u found in
          let ended =
            match_end-append ((skip_space t).0 ++ codes "version: \"") (until_quote u).0
              (until_quote u).1 m (ground (arith, found)) in
          cc (
            skip_space-append t,
            until_quote-append u,
            append_assoc (skip_space t).0 (codes "version: \"")
                ((until_quote u).0 ++ (until_quote u).1),
            form,
            ended,
          )
    ]

started-some :
    {o : Option Match} (at_start : Bool) {m : Match}
    → ◌≡◌ {A = Option Match} (if at_start then o else none) (some m)
    → o ≡ some m
started-some true found = found
started-some false found = cc

match_rest-length :
    {c fuel : ℕ} {t : Text} (m : Match)
    → c ∷ t ≡ m.before ++ (m.version ++ (codes "\"," ++ m.rest))
    → suc (length t) < suc fuel
    → length m.rest < fuel
match_rest-length {c} {fuel} {t} m form h =
    let whole : length (c ∷ t) ≡ length (m.before ++ (m.version ++ (codes "\"," ++ m.rest))) =
      ap length form in
    omega (
      arith,
      whole,
      length-append m.before (m.version ++ (codes "\"," ++ m.rest)),
      length-append m.version (codes "\"," ++ m.rest),
    )

write-scan :
    (fuel : ℕ) (at_start : Bool) (t : Text) → length t < fuel → write (scan fuel at_start t) ≡ t
unfolding scan write write_piece
write-scan zero at_start t h = absurd (omega arith)
write-scan (suc fuel) at_start [] h = refl
write-scan (suc fuel) at_start (c ∷ t) h =
    elim (Option-cases (if at_start then match_version (c ∷ t) else none)) [
      | inl missing ↦
          rw (write, scan, missing, write-scan fuel (c == newline) t (omega (arith, h))) refl
      | inr (m, found) ↦
          let form = match_version-append (c ∷ t) m (started-some at_start found) in
          rw (write, scan, found, write-scan fuel false m.rest (match_rest-length m form h))
            (cc (
              form,
              append_assoc m.before (m.version ++ codes "\",") m.rest,
              append_assoc m.version (codes "\",") m.rest,
            ))
    ]

-- The pieces that a text is cut into, declarations and other characters, are the text when written again.
write-pieces : (t : Text) → write (pieces t) ≡ t
unfolding pieces
write-pieces t = write-scan (suc (length t)) true t (omega arith)

set_version-same :
    (version : Text) (ps : List Piece)
    → All (λ v. v ≡ version) (versions_of ps)
    → set_version version ps ≡ ps
unfolding set_version versions_of
set_version-same version [] h = refl
set_version-same version (plain c ∷ ps) h = rw (set_version-same version ps h)
set_version-same version (declared before old ∷ ps) (same, h) =
    rw (set_version-same version ps h, same)

-- Writing the version that every declaration of a manifest has already leaves the manifest as it is.
pub substitute-same :
    (version source : Text)
    → All (λ v. v ≡ version) (versions_of (pieces source))
    → substitute version source ≡ source
unfolding substitute
substitute-same version source h =
    rw (set_version-same version (pieces source) h, write-pieces source)
