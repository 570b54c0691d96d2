-- ===== src/Release/Version.antt =====
-- version_parts and release_channel of release.py.
use samgita.Prelude.{
  split, split-append, split-last, ℕ, Bool, false, Text, if◌then◌else◌, ◌&&◌, ◌||◌, ltb, ◌==◌,
  Result, ok, raise, [], ◌∷◌, ◌++◌, ◌≡◌, refl, ap, ◌∙◌, ◌↔◌, int, str, is_numeral, is_digit,
  int-str, has, arith, str-is_numeral, str-has,
}

-- The ValueErrors of the script, by what they complain about, and the errors of dicts and files.
pub data Fault : Type 0 where
  version_form version_missing version_precedes unexpected_declarations unexpected_asset : Fault
  sibling_dependency missing_input key_error os_error : Fault

pub record Parts : Type 0 where
  pub major : ℕ
  pub minor : ℕ
  pub patch : ℕ

abbrev pub parts : ℕ → ℕ → ℕ → Parts
parts a b c = record { major = a; minor = b; patch = c }

-- SEMVER.fullmatch: three numerals with dots between them.
unfoldable pub version_parts : Text → Result Fault Parts
version_parts version = elim (split b'.' version) [
  | a ∷ b ∷ c ∷ [] ↦
      if is_numeral a && is_numeral b && is_numeral c
      then ok (parts (int a) (int b) (int c))
      else raise version_form
  | _ ↦ raise version_form
]

pub data Channel : Type 0 where
  prerelease stable : Channel

unfoldable pub release_channel : Text → Result Fault Channel
unfolding version_parts
release_channel version = elim (version_parts version) [
  | ok p ↦ ok (if p.major == 0 then prerelease else stable)
  | raise e ↦ raise e
]

-- requested < current, on tuples
unfoldable pub precedes : Parts → Parts → Bool
precedes p q =
    ltb p.major q.major
    || p.major == q.major && (ltb p.minor q.minor || p.minor == q.minor && ltb p.patch q.patch)

-- M.N.P
abbrev pub show : Parts → Text
show p = str p.major ++ (b'.' ∷ (str p.minor ++ (b'.' ∷ str p.patch)))

split-show : (p : Parts) → split b'.' (show p) ≡ str p.major ∷ str p.minor ∷ str p.patch ∷ []
split-show p =
    split-append b'.' (str p.major) (str p.minor ++ b'.' ∷ str p.patch) (no_dot p.major)
    ∙ ap (λ rest. str p.major ∷ rest)
        (split-append b'.' (str p.minor) (str p.patch) (no_dot p.minor)
          ∙ ap (λ rest. str p.minor ∷ rest) (split-last b'.' (str p.patch) (no_dot p.patch)))
  where
    no_dot : (n : ℕ) → has b'.' (str n) ≡ false
    no_dot n = str-has n b'.' (unfold is_digit in refl)

-- A version that is written in decimal numerals is read as the numbers that were written.
pub version_parts-show : (p : Parts) → version_parts (show p) ≡ ok p
unfolding version_parts
version_parts-show p =
    rw
      (
        version_parts,
        split-show p,
        str-is_numeral p.major,
        str-is_numeral p.minor,
        str-is_numeral p.patch,
        int-str p.major,
        int-str p.minor,
        int-str p.patch,
      )
      refl

-- The channel of a written version is prerelease exactly for the major version 0.
pub release_channel-show : (p : Parts) → (release_channel (show p) ≡ ok prerelease) ↔ (p.major ≡ 0)
unfolding release_channel
release_channel-show p = rw (release_channel, version_parts-show p) (ground arith)
