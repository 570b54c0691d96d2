-- ===== src/Prelude/Splits.antt =====
-- str.split(separator), for one character.
use Prim.Native.Nat.{ℕ}
use mathlib.Core.Path.{◌≡◌, refl}
use mathlib.Core.Bool.{false}
use mathlib.Core.List.{List, [], ◌∷◌, ◌++◌, append-nil, append_assoc}
use mathlib.Core.Logic.{inl, inr}
use native.Mathlib.Omega.{arith}
use samgita.Prelude.Tests.{◌==◌, if◌then◌else◌, Bool-cases}
use samgita.Prelude.Lists.{All, has}
use samgita.Prelude.Strings.{Text}

-- text.split(separator), with the part in progress.
split_from : Text → ℕ → Text → List Text
split_from part separator [] = part ∷ []
split_from part separator (c ∷ t) =
    let ended = part ∷ split_from [] separator t in
    let longer = split_from (part ++ c ∷ []) separator t in if c == separator then ended else longer

unfoldable pub split : ℕ → Text → List Text
unfolding split_from
split separator t = split_from [] separator t

-- What stands before the first separator is a part, and a text without a separator is one part.
split_from-append :
    (separator : ℕ) (part s t : Text)
    → has separator s ≡ false
    → split_from part separator (s ++ separator ∷ t) ≡ (part ++ s) ∷ split_from [] separator t
unfolding split_from
split_from-append separator part [] t h = ground (arith, append-nil part)
split_from-append separator part (c ∷ s) t h =
    ground (arith, split_from-append separator (part ++ c ∷ []) s t, append_assoc part (c ∷ []) s)

split_from-last :
    (separator : ℕ) (part s : Text)
    → has separator s ≡ false
    → split_from part separator s ≡ (part ++ s) ∷ []
unfolding split_from
split_from-last separator part [] h = ground (arith, append-nil part)
split_from-last separator part (c ∷ s) h =
    ground (arith, split_from-last separator (part ++ c ∷ []) s, append_assoc part (c ∷ []) s)

pub split-append :
    (separator : ℕ) (s t : Text)
    → has separator s ≡ false
    → split separator (s ++ (separator ∷ t)) ≡ s ∷ split separator t
unfolding split
split-append separator s t h = split_from-append separator [] s t h

pub split-last : (separator : ℕ) (s : Text) → has separator s ≡ false → split separator s ≡ s ∷ []
unfolding split
split-last separator s h = split_from-last separator [] s h

has-snoc :
    (separator : ℕ) (s : Text) (c : ℕ)
    → has separator s ≡ false
    → (c == separator) ≡ false
    → has separator (s ++ c ∷ []) ≡ false
has-snoc separator [] c h k = ground arith
has-snoc separator (d ∷ s) c h k = ground (arith, has-snoc separator s c)

split_from-has :
    (part : Text) (separator : ℕ) (t : Text)
    → has separator part ≡ false
    → All (λ p. has separator p ≡ false) (split_from part separator t)
unfolding split_from
split_from-has part separator [] h = (h, tt)
split_from-has part separator (c ∷ t) h = elim (Bool-cases (c == separator)) [
  | inl same ↦ rw same (h, split_from-has [] separator t refl)
  | inr other ↦
      rw other (split_from-has (part ++ c ∷ []) separator t (has-snoc separator part c h other))
]

-- No part holds the separator.
pub split-has : (separator : ℕ) (t : Text) → All (λ p. has separator p ≡ false) (split separator t)
unfolding split
split-has separator t = split_from-has [] separator t refl
