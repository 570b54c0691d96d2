-- ===== src/Prelude/Decimal.antt =====
-- Decimal numerals: `str` of a natural number, and `int` of a text of ASCII digits.
use Prim.Native.Nat.{ℕ, zero, suc, ◌+◌, ◌-◌, ◌*◌, ◌/◌, ◌%◌, ◌<◌}
use mathlib.Core.Path.{◌≡◌, refl}
use mathlib.Core.Bool.{Bool, true, false, ◌&&◌, not}
use mathlib.Core.List.{[], ◌∷◌, ◌++◌}
use native.Mathlib.Omega.{arith}
use samgita.Prelude.Tests.{ltb, ◌==◌, if◌then◌else◌, Bool-cases}
use mathlib.Core.Logic.{inl, inr}
use samgita.Prelude.Lists.{all, has}
use samgita.Prelude.Strings.{Text, is_digit}

int_from : ℕ → Text → ℕ
int_from n [] = n
int_from n (c ∷ t) = int_from (n * 10 + (c - b'0')) t

unfoldable pub int : Text → ℕ
unfolding int_from
int t = int_from 0 t

-- Digits with fuel; `suc n` is enough for `n`.
digits : ℕ → ℕ → Text
digits zero n = []
digits (suc fuel) n =
    let front = digits fuel (n / 10) in
    if ltb n 10 then (b'0' + n) ∷ [] else front ++ (b'0' + n % 10) ∷ []

unfoldable pub str : ℕ → Text
unfolding digits
str n = digits (suc n) n

-- The regular expression (?:0|[1-9][0-9]*), matched in full.
unfoldable pub is_numeral : Text → Bool
is_numeral [] = false
is_numeral (c ∷ []) = is_digit c
is_numeral (c ∷ t) = is_digit c && not (c == b'0') && all is_digit t

int_from-append :
    (n : ℕ) (s : Text) (d : ℕ) → int_from n (s ++ d ∷ []) ≡ int_from n s * 10 + (d - b'0')
unfolding int_from
int_from-append n [] d = refl
int_from-append n (c ∷ s) d = int_from-append (n * 10 + (c - b'0')) s d

int_from-digits : (fuel n : ℕ) → n < fuel → int_from 0 (digits fuel n) ≡ n
unfolding digits
int_from-digits zero n h = absurd (omega arith)
int_from-digits (suc fuel) n h = elim (Bool-cases (ltb n 10)) [
  | inl small ↦ rw small (unfold int_from in omega arith)
  | inr large ↦
      let less : n / 10 < fuel = ground arith in
      rw (large, int_from-append) (omega (arith, int_from-digits fuel (n / 10) less))
]

pub int-str : (n : ℕ) → int (str n) ≡ n
unfolding int str
int-str n = int_from-digits (suc n) n (omega arith)

-- [1-9][0-9]*
is_positive : Text → Bool
is_positive [] = false
is_positive (c ∷ t) = is_digit c && not (c == b'0') && all is_digit t

all-snoc :
    (s : Text) (d : ℕ)
    → all is_digit s ≡ true
    → is_digit d ≡ true
    → all is_digit (s ++ d ∷ []) ≡ true
all-snoc [] d h k = ground (arith, k)
all-snoc (c ∷ s) d h k = ground (arith, all-snoc s d)

is_positive-snoc :
    (s : Text) (d : ℕ) → is_positive s ≡ true → is_digit d ≡ true → is_positive (s ++ d ∷ []) ≡ true
unfolding is_positive
is_positive-snoc [] d h k = ground arith
is_positive-snoc (c ∷ s) d h k = ground (arith, all-snoc s d)

is_positive-is_numeral : (t : Text) → is_positive t ≡ true → is_numeral t ≡ true
unfolding is_positive is_numeral
is_positive-is_numeral [] h = ground arith
is_positive-is_numeral (c ∷ []) h = ground arith
is_positive-is_numeral (c ∷ d ∷ t) h = h

digit-is_digit : (d : ℕ) → d < 10 → is_digit (b'0' + d) ≡ true
unfolding is_digit
digit-is_digit d h = ground arith

is_positive-digits : (fuel n : ℕ) → n < fuel → 0 < n → is_positive (digits fuel n) ≡ true
unfolding digits
is_positive-digits zero n h k = absurd (omega arith)
is_positive-digits (suc fuel) n h k = elim (Bool-cases (ltb n 10)) [
  | inl small ↦ rw small (unfold is_positive in ground (arith, digit-is_digit n (ground arith)))
  | inr large ↦ rw large (
      is_positive-snoc (digits fuel (n / 10)) (b'0' + n % 10)
        (is_positive-digits fuel (n / 10) (ground arith) (ground arith))
        (digit-is_digit (n % 10) (omega arith)))
]

pub str-is_numeral : (n : ℕ) → is_numeral (str n) ≡ true
unfolding str
str-is_numeral zero = unfold is_numeral digits is_digit in refl
str-is_numeral (suc n) =
    is_positive-is_numeral (digits (suc (suc n)) (suc n))
      (is_positive-digits (suc (suc n)) (suc n) (omega arith) (omega arith))

-- Only a digit stands in a text of digits.
all-has : (s : Text) (c : ℕ) → all is_digit s ≡ true → is_digit c ≡ false → has c s ≡ false
all-has [] c h k = refl
all-has (d ∷ s) c h k = ground (arith, all-has s c)

is_numeral-all : (t : Text) → is_numeral t ≡ true → all is_digit t ≡ true
unfolding is_numeral
is_numeral-all [] h = refl
is_numeral-all (c ∷ []) h = ground arith
is_numeral-all (c ∷ d ∷ t) h = ground arith

-- A numeral holds nothing but digits.
pub str-has : (n c : ℕ) → is_digit c ≡ false → has c (str n) ≡ false
str-has n c h = all-has (str n) c (is_numeral-all (str n) (str-is_numeral n)) h
