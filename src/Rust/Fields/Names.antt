-- ===== src/Rust/Fields/Names.antt =====
-- The names that camel gives to fields of Rust structs.
use samgita.Prelude.{
  ℕ, ◌+◌, ◌<◌, false, Text, has, List, [], ◌∷◌, ◌++◌, split, split-last, split-append, append-nil,
  ap, ◌∙◌, All, ◌≡◌, refl, arith,
}
use samgita.Rust.Fields.{upper, capital, capitals, camel}

-- A word after an underscore: the place of its first letter in the alphabet, and the rest, which has no
-- underscore.
abbrev pub Word : Type 0
Word = ℕ × Text

abbrev pub IsWord : Word → Type 0
IsWord word = (word.0 < 26) × (has b'_' word.1 ≡ false)

-- The words in snake case, and in camel case.
unfoldable pub snake : List Word → Text
snake [] = []
snake ((k, t) ∷ words) = b'_' ∷ (b'a' + k) ∷ t ++ snake words

unfoldable pub humps : List Word → Text
humps [] = []
humps ((k, t) ∷ words) = (b'A' + k) ∷ t ++ humps words

letters : List Word → List Text
letters [] = []
letters ((k, t) ∷ words) = ((b'a' + k) ∷ t) ∷ letters words

split-snake :
    (first : Text) (words : List Word)
    → has b'_' first ≡ false
    → All IsWord words
    → split b'_' (first ++ snake words) ≡ first ∷ letters words
unfolding snake letters
split-snake first [] clean all_words =
    ap (split b'_') (append-nil first) ∙ split-last b'_' first clean
split-snake first ((k, t) ∷ words) clean (word, all_words) =
    let word_clean : has b'_' ((b'a' + k) ∷ t) ≡ false = ground (arith, word.0, word.1) in
    split-append b'_' first (((b'a' + k) ∷ t) ++ snake words) clean
    ∙ ap (λ parts. first ∷ parts) (split-snake ((b'a' + k) ∷ t) words word_clean all_words)

upper_letter : (k : ℕ) → k < 26 → upper (b'a' + k) ≡ b'A' + k
unfolding upper
upper_letter k small = ground arith

capitals-letters : (words : List Word) → All IsWord words → capitals (letters words) ≡ humps words
unfolding capitals capital letters humps
capitals-letters [] all_words = refl
capitals-letters ((k, t) ∷ words) (word, all_words) =
    rw (upper_letter k word.0, capitals-letters words all_words) refl

-- A name that is a first part and then words, each after an underscore and with a small ASCII letter in
-- front, becomes the first part as it is and then the words with that letter made capital, with no
-- underscores; no part has an underscore of its own.
pub camel-snake :
    (first : Text) (words : List Word)
    → has b'_' first ≡ false
    → All IsWord words
    → camel (first ++ snake words) ≡ first ++ humps words
unfolding camel
camel-snake first words clean all_words =
    ap (λ parts. elim parts [ [] ↦ [] | first ∷ tail ↦ first ++ capitals tail ])
      (split-snake first words clean all_words)
    ∙ ap (λ t. first ++ t) (capitals-letters words all_words)
