-- ===== src/Frames/Headers.antt =====
-- The headers of a client's frames, in the three forms of RFC 6455.
use samgita.Prelude.{
  ℕ, ◌+◌, ◌/◌, ◌%◌, ◌≤◌, ◌<◌, ◌≡◌, refl, ap, ◌∙◌, inl, inr, true, false, ◌||◌, some, List, [], ◌∷◌,
  ◌++◌, if◌then◌else◌, ltb, leb, ◌==◌, length, Bool-cases, arith, Text,
}
use samgita.Frames.{
  Signal, read_exact, unpack_from, read_body, sized, read_size, headed, read_frame,
}
use samgita.Frames.Bytes.{opcode_lem, size_lem}
use samgita.Frames.Chunks.{is_steady, arriving, read_exact-Reads}

-- The second byte, with the bit of a mask, and the size: in seven bits, or in the two or the eight
-- bytes that follow. The first four of the eight are for sizes of 4 GB and more, left out here.
unfoldable pub size_bytes : ℕ → Text
size_bytes n =
    if leb n 125
    then (128 + n) ∷ []
    else if ltb n 65536
    then 254 ∷ (n / 256) ∷ (n % 256) ∷ []
    else 255
      ∷ 0
      ∷ 0
      ∷ 0
      ∷ 0
      ∷ n / 256 / 256 / 256
      ∷ n / 256 / 256 % 256
      ∷ n / 256 % 256
      ∷ n % 256
      ∷ []

-- The part of `read_frame` after the first two bytes.
read_frame-head :
    (peer left : List Signal) (opcode second : ℕ)
    → opcode < 16
    → second < 128
    → read_exact peer 2 [] ≡ (some ((128 + opcode) ∷ (128 + second) ∷ []), left)
    → read_frame peer ≡ read_size (128 + opcode) (128 + second) left
unfolding read_frame headed
read_frame-head peer left opcode second small less got =
    rw (got, (opcode_lem opcode small).1, (size_lem second less).1)

read_size-short :
    (first n : ℕ) (peer : List Signal)
    → n ≤ 125
    → read_size first (128 + n) peer ≡ read_body first n peer
unfolding read_size
read_size-short first n peer small =
    let other : (n == 126 || n == 127) ≡ false = ground arith in
    rw ((size_lem n (omega arith)).0, other)

-- The bytes of a size are read, and no more.
abbrev pub HasHeader : List Signal → ℕ → ℕ → Text → Type 0
HasHeader peer opcode n rest =
    (left : List Signal) × (read_frame peer ≡ read_body (128 + opcode) n left)
    × (is_steady left ≡ true)
    × (arriving left ≡ rest)

header_of :
    (peer : List Signal) (opcode second count n : ℕ) (raw rest : Text)
    → opcode < 16
    → second < 128
    → is_steady peer ≡ true
    → arriving peer ≡ ((128 + opcode) ∷ (128 + second) ∷ raw) ++ rest
    → length raw ≡ count
    → unpack_from 0 raw ≡ n
    → ((left : List Signal)
        → read_size (128 + opcode) (128 + second) left
          ≡ sized (128 + opcode) (read_exact left count []))
    → HasHeader peer opcode n rest
unfolding sized
header_of peer opcode second count n raw rest small less steady all_of counted value sizes =
    let head =
      read_exact-Reads peer 2 [] ((128 + opcode) ∷ (128 + second) ∷ []) (raw ++ rest) steady all_of
        refl in
    let more =
      read_exact-Reads (head.0) count [] raw rest (head.2) (head.3) (omega (arith, counted)) in
    (
      more.0,
      read_frame-head peer (head.0) opcode second small less (head.1)
          ∙ sizes (head.0)
          ∙ ap (sized (128 + opcode)) (more.1)
          ∙ ap (λ m. read_body (128 + opcode) m (more.0)) value,
      more.2,
      more.3,
    )

size_bytes_short : (n : ℕ) → n ≤ 125 → size_bytes n ≡ (128 + n) ∷ []
unfolding size_bytes
size_bytes_short n small = let short : leb n 125 ≡ true = ground arith in rw short

size_bytes_two : (n : ℕ) → 125 < n → n < 65536 → size_bytes n ≡ 254 ∷ n / 256 ∷ n % 256 ∷ []
unfolding size_bytes
size_bytes_two n more small =
    let long : leb n 125 ≡ false = ground arith in
    let two : ltb n 65536 ≡ true = ground arith in rw (long, two)

abbrev eight : ℕ → Text
eight n = 0 ∷ 0 ∷ 0 ∷ 0 ∷ n / 256 / 256 / 256 ∷ n / 256 / 256 % 256 ∷ n / 256 % 256 ∷ n % 256 ∷ []

size_bytes-eight : (n : ℕ) → 65536 ≤ n → size_bytes n ≡ 255 ∷ eight n
unfolding size_bytes
size_bytes-eight n more =
    let long : leb n 125 ≡ false = ground arith in
    let large : ltb n 65536 ≡ false = ground arith in rw (long, large)

unpack_two : (n : ℕ) → unpack_from 0 (n / 256 ∷ n % 256 ∷ []) ≡ n
unfolding unpack_from
unpack_two n = omega arith

unpack_eight : (n : ℕ) → unpack_from 0 (eight n) ≡ n
unfolding unpack_from
unpack_eight n = omega arith

pub read_frame-header :
    (peer : List Signal) (opcode n : ℕ) (rest : Text)
    → opcode < 16
    → is_steady peer ≡ true
    → arriving peer ≡ ((128 + opcode) ∷ size_bytes n) ++ rest
    → HasHeader peer opcode n rest
unfolding read_size
read_frame-header peer opcode n rest small steady all_of = elim (Bool-cases (leb n 125)) [
  | inl short ↦
      let le : n ≤ 125 = ground arith in
      let all = all_of ∙ ap (λ t. ((128 + opcode) ∷ t) ++ rest) (size_bytes_short n le) in
      let head =
        read_exact-Reads peer 2 [] ((128 + opcode) ∷ (128 + n) ∷ []) rest steady all refl in
      (
        head.0,
        read_frame-head peer (head.0) opcode n small (omega arith) (head.1)
            ∙ read_size-short (128 + opcode) n (head.0) le,
        head.2,
        head.3,
      )
  | inr long ↦ elim (Bool-cases (ltb n 65536)) [
    | inl two ↦
        let bytes = size_bytes_two n (ground arith) (ground arith) in
        let all = all_of ∙ ap (λ t. ((128 + opcode) ∷ t) ++ rest) bytes in
        header_of peer opcode 126 2 n (n / 256 ∷ n % 256 ∷ []) rest small (omega arith) steady all
          refl (unpack_two n) (λ left. refl)
    | inr large ↦
        let bytes = size_bytes-eight n (ground arith) in
        let all = all_of ∙ ap (λ t. ((128 + opcode) ∷ t) ++ rest) bytes in
        header_of peer opcode 127 8 n (eight n) rest small (omega arith) steady all refl
          (unpack_eight n) (λ left. refl)
  ]
]
