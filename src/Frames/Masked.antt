-- ===== src/Frames/Masked.antt =====
-- Frames as a client of RFC 6455 writes them, and how `read_frame` reads them.
use Prim.Native.Nat.{bit_and}
use mathlib.Core.Path.{subst}
use samgita.Prelude.{
  ℕ, suc, ◌+◌, ◌≤◌, ◌<◌, ◌≡◌, refl, sym, ap, ◌∙◌, inl, inr, true, false, some, List, [], ◌∷◌, ◌++◌,
  append_assoc, if◌then◌else◌, leb, length, All, Bool-cases, arith, Text,
}
use samgita.Frames.{
  Signal, Frame, complete, refused, limit, read_exact, unmask, unmasked, read_body, read_frame,
}
use samgita.Frames.Bytes.{IsByte, opcode_lem, unmask_twice}
use samgita.Frames.Headers.{size_bytes, read_frame-header}
use samgita.Frames.Chunks.{is_steady, arriving, read_exact-Reads}

-- A whole message of a client: the payload is masked as it is unmasked.
unfoldable pub masked_frame : ℕ → Text → Text → Text
unfolding size_bytes unmask
masked_frame opcode mask payload =
    ((128 + opcode) ∷ size_bytes (length payload)) ++ (mask ++ unmask mask 0 payload)

-- The result is this frame, and these bytes are left to a peer that stays.
abbrev pub Gives : Frame × List Signal → Frame → Text → Type 0
Gives result frame' rest =
    (result.0 ≡ frame') × (is_steady (result.1) ≡ true) × (arriving (result.1) ≡ rest)

read_body-eq :
    (first size : ℕ) (peer left last : List Signal) (mask masked : Text)
    → size ≤ limit
    → read_exact peer 4 [] ≡ (some mask, left)
    → read_exact left size [] ≡ (some masked, last)
    → read_body first size peer ≡ (complete (bit_and first 15) (unmask mask 0 masked), last)
unfolding read_body unmasked
read_body-eq first size peer left last mask masked small got_mask got_payload =
    let fits : leb size limit ≡ true = ground arith in rw (fits, got_mask, got_payload)

read_body-masked :
    (first : ℕ) (peer : List Signal) (mask masked rest : Text)
    → is_steady peer ≡ true
    → arriving peer ≡ mask ++ (masked ++ rest)
    → length mask ≡ 4
    → length masked ≤ limit
    → Gives
        (read_body first (length masked) peer)
        (complete (bit_and first 15) (unmask mask 0 masked))
        rest
read_body-masked first peer mask masked rest steady all_of measured small =
    let got = read_exact-Reads peer 4 [] mask (masked ++ rest) steady all_of (omega arith) in
    let more =
      read_exact-Reads (got.0) (length masked) [] masked rest (got.2) (got.3) (omega arith) in
    let whole =
      read_body-eq first (length masked) peer (got.0) (more.0) mask masked small (got.1) (more.1) in
    subst (λ r. Gives r (complete (bit_and first 15) (unmask mask 0 masked)) rest) (sym whole)
      (refl, more.2, more.3)

length-unmask :
    (mask : Text) (index : ℕ) (payload : Text) → length (unmask mask index payload) ≡ length payload
unfolding unmask
length-unmask mask index [] = refl
length-unmask mask index (value ∷ payload) = omega (arith, length-unmask mask (suc index) payload)

-- A frame of at most 1048576 bytes is read.
pub read_frame-masked_frame :
    (peer : List Signal) (opcode : ℕ) (mask payload rest : Text)
    → is_steady peer ≡ true
    → arriving peer ≡ masked_frame opcode mask payload ++ rest
    → opcode < 16
    → length mask ≡ 4
    → All IsByte mask
    → All IsByte payload
    → length payload ≤ limit
    → Gives (read_frame peer) (complete opcode payload) rest
unfolding masked_frame
read_frame-masked_frame peer opcode mask payload rest steady all_of small four bytes_of_mask bytes
      fits =
    let sealed = unmask mask 0 payload in
    let whole =
      all_of
      ∙ append_assoc ((128 + opcode) ∷ size_bytes (length payload)) (mask ++ sealed) rest
      ∙ ap (λ t. ((128 + opcode) ∷ size_bytes (length payload)) ++ t)
          (append_assoc mask sealed rest) in
    let header =
      read_frame-header peer opcode (length payload) (mask ++ (sealed ++ rest)) small steady
        whole in
    let same : length sealed ≡ length payload = length-unmask mask 0 payload in
    let body : Gives (read_body (128 + opcode) (length sealed) (header.0))
        (complete (bit_and (128 + opcode) 15) (unmask mask 0 sealed)) rest =
      read_body-masked (128 + opcode) (header.0) mask sealed rest (header.2) (header.3) four
        (omega arith) in
    let opened : complete (bit_and (128 + opcode) 15) (unmask mask 0 sealed)
        ≡ complete opcode payload =
      rw ((opcode_lem opcode small).0, unmask_twice mask 0 payload bytes_of_mask bytes) in
    let result : read_body (128 + opcode) (length sealed) (header.0) ≡ read_frame peer =
      ap (λ n. read_body (128 + opcode) n (header.0)) same ∙ sym (header.1) in
    subst (λ r. Gives r (complete opcode payload) rest) result (body.0 ∙ opened, body.1, body.2)

-- A header that announces more bytes is refused before anything after it is read.
read_frame-size_bytes :
    (peer : List Signal) (opcode n : ℕ) (rest : Text)
    → is_steady peer ≡ true
    → arriving peer ≡ ((128 + opcode) ∷ size_bytes n) ++ rest
    → opcode < 16
    → limit < n
    → Gives (read_frame peer) refused rest
unfolding read_body
read_frame-size_bytes peer opcode n rest steady all_of small over =
    let header = read_frame-header peer opcode n rest small steady all_of in
    let large : leb n limit ≡ false = ground arith in
    let body : read_body (128 + opcode) n (header.0) ≡ (refused, header.0) = rw large in
    subst (λ r. Gives r refused rest) (sym (header.1 ∙ body)) (refl, header.2, header.3)

-- Whatever the pieces in which a client's frame arrives, and the timeouts between them, `read_frame` gives
-- its opcode and its payload, and leaves what comes after it, if the payload has at most 1048576 bytes;
-- a longer one is refused with its mask and its payload unread. The opcode has four bits, and the mask is
-- four bytes.
pub read_frame-masked_frame_or_refused :
    (peer : List Signal) (opcode : ℕ) (mask payload rest : Text)
    → is_steady peer ≡ true
    → arriving peer ≡ masked_frame opcode mask payload ++ rest
    → opcode < 16
    → length mask ≡ 4
    → All IsByte mask
    → All IsByte payload
    → Gives
        (read_frame peer)
        (if leb (length payload) limit then complete opcode payload else refused)
        (if leb (length payload) limit then rest else (mask ++ unmask mask 0 payload) ++ rest)
unfolding masked_frame
read_frame-masked_frame_or_refused peer opcode mask payload rest steady all_of small four
      bytes_of_mask bytes =
    elim (Bool-cases (leb (length payload) limit)) [
      | inl fits ↦
          let got =
            read_frame-masked_frame peer opcode mask payload rest steady all_of small four
              bytes_of_mask bytes (ground arith) in
          subst
            (λ b.
              Gives (read_frame peer) (if b then complete opcode payload else refused)
                (if b then rest else (mask ++ unmask mask 0 payload) ++ rest))
            (sym fits) got
      | inr over ↦
          let sealed = mask ++ unmask mask 0 payload in
          let whole =
            all_of ∙ append_assoc ((128 + opcode) ∷ size_bytes (length payload)) sealed rest in
          let got =
            read_frame-size_bytes peer opcode (length payload) (sealed ++ rest) steady whole small
              (ground arith) in
          subst
            (λ b.
              Gives (read_frame peer) (if b then complete opcode payload else refused)
                (if b then rest else sealed ++ rest))
            (sym over) got
    ]
