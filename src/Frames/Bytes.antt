-- ===== src/Frames/Bytes.antt =====
-- Bytes under the masks of a frame.
use Prim.Native.Nat.{bit_and, bit_xor}
use samgita.Prelude.{
  ℕ, zero, suc, ◌+◌, ◌%◌, ◌<◌, ◌≡◌, refl, Bool, true, [], ◌∷◌, ◌&&◌, ◌==◌, ==_iff, All, arith, Text,
}
use samgita.Frames.{mask_at, unmask}

abbrev pub IsByte : ℕ → Type 0
IsByte n = n < 256

-- A test of every number below a bound, by evaluation.
below : ℕ → (ℕ → Bool) → Bool
below zero test = true
below (suc n) test = test n && below n test

below_sound : (n : ℕ) (test : ℕ → Bool) (x : ℕ) → below n test ≡ true → x < n → test x ≡ true
unfolding below
below_sound zero test x h less = absurd (omega arith)
below_sound (suc n) test x h less = ground (arith, below_sound n test x)

opcodes : below 16 (λ o. bit_and (128 + o) 15 == o && bit_and (128 + o) 128 == 128) ≡ true
unfolding below
opcodes = refl

sizes : below 128 (λ s. bit_and (128 + s) 127 == s && bit_and (128 + s) 128 == 128) ≡ true
unfolding below
sizes = refl

xors : below 256 (λ v. below 256 (λ m. bit_xor (bit_xor v m) m == v)) ≡ true
unfolding below
xors = refl

pub opcode_lem : (o : ℕ) → o < 16 → (bit_and (128 + o) 15 ≡ o) × (bit_and (128 + o) 128 ≡ 128)
opcode_lem o h = ground (
  arith,
  below_sound 16 (λ o. bit_and (128 + o) 15 == o && bit_and (128 + o) 128 == 128) o opcodes h,
)

pub size_lem : (s : ℕ) → s < 128 → (bit_and (128 + s) 127 ≡ s) × (bit_and (128 + s) 128 ≡ 128)
size_lem s h = ground (
  arith,
  below_sound 128 (λ s. bit_and (128 + s) 127 == s && bit_and (128 + s) 128 == 128) s sizes h,
)

bit_xor_twice : (v m : ℕ) → IsByte v → IsByte m → bit_xor (bit_xor v m) m ≡ v
bit_xor_twice v m hv hm = (==_iff _ v).0 (below_sound 256 _ m (below_sound 256 _ v xors hv) hm)

mask_at-IsByte : (mask : Text) (i : ℕ) → All IsByte mask → IsByte (mask_at mask i)
unfolding mask_at
mask_at-IsByte [] i h = omega arith
mask_at-IsByte (byte ∷ mask) zero h = h.0
mask_at-IsByte (byte ∷ mask) (suc i) h = mask_at-IsByte mask i (h.1)

pub unmask_twice :
    (mask : Text) (index : ℕ) (payload : Text)
    → All IsByte mask
    → All IsByte payload
    → unmask mask index (unmask mask index payload) ≡ payload
unfolding unmask
unmask_twice mask index [] hm hp = refl
unmask_twice mask index (value ∷ payload) hm hp = rw (
  bit_xor_twice value (mask_at mask (index % 4)) (hp.0) (mask_at-IsByte mask (index % 4) hm),
  unmask_twice mask (suc index) payload hm (hp.1),
)
