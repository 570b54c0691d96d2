-- ===== src/Frames/Progress.antt =====
-- Every read takes its bytes from the peer, so that the loop of `websocket` ends.
use samgita.Prelude.{
  ℕ, zero, suc, ◌+◌, ◌-◌, ◌≤◌, ◌<◌, ◌≡◌, ◌≢◌, refl, inl, inr, Bool, true, false, ◌||◌, Option, none,
  some, List, [], ◌∷◌, ◌++◌, if◌then◌else◌, ltb, leb, ◌==◌, length, take, drop, length-append,
  Bool-cases, arith, Text,
}
use Prim.Native.Nat.{bit_and}
use samgita.Frames.{
  Signal, arrives, times_out, closes, Frame, complete, ended, refused, limit, exact, read_exact,
  read_body, sized, read_size, headed, read_frame, unpack_from,
}
use samgita.Frames.Chunks.{arriving}
use samgita.Frames.Serving.{
  Step, stops, goes_on, raises, Session, out_of_fuel, Effect, turn, answer, is_closing, after,
  serve,
}

abbrev coming : List Signal → ℕ
coming peer = length (arriving peer)

-- The bytes that a call returns.
unfoldable got : Option Text → ℕ
got none = 0
got (some bytes) = length bytes

got-exact : (size : ℕ) (bytes : Text) → got (exact size bytes) ≤ length bytes
unfolding got exact
got-exact size bytes = elim (Bool-cases (length bytes == size)) [
  | inl whole ↦ rw whole (omega arith)
  | inr short ↦ rw short (omega arith)
]

length-take-drop :
    (n : ℕ) (bytes : Text) → length (take n bytes) + length (drop n bytes) ≡ length bytes
length-take-drop zero bytes = omega arith
length-take-drop (suc n) [] = omega arith
length-take-drop (suc n) (b ∷ bytes) = omega (arith, length-take-drop n bytes)

-- Nothing is read twice.
read_exact-coming :
    (peer : List Signal) (size : ℕ) (before : Text)
    → got ((read_exact peer size before).0) + coming ((read_exact peer size before).1)
      ≤ length before + coming peer
unfolding read_exact arriving
read_exact-coming [] size before = omega (arith, got-exact size before)
read_exact-coming (closes ∷ later) size before = omega (arith, got-exact size before)
read_exact-coming (times_out ∷ later) size before = elim (Bool-cases (ltb (length before) size)) [
  | inl under ↦ rw under (read_exact-coming later size before)
  | inr over ↦ rw over (omega (arith, got-exact size before))
]
read_exact-coming (arrives [] ∷ later) size before = omega (arith, got-exact size before)
read_exact-coming (arrives (byte ∷ bytes) ∷ later) size before =
    let chunk = byte ∷ bytes in
    let asked = size - length before in
    elim (Bool-cases (ltb (length before) size)) [
      | inr over ↦ rw over (omega (arith, got-exact size before))
      | inl under ↦ elim (Bool-cases (leb (length chunk) asked)) [
        | inl fits ↦
            rw (under, fits)
              (omega (
                arith,
                read_exact-coming later size (before ++ chunk),
                length-append before chunk,
                length-append chunk (arriving later),
              ))
        | inr more ↦
            rw (under, more)
              (omega (
                arith,
                got-exact size (before ++ take asked chunk),
                length-append before (take asked chunk),
                length-take-drop asked chunk,
                length-append (drop asked chunk) (arriving later),
                length-append chunk (arriving later),
              ))
      ]
    ]

read_body-coming :
    (first size : ℕ) (peer : List Signal) → coming ((read_body first size peer).1) ≤ coming peer
unfolding read_body
read_body-coming first size peer = elim (Bool-cases (leb size limit)) [
  | inl fits ↦
      let mask = read_exact peer 4 [] in
      rw fits (omega (arith, read_exact-coming peer 4 [], read_exact-coming (mask.1) size []))
  | inr over ↦ rw over (omega arith)
]

sized-coming :
    (first : ℕ) (call : Option Text × List Signal) → coming ((sized first call).1) ≤ coming (call.1)
unfolding sized
sized-coming first (none, peer) = omega arith
sized-coming first (some raw, peer) = read_body-coming first (unpack_from 0 raw) peer

read_size-coming :
    (first second : ℕ) (peer : List Signal) → coming ((read_size first second peer).1) ≤ coming peer
unfolding read_size
read_size-coming first second peer =
    let size = bit_and second 127 in
    elim (Bool-cases (size == 126 || size == 127)) [
      | inl long ↦
          let count : ℕ = if size == 126 then 2 else 8 in
          rw long (
            omega (
              arith,
              sized-coming first (read_exact peer count []),
              read_exact-coming peer count [],
            ))
      | inr short ↦ rw short (read_body-coming first size peer)
    ]

checked-coming :
    (test : Bool) (peer : List Signal) (next : Frame × List Signal) (n opcode : ℕ) (payload : Text)
    → coming (next.1) < n
    → (if test then (refused, peer) else next).0 ≡ complete opcode payload
    → coming ((if test then (refused, peer) else next).1) < n
checked-coming true peer next n opcode payload less read = absurd cc
checked-coming false peer next n opcode payload less read = less

headed-coming :
    (call : Option Text × List Signal) (n opcode : ℕ) (payload : Text)
    → got (call.0) + coming (call.1) ≤ n
    → (headed call).0 ≡ complete opcode payload
    → coming ((headed call).1) < n
unfolding headed got
headed-coming (none, peer) n opcode payload le read = absurd cc
headed-coming (some [], peer) n opcode payload le read = absurd cc
headed-coming (some (a ∷ []), peer) n opcode payload le read = absurd cc
headed-coming (some (a ∷ b ∷ c ∷ more), peer) n opcode payload le read = absurd cc
headed-coming (some (a ∷ b ∷ []), peer) n opcode payload le read =
    checked-coming (bit_and a 128 == 0 || bit_and b 128 == 0) peer (read_size a b peer) n opcode
      payload (omega (arith, read_size-coming a b peer)) read

read_frame-coming :
    (peer : List Signal) (opcode : ℕ) (payload : Text)
    → (read_frame peer).0 ≡ complete opcode payload
    → coming ((read_frame peer).1) < coming peer
unfolding read_frame
read_frame-coming peer opcode payload read =
    headed-coming (read_exact peer 2 []) (coming peer) opcode payload
      (omega (arith, read_exact-coming peer 2 [])) read

abbrev Ends : Session Effect → Type 0
Ends result = result.1 ≢ out_of_fuel

after-Ends :
    (step : Step) (left : List Signal) (rest : Session Effect)
    → Ends rest
    → Ends (after step left rest)
unfolding after
after-Ends (stops effects) left rest ends = λ e. cc
after-Ends (goes_on effects) left rest ends = ends
after-Ends raises left rest ends = λ e. cc

after-turn :
    (frame' : Frame) (left : List Signal) (rest : Session Effect)
    → ((opcode : ℕ) (payload : Text) → frame' ≡ complete opcode payload → Ends rest)
    → Ends (after (turn frame') left rest)
unfolding after turn
after-turn ended left rest ends = λ e. cc
after-turn refused left rest ends = λ e. cc
after-turn (complete opcode payload) left rest ends =
    after-Ends (answer opcode payload) left rest (ends opcode payload refl)

-- The loop ends, whatever comes and whenever `closing` is set: one more round than there are bytes to come
-- is enough.
serve-Ends : (fuel : ℕ) (peer : List Signal) → coming peer < fuel → Ends (serve fuel peer)
unfolding serve
serve-Ends zero peer less = absurd (omega arith)
serve-Ends (suc fuel) peer less = elim (Bool-cases (is_closing peer)) [
  | inl closing ↦ rw closing (λ e. cc)
  | inr open' ↦ rw open' (
      after-turn ((read_frame peer).0) ((read_frame peer).1) (serve fuel ((read_frame peer).1))
        (λ opcode payload read.
          serve-Ends fuel ((read_frame peer).1)
            (omega (arith, read_frame-coming peer opcode payload read))))
]
