-- ===== src/Frames.antt =====
-- The WebSocket peer of scripts/codex/isolated_remote_control_fixture.py: `frame`, `read_exact`,
-- `read_frame`, and the loop of `websocket` after its handshake.
use Prim.Native.Nat.{bit_and, bit_or, bit_xor}
use samgita.Prelude.{
  ℕ, zero, suc, ◌+◌, ◌-◌, ◌*◌, ◌%◌, Bool, true, false, ◌||◌, Option, none, some, List, [], ◌∷◌,
  ◌++◌, if◌then◌else◌, ltb, leb, ◌==◌, length, take, drop, Text,
}
mod Bytes
mod Chunks
mod Headers
mod Masked
mod Serving
mod Progress
mod Handshake
mod Examples

-- What happens at the socket, in the order of time: bytes that `recv` returns, at most as many as it
-- asks for, where no bytes are a peer that has closed; its timeout; and the event `closing`, which
-- stays at the front since it stays set.
pub data Signal : Type 0 where
  arrives : Text → Signal
  times_out : Signal
  closes : Signal

-- data if len(data) == size else None
unfoldable pub exact : ℕ → Text → Option Text
exact size data' = if length data' == size then some data' else none

-- With the bytes that the rounds before have read, and what is left at the socket. A round that
-- gets all it asked for is the last.
unfoldable pub read_exact : List Signal → ℕ → Text → Option Text × List Signal
unfolding exact
read_exact [] size data' = (exact size data', [])
read_exact (closes ∷ later) size data' = (exact size data', closes ∷ later)
read_exact (times_out ∷ later) size data' =
    let rest = read_exact later size data' in
    if ltb (length data') size then rest else (exact size data', times_out ∷ later)
read_exact (arrives [] ∷ later) size data' = (exact size data', arrives [] ∷ later)
read_exact (arrives (byte ∷ bytes) ∷ later) size data' =
    let chunk = byte ∷ bytes in
    let asked = size - length data' in
    let rest = read_exact later size (data' ++ chunk) in
    if ltb (length data') size
    then if leb (length chunk) asked
      then rest
      else (exact size (data' ++ take asked chunk), arrives (drop asked chunk) ∷ later)
    else (exact size data', arrives chunk ∷ later)

-- struct.unpack with "!H" or "!Q": the first byte is the highest.
unfoldable pub unpack_from : ℕ → Text → ℕ
unpack_from n [] = n
unpack_from n (byte ∷ bytes) = unpack_from (n * 256 + byte) bytes

-- mask[i]; the mask has four bytes, and `i` is less.
unfoldable pub mask_at : Text → ℕ → ℕ
mask_at [] i = 0
mask_at (byte ∷ mask) zero = byte
mask_at (byte ∷ mask) (suc i) = mask_at mask i

unfoldable pub unmask : Text → ℕ → Text → Text
unfolding mask_at
unmask mask index [] = []
unmask mask index (value ∷ payload) =
    bit_xor value (mask_at mask (index % 4)) ∷ unmask mask (suc index) payload

-- None is a connection that ended first; a failed assertion is refused.
pub data Frame : Type 0 where
  complete : ℕ → Text → Frame
  ended : Frame
  refused : Frame

unfoldable pub unmasked : ℕ → Option Text → Option Text → Frame
unfolding unmask
unmasked first (some mask) (some payload) = complete (bit_and first 15) (unmask mask 0 payload)
unmasked first _ _ = ended

abbrev pub limit : ℕ
limit = 1048576

-- The mask and the payload, for the first byte and the size. The payload is read even if the mask
-- did not arrive.
unfoldable pub read_body : ℕ → ℕ → List Signal → Frame × List Signal
unfolding unmasked read_exact
read_body first size peer =
    if leb size limit
    then (let mask = read_exact peer 4 [] in
        let payload = read_exact (mask.1) size [] in
        (unmasked first (mask.0) (payload.0), payload.1))
    else (refused, peer)

unfoldable pub sized : ℕ → Option Text × List Signal → Frame × List Signal
unfolding read_body unpack_from
sized first (none, peer) = (ended, peer)
sized first (some raw, peer) = read_body first (unpack_from 0 raw) peer

unfoldable pub read_size : ℕ → ℕ → List Signal → Frame × List Signal
unfolding sized read_body read_exact
read_size first second peer =
    let size = bit_and second 127 in
    if size == 126 || size == 127
    then sized first (read_exact peer (if size == 126 then 2 else 8) [])
    else read_body first size peer

-- After the two bytes of the head.
unfoldable pub headed : Option Text × List Signal → Frame × List Signal
unfolding read_size
headed (some (first ∷ second ∷ []), peer) =
    if bit_and first 128 == 0 || bit_and second 128 == 0
    then (refused, peer)
    else read_size first second peer
headed (_, peer) = (ended, peer)

unfoldable pub read_frame : List Signal → Frame × List Signal
unfolding headed read_exact
read_frame peer = headed (read_exact peer 2 [])

-- A frame of the fixture, none where its assertion fails; the opcode is a byte.
unfoldable pub frame : Text → ℕ → Option Text
frame payload opcode =
    if leb (length payload) 125 then some (bit_or 128 opcode ∷ length payload ∷ payload) else none
