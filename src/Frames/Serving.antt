-- ===== src/Frames/Serving.antt =====
-- The loop of `websocket` in scripts/codex/isolated_remote_control_fixture.py, after the handshake, and
-- what it answers to a client's pings. Its sends succeed.
use samgita.Prelude.{
  ℕ, zero, suc, ◌≤◌, ◌<◌, ◌≡◌, refl, ap, ◌∙◌, Bool, true, false, Option, none, some, List, [], ◌∷◌,
  ◌++◌, if◌then◌else◌, leb, ◌==◌, length, All, arith, Text,
}
use samgita.Frames.{
  Signal, arrives, times_out, closes, Frame, complete, ended, refused, frame, read_frame,
}
use samgita.Frames.Bytes.{IsByte}
use samgita.Frames.Chunks.{is_steady, arriving}
use samgita.Frames.Masked.{Gives, masked_frame, read_frame-masked_frame}

-- What the loop sends and records.
pub data Effect : Type 0 where
  sent : Text → Effect
  pinged : Effect
  forbidden : ℕ → Effect
  closed : Effect

-- How the loop ends: by a break or its condition, or by an exception that it does not catch.
pub data Ending : Type 0 where
  finished : Ending
  crashed : Ending
  out_of_fuel : Ending

-- How a round ends.
pub data Step : Type 0 where
  stops : List Effect → Step
  goes_on : List Effect → Step
  raises : Step

unfoldable pub echoed : Option Text → Step
echoed (some bytes) = stops (sent bytes ∷ [])
echoed none = raises

unfoldable pub ponged : Option Text → Step
ponged (some bytes) = goes_on (sent bytes ∷ pinged ∷ [])
ponged none = raises

unfoldable pub answer : ℕ → Text → Step
unfolding echoed ponged frame
answer opcode payload =
    if opcode == 8
    then echoed (frame payload 8)
    else if opcode == 9
    then ponged (frame payload 10)
    else if opcode == 10
    then goes_on []
    else stops (forbidden opcode ∷ [])

unfoldable pub turn : Frame → Step
unfolding answer
turn (complete opcode payload) = answer opcode payload
turn ended = stops []
turn refused = raises

unfoldable pub is_closing : List Signal → Bool
is_closing (closes ∷ later) = true
is_closing _ = false

-- What is done, how that ends, and what is left unread at the peer.
abbrev pub Session : Type 0 → Type 0
Session A = List A × Ending × List Signal

-- The `finally` clause records the close, however the loop ends.
unfoldable pub after : Step → List Signal → Session Effect → Session Effect
after (stops effects) left rest = (effects ++ closed ∷ [], finished, left)
after (goes_on effects) left rest = (effects ++ rest.0, rest.1, rest.2)
after raises left rest = (closed ∷ [], crashed, left)

unfoldable pub serve : ℕ → List Signal → Session Effect
unfolding is_closing turn after read_frame
serve zero peer = ([], out_of_fuel, peer)
serve (suc fuel) peer =
    let frame' = read_frame peer in
    let rest = serve fuel (frame'.1) in
    if is_closing peer
    then (closed ∷ [], finished, peer)
    else after (turn (frame'.0)) (frame'.1) rest

-- Pings and pongs of a client, each with its mask.
pub data Message : Type 0 where
  ping : Text → Text → Message
  pong : Text → Text → Message

-- A mask of four bytes, and a payload that a control frame can hold.
abbrev pub IsMasked : Text → Text → Type 0
IsMasked mask payload =
    (length mask ≡ 4) × All IsByte mask × All IsByte payload × (length payload ≤ 125)

abbrev pub IsControl : Message → Type 0
IsControl (ping mask payload) = IsMasked mask payload
IsControl (pong mask payload) = IsMasked mask payload

-- The bytes of the messages, then others.
unfoldable pub script : List Message → Text → Text
script [] rest = rest
script (ping mask payload ∷ messages) rest = masked_frame 9 mask payload ++ script messages rest
script (pong mask payload ∷ messages) rest = masked_frame 10 mask payload ++ script messages rest

-- A pong for each ping, with its payload.
unfoldable pub pongs : List Message → List Effect
pongs [] = []
pongs (ping mask payload ∷ messages) =
    sent (138 ∷ length payload ∷ payload) ∷ pinged ∷ pongs messages
pongs (pong mask payload ∷ messages) = pongs messages

answer_close :
    (payload : Text)
    → length payload ≤ 125
    → answer 8 payload ≡ stops (sent (136 ∷ length payload ∷ payload) ∷ [])
unfolding answer echoed frame
answer_close payload short = let fits : leb (length payload) 125 ≡ true = ground arith in rw fits

answer_ping :
    (payload : Text)
    → length payload ≤ 125
    → answer 9 payload ≡ goes_on (sent (138 ∷ length payload ∷ payload) ∷ pinged ∷ [])
unfolding answer ponged frame
answer_ping payload short = let fits : leb (length payload) 125 ≡ true = ground arith in rw fits

steady_lem : (peer : List Signal) → is_steady peer ≡ true → is_closing peer ≡ false
unfolding is_steady is_closing
steady_lem [] steady = refl
steady_lem (closes ∷ later) steady = absurd cc
steady_lem (arrives chunk ∷ later) steady = refl
steady_lem (times_out ∷ later) steady = refl

-- One round at a peer that stays.
serve-Gives :
    (fuel : ℕ) (peer : List Signal) (frame' : Frame) (rest : Text)
    → is_steady peer ≡ true
    → Gives (read_frame peer) frame' rest
    → serve (suc fuel) peer
      ≡ after (turn frame') ((read_frame peer).1) (serve fuel ((read_frame peer).1))
unfolding serve
serve-Gives fuel peer frame' rest steady got = rw (steady_lem peer steady, got.0)

-- A message's frame comes first, and is read.
read_control :
    (peer : List Signal) (opcode : ℕ) (mask payload rest : Text)
    → is_steady peer ≡ true
    → arriving peer ≡ masked_frame opcode mask payload ++ rest
    → opcode < 16
    → IsMasked mask payload
    → Gives (read_frame peer) (complete opcode payload) rest
read_control peer opcode mask payload rest steady all_of small masked =
    read_frame-masked_frame peer opcode mask payload rest steady all_of small (masked.0) (masked.1)
      (masked.2) (omega arith)

-- The effects of a session with a client that closes, and that what comes after its closing frame is left.
abbrev pub Serves : ℕ → List Signal → List Effect → Text → Type 0
Serves fuel peer effects rest =
    (left : List Signal) × (serve fuel peer ≡ (effects, finished, left)) × (arriving left ≡ rest)

-- A message whose answer lets the loop go on.
goes-Serves :
    (fuel opcode : ℕ) (peer : List Signal) (payload others rest : Text) (effects more : List Effect)
    → is_steady peer ≡ true
    → Gives (read_frame peer) (complete opcode payload) others
    → answer opcode payload ≡ goes_on effects
    → Serves fuel ((read_frame peer).1) more rest
    → Serves (suc fuel) peer (effects ++ more) rest
unfolding turn after
goes-Serves fuel opcode peer payload others rest effects more steady got answered next = (
  next.0,
  serve-Gives fuel peer (complete opcode payload) others steady got
      ∙ ap (λ s. after s ((read_frame peer).1) (serve fuel ((read_frame peer).1))) answered
      ∙ ap (after (goes_on effects) ((read_frame peer).1)) next.1,
  next.2,
)

-- Whatever the pieces in which a client's pings and pongs arrive and the timeouts between them, the loop
-- sends a pong for each ping, in order and with its payload, and nothing for a pong; then it sends the
-- payload of the closing frame back, records the close, and ends with no exception; what comes after it is left. Masks have four bytes
-- and payloads at most 125.
pub serve-script :
    (messages : List Message) (mask payload rest : Text) (peer : List Signal)
    → All IsControl messages
    → IsMasked mask payload
    → is_steady peer ≡ true
    → arriving peer ≡ script messages (masked_frame 8 mask payload ++ rest)
    → Serves
        (suc (length messages))
        peer
        (pongs messages ++ sent (136 ∷ length payload ∷ payload) ∷ closed ∷ [])
        rest
unfolding script pongs
serve-script [] mask payload rest peer controls masked steady all_of =
    let got = read_control peer 8 mask payload rest steady all_of (omega arith) masked in
    (
      (read_frame peer).1,
      serve-Gives 0 peer (complete 8 payload) rest steady got
          ∙ unfold turn after in
            ap (λ s. after s ((read_frame peer).1) (serve 0 ((read_frame peer).1)))
              (answer_close payload (masked.3)),
      got.2,
    )
serve-script (ping m p ∷ messages) mask payload rest peer controls masked steady all_of =
    let others = script messages (masked_frame 8 mask payload ++ rest) in
    let got = read_control peer 9 m p others steady all_of (omega arith) (controls.0) in
    goes-Serves (suc (length messages)) 9 peer p others rest
      (sent (138 ∷ length p ∷ p) ∷ pinged ∷ [])
      (pongs messages ++ sent (136 ∷ length payload ∷ payload) ∷ closed ∷ []) steady got
      (answer_ping p (controls.0.3))
      (serve-script messages mask payload rest ((read_frame peer).1) (controls.1) masked (got.1)
        (got.2))
serve-script (pong m p ∷ messages) mask payload rest peer controls masked steady all_of =
    let others = script messages (masked_frame 8 mask payload ++ rest) in
    let got = read_control peer 10 m p others steady all_of (omega arith) (controls.0) in
    goes-Serves (suc (length messages)) 10 peer p others rest []
      (pongs messages ++ sent (136 ∷ length payload ∷ payload) ∷ closed ∷ []) steady got
      (unfold answer in refl)
      (serve-script messages mask payload rest ((read_frame peer).1) (controls.1) masked (got.1)
        (got.2))
