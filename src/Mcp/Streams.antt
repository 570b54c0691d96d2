-- ===== src/Mcp/Streams.antt =====
-- `stream`: the opening of an events stream, and one round of its loop.
use samgita.Prelude.{
  ℕ, ◌+◌, Bool, true, false, Option, none, some, String, List, [], ◌∷◌, ◌++◌, drop, ◌==◌, not, ◌||◌,
  if◌then◌else◌,
}
use samgita.Json.{Value, null, number, text, dict, end}
use samgita.Json.Build.{object, fields}
use samgita.Json.Equality.{equal}
use samgita.Actions.{
  Outcome, ok, raise, broken_pipe, pure, fail, lift, gets, modify, assert, ◌>>=◌, ◌>>◌,
}
use samgita.Mcp.Fixture.{Fixture, Call, Stream, append, note}
use samgita.Mcp.Http.{Delivery, headers_lost, send, attribute, subscript}

-- self.streams[number]
unfoldable pub stream_of : ℕ → List Stream → Option Stream
stream_of n [] = none
stream_of n (s ∷ streams) = if s.number == n then some s else stream_of n streams

-- A change of the stream object of a number.
unfoldable pub change : ℕ → (Stream → Stream) → List Stream → List Stream
change n f [] = []
change n f (s ∷ streams) =
    let rest = change n f streams in if s.number == n then f s ∷ streams else s ∷ rest

unfoldable pub set_cancelled : Stream → Stream
set_cancelled s = record s { cancelled = true }

unfoldable pub set_closed : Stream → Stream
set_closed s = record s { closed = true }

unfoldable pub change_stream : ℕ → (Stream → Stream) → Call Unit
unfolding change
change_stream n f = modify (λ s. record s { streams = change n f s.streams })

-- The headers of a stream's response.
unfoldable pub begin_stream : Delivery → Call Unit
unfolding send
begin_stream headers_lost = fail broken_pipe
begin_stream _ = modify (
    send
      (record { status = 200; headers = ("Content-Type", "text/event-stream") ∷ []; body = null }))

unfoldable pub set_served : Stream → Stream
set_served s = record s { served = true }

unfoldable pub add_stream : ℕ → Value → Fixture → Fixture
add_stream n identity s = record s {
  streams =
      s.streams
      ++ record {
        number = n;
        request_id = identity;
        queue = [];
        served = false;
        cancelled = false;
        closed = false;
      }
        ∷ [];
}

-- The journal row of a stream and its headers.
unfoldable pub announced : Delivery → Value → ℕ → Value → Call Unit
announced delivery message n identity = do
  params ← lift (attribute null "params" message)
  note "stream_opened" (("stream", number n) ∷ ("request_id", identity) ∷ ("params", params) ∷ [])
  begin_stream delivery
  change_stream n set_served

-- `stream` from its number to its headers.
unfoldable pub counted : Delivery → Value → Call Unit
counted delivery message = do
  n ← gets (λ s. s.next_stream)
  identity ← lift (subscript "id" message)
  modify (add_stream n identity)
  announced delivery message n identity

unfoldable pub open_stream : Delivery → Value → Call Unit
unfolding counted
open_stream delivery message = do
  modify (λ s. record s { next_stream = s.next_stream + 1 })
  counted delivery message

-- What select and recv show of the peer.
pub data Peer : Type 0 where
  quiet eof reset : Peer

-- One round: whether the deadline has passed, the peer, and whether a write reaches it.
pub record Round : Type 0 where
  pub late : Bool
  pub peer : Peer
  pub written : Bool

-- The `finally` of `stream`.
unfoldable pub close_stream : ℕ → Fixture → Fixture
unfolding append change set_closed
close_stream n s =
    append "stream_closed" (fields (("stream", number n) ∷ []))
      (record s { streams = change n set_closed s.streams })

transport_closed : Stream → String → Call Unit
transport_closed stream reason = do
  change_stream stream.number set_cancelled
  note "stream_transport_closed" (
      ("stream", number stream.number)
      ∷ ("request_id", stream.request_id)
      ∷ ("reason", text reason)
      ∷ [])

-- output, of an action
unfoldable pub output_of : Stream → Value → Value
output_of stream action =
    if equal action (text "complete")
    then object (("jsonrpc", text "2.0") ∷ ("id", stream.request_id) ∷ ("result", dict end) ∷ [])
    else action

-- queue.get, of a queue that holds an action
unfoldable pub drop_action : Stream → Stream
drop_action s = record s { queue = drop 1 s.queue }

-- The write of an action; the answer is whether the loop goes on.
write_action : Stream → Bool → Value → Call Bool
unfolding output_of
write_action stream written action =
    if written
    then (do
      note "stream_sent"
          (("stream", number stream.number) ∷ ("output", output_of stream action) ∷ [])
      pure (not (equal action (text "complete"))))
    else (do note "stream_peer_closed" (("stream", number stream.number) ∷ []); pure false)

unfoldable pub take_action : Stream → Bool → List Value → Call Bool
unfolding write_action
take_action stream written [] = pure true
take_action stream written (action ∷ rest) = do
  change_stream stream.number drop_action
  write_action stream written action

unfoldable pub peer_round : Stream → Bool → Peer → Call Bool
unfolding transport_closed
peer_round stream written eof = do transport_closed stream "peer-eof"; pure false
peer_round stream written reset = do transport_closed stream "peer-reset"; pure false
peer_round stream written quiet = take_action stream written stream.queue

-- The body of the loop, for a stream whose handler is still in it.
unfoldable pub loop_round : Stream → Round → Call Bool
loop_round stream round = do
  closing ← gets (λ s. s.closing)
  if closing || stream.cancelled
      then pure false
      else do assert (not round.late); peer_round stream round.written round.peer

-- The loop goes on at `true`; else, and after an exception, the `finally` runs.
unfoldable pub leave : ℕ → Outcome Bool → Call Unit
unfolding close_stream
leave n (ok true) s = (ok tt, s)
leave n (ok false) s = (ok tt, close_stream n s)
leave n (raise e) s = (raise e, close_stream n s)

unfoldable pub live_round : Stream → Round → Call Unit
live_round stream round s = let (r, s') = loop_round stream round s in leave stream.number r s'

unfoldable pub round_of : Option Stream → Round → Call Unit
round_of none round = pure tt
round_of (some stream) round =
    if stream.closed || not stream.served then pure tt else live_round stream round

-- A turn of the handler of stream `n`, which is in its loop from the headers to the `finally`.
unfoldable pub stream_round : ℕ → Round → Call Unit
stream_round n round = do found ← gets (λ s. stream_of n s.streams); round_of found round
