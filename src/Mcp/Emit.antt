-- ===== src/Mcp/Emit.antt =====
-- The `emit` operation of `control`: a notification for a stream's queue.
use samgita.Prelude.{
  ℕ, true, false, Option, none, some, String, str_eq, member, List, [], ◌∷◌, ◌++◌, length, ltb, not,
  ◌&&◌, ◌||◌, join, if◌then◌else◌,
}
use samgita.Json.{Value, null, boolean, number, text, list, dict, Fields}
use samgita.Json.Build.{object, array, fields, set, pop}
use samgita.Actions.{
  Error, Outcome, ok, raise, key_error, type_error, full, fail, lift, gets, require, assert, ◌>>=◌,
  ◌>>◌,
}
use samgita.Mcp.Fixture.{Call, Stream, note, is_profile, events}
use samgita.Mcp.Http.{subscript}
use samgita.Mcp.Streams.{stream_of, change_stream}

-- value in {"...", ...}, asserted; the answer is the text. A list or a dict has no hash.
unfoldable pub text_in : List String → Value → Outcome String
text_in allowed (text s) = if member s allowed then ok s else raise Error.assertion_error
text_in allowed (list xs) = raise type_error
text_in allowed (dict fields) = raise type_error
text_in allowed _ = raise Error.assertion_error

-- The key of a dict whose keys are integers: True is 1 and False is 0.
integer_key : Value → Outcome ℕ
integer_key (number n) = ok n
integer_key (boolean true) = ok 1
integer_key (boolean false) = ok 0
integer_key (list xs) = raise type_error
integer_key (dict fields) = raise type_error
integer_key _ = raise key_error

abbrev pub kinds : List String
kinds = "active" ∷ "event" ∷ "terminated" ∷ "wrong-id" ∷ "missing-id" ∷ "complete" ∷ "late" ∷ []

abbrev subscription : String
subscription = "io.modelcontextprotocol/subscriptionId"

-- The request id of the last stream before `n` that was cancelled: stale[-1]["request_id"].
unfoldable pub last_stale : ℕ → List Stream → Option Value
last_stale n [] = none
last_stale n (s ∷ streams) = elim (last_stale n streams) [
  | some v ↦ some v
  | none ↦ if ltb s.number n && s.cancelled then some s.request_id else none
]

-- `_meta`, by kind
metadata_of : List Stream → Stream → String → Outcome Fields
unfolding last_stale
metadata_of streams stream kind =
    let metadata =
      fields ((subscription, stream.request_id) ∷ ("provider", text "owned-events") ∷ []) in
    if str_eq kind "wrong-id"
    then ok (set subscription (text "owned-unrelated-request") metadata)
    else if str_eq kind "missing-id"
    then ok (pop subscription metadata)
    else if str_eq kind "late" && not stream.closed
    then elim (last_stale stream.number streams) [
      | none ↦ raise Error.assertion_error
      | some stale ↦ ok (set subscription stale metadata)
    ]
    else ok metadata

payload : String → List (String × Value)
payload kind =
    if str_eq kind "active"
    then ("status", text "active") ∷ []
    else if str_eq kind "terminated"
    then []
    else ("name", text "owned.updated")
      ∷ (
        "data",
        object (
            ("value", text "λ🙂")
            ∷ ("nested", array (number 1 ∷ null ∷ boolean false ∷ []))
            ∷ ("sentinel", text kind)
            ∷ []),
      )
      ∷ []

notification_for : String → Fields → Value
unfolding payload
notification_for kind metadata = object (
    ("jsonrpc", text "2.0")
    ∷ (
      "method",
      text (
          join (
            "notifications/events/"
            ∷ (if str_eq kind "active" || str_eq kind "terminated" then kind else "event")
            ∷ [])),
    )
    ∷ ("params", object (("_meta", dict metadata) ∷ payload kind))
    ∷ [])

-- output
unfoldable pub output_for : List Stream → Stream → String → Outcome Value
unfolding metadata_of notification_for
output_for streams stream kind =
    if str_eq kind "complete"
    then ok (text "complete")
    else elim (metadata_of streams stream kind) [
      | raise e ↦ raise e
      | ok metadata ↦ ok (notification_for kind metadata)
    ]

unfoldable pub enqueue : Value → Stream → Stream
enqueue output s = record s { queue = s.queue ++ output ∷ [] }

-- queue.put_nowait(output), of a queue with maxsize 16
unfoldable pub put_nowait : Stream → Value → Call Unit
put_nowait stream output =
    if ltb (length stream.queue) 16 then change_stream stream.number (enqueue output) else fail full

unfoldable pub emit : Value → Call Unit
unfolding integer_key output_for
emit message = do
  s ← gets (λ s. s)
  assert (is_profile s.profile events)
  key ← lift (subscript "stream" message)
  n ← lift (integer_key key)
  stream ← require (stream_of n s.streams) key_error
  named ← lift (subscript "kind" message)
  kind ← lift (text_in kinds named)
  output ← lift (output_for s.streams stream kind)
  if stream.closed || stream.cancelled
      then (do
        assert (str_eq kind "late")
        note "late_after_close" (("stream", number stream.number) ∷ []))
      else put_nowait stream output
