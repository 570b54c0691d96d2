-- ===== src/Mcp/FormPeer.antt =====
-- `form_peer`: the stdio MCP server with one inert tool, whose call asks for an explicit decision.
pub mod Printed
pub mod Decisions
use samgita.Prelude.{
  ℕ, ◌+◌, Bool, true, false, Option, none, some, String, str_eq, List, [], ◌∷◌, ◌++◌, not, ◌&&◌,
  ◌==◌, leb, length, if◌then◌else◌, Text,
}
use samgita.Json.{Value, null, boolean, number, text, dict, Fields, end, field, get, is_null}
use samgita.Json.Build.{object, array, strings}
use samgita.Json.Equality.{equal}
use samgita.Actions.{
  Error, Outcome, ok, raise, Action, pure, fail, lift, gets, modify, assert, ◌>>=◌, ◌>>◌,
}
use samgita.Mcp.Http.{Python, attribute, subscript, is_named}

-- `pending` is null where it is None; `rows` is the journal, and `sent` what is printed.
pub record Peer : Type 0 where
  pub pending : Value
  pub calls : ℕ
  pub rows : List Value
  pub sent : List Value

abbrev pub Call : Type 0 → Type 0
Call A = Action Peer A

unfoldable pub append : Value → Peer → Peer
append row s = record s { rows = s.rows ++ row ∷ [] }

-- record(row)
unfoldable pub note : List (String × Value) → Call Unit
unfolding append modify
note row = modify (append (object row))

-- {"jsonrpc": "2.0", **message}
abbrev pub message_of : List (String × Value) → Value
message_of message = object (("jsonrpc", text "2.0") ∷ message)

abbrev pub row_out : List (String × Value) → List (String × Value)
row_out message = ("direction", text "out") ∷ ("message", message_of message) ∷ []

-- send(message)
unfoldable pub send : List (String × Value) → Call Unit
send message = do
  note (row_out message)
  modify (λ s. record s { sent = s.sent ++ message_of message ∷ [] })

-- result(identity, value)
unfoldable pub result : Value → Value → Call Unit
unfolding send
result identity v = send (("id", identity) ∷ ("result", v) ∷ [])

-- message[key][...], with the exceptions of a missing key
path_of : List String → Value → Outcome Value
path_of [] v = ok v
path_of (key ∷ keys) v = elim (subscript key v) [ raise e ↦ raise e | ok w ↦ path_of keys w ]

-- message[key][...] == value, asserted
unfoldable pub assert_at : Value → List String → Value → Call Unit
unfolding path_of
assert_at message keys v = do found ← lift (path_of keys message); assert (equal found v)

unfoldable pub initialize : Value → Value → Call Unit
unfolding result
initialize message identity = do
  assert_at message ("params" ∷ "protocolVersion" ∷ []) (text "2025-06-18")
  assert_at message ("params" ∷ "capabilities" ∷ "extensions" ∷ [])
      (object (("openai/form", dict end) ∷ []))
  result identity (
      object (
        ("protocolVersion", text "2025-06-18")
        ∷ ("capabilities", object (("tools", dict end) ∷ []))
        ∷ ("serverInfo", object (("name", text "owned-bool-form") ∷ ("version", text "1.0.0") ∷ []))
        ∷ []))

unfoldable pub tools : Value
tools = object (
    (
      "tools",
      array (
          object (
            ("name", text "confirm")
            ∷ ("description", text "Owned bool translation form")
            ∷ ("inputSchema", object (("type", text "object") ∷ ("properties", dict end) ∷ []))
            ∷ (
              "annotations",
              object (("readOnlyHint", boolean true) ∷ ("destructiveHint", boolean false) ∷ []),
            )
            ∷ [])
          ∷ []),
    )
    ∷ [])

-- The form that a call of the tool asks for.
unfoldable pub form : List (String × Value)
form =
    ("id", text "owned-bool-form")
    ∷ ("method", text "openai/form")
    ∷ (
      "params",
      object (
          ("message", text "Owned bool translation form")
          ∷ ("_meta", object (("fixture/request", text "bool-translation") ∷ []))
          ∷ (
            "requestedSchema",
            object (
                ("type", text "object")
                ∷ (
                  "properties",
                  object (
                      (
                        "labels",
                        object (
                            ("type", text "array")
                            ∷ ("items", object (("type", text "string") ∷ []))
                            ∷ []),
                      )
                      ∷ []),
                )
                ∷ ("required", strings ("labels" ∷ []))
                ∷ ("additionalProperties", boolean false)
                ∷ []),
          )
          ∷ []),
    )
    ∷ []

-- pending = identity, and the form that is sent
unfoldable pub asks : Value → Call Unit
unfolding send form
asks identity = do modify (λ s. record s { pending = identity }); send form

-- What tools/call does once it is counted.
unfoldable pub called : Value → Value → Call Unit
called message identity = do
  s ← gets (λ s. s)
  assert (s.calls == 1 && is_null s.pending)
  assert_at message ("params" ∷ "name" ∷ []) (text "confirm")
  assert_at message ("params" ∷ "arguments" ∷ []) (dict end)
  asks identity

unfoldable pub call : Value → Value → Call Unit
call message identity = do modify (λ s. record s { calls = s.calls + 1 }); called message identity

has_key : String → Value → Bool
has_key key (dict fields) = elim (get key fields) [ none ↦ false | some v ↦ true ]
has_key key _ = false

unfoldable pub accepted : Value
accepted = object (
    ("action", text "accept")
    ∷ ("content", object (("labels", strings ("owned-λ" ∷ [])) ∷ []))
    ∷ ("_meta", object (("fixture/response", text "explicit-owned-decision") ∷ []))
    ∷ [])

-- The row of the decision, the result of the call that waited for it, and pending = None
unfoldable pub decides : Value → Call Unit
unfolding result
decides pending = do
  note (("decision_observed", text "accept") ∷ [])
  result pending (
      object (
        (
          "content",
          array (
              object (
                ("type", text "text") ∷ ("text", text "Owned explicit form decision observed") ∷ [])
              ∷ []),
        )
        ∷ ("isError", boolean false)
        ∷ []))
  modify (λ s. record s { pending = null })

unfoldable pub decision : Value → Call Unit
unfolding has_key accepted
decision message = do
  s ← gets (λ s. s)
  assert (not (is_null s.pending) && not (has_key "error" message))
  assert_at message ("result" ∷ []) accepted
  decides s.pending

-- The branches on the method and the id of a message.
unfoldable pub dispatch : Value → Value → Value → Call Unit
dispatch message method identity =
    if is_named method "initialize"
    then initialize message identity
    else if is_named method "notifications/initialized"
    then assert (is_null identity)
    else if is_named method "tools/list"
    then result identity tools
    else if is_named method "resources/list"
    then result identity (object (("resources", array []) ∷ []))
    else if is_named method "resources/templates/list"
    then result identity (object (("resourceTemplates", array []) ∷ []))
    else if is_named method "tools/call"
    then call message identity
    else if is_named identity "owned-bool-form"
    then decision message
    else if is_named method "ping"
    then result identity (dict end)
    else (do
      note (("forbidden_form", boolean true) ∷ ("method", method) ∷ [])
      fail Error.assertion_error)

module _ (py : Python) where
  -- One line of stdin.
  unfoldable pub read : Text → Call Unit
  read line = do
    assert (leb (length line) 65536)
    message ← lift (py.json_loads line)
    note (("direction", text "in") ∷ ("message", message) ∷ [])
    method ← lift (attribute null "method" message)
    identity ← lift (attribute null "id" message)
    dispatch message method identity

  -- The loop, which an exception ends; then the `finally`.
  unfoldable pub loop : List Text → Call Unit
  loop [] = pure tt
  loop (line ∷ lines) = do read line; loop lines

  unfoldable pub form_peer : ℕ → List Text → Call Unit
  form_peer pid lines s =
      let (r, s') = (do note (("peer_started", number pid) ∷ []); loop lines) s in
      (r, append (object (("peer_closed", boolean true) ∷ [])) s')

abbrev pub idle : Peer
idle = record { pending = null; calls = 0; rows = []; sent = [] }
