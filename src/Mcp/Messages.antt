-- ===== src/Mcp/Messages.antt =====
-- `mcp`, `do_POST` and the dispatch of a request.
use samgita.Prelude.{
  Bool, true, false, Option, none, some, String, str_eq, List, [], ◌∷◌, not, ◌&&◌, ◌||◌, join,
  starts_with, last_segment, if◌then◌else◌,
}
use samgita.Json.{Value, null, boolean, number, negative, text, dict, end, is_null}
use samgita.Json.Equality.{equal}
use samgita.Json.Build.{object, array}
use samgita.Actions.{pure, lift, gets, assert, when, ◌>>=◌, ◌>>◌}
use samgita.Mcp.Fixture.{
  Fixture, Call, Stream, events, is_profile, note, access, oauth_access, oauth_recovery_access,
  account, event_path,
}
use samgita.Mcp.Http.{Request, reply, header, is_text, is_none, attribute, is_named}
use samgita.Mcp.Oauth.{token}
use samgita.Mcp.Holds.{hold_initialize, hold_apps, initialize_result, result_body, session}
use samgita.Mcp.Streams.{change_stream, set_cancelled, open_stream}

-- The tests of the Authorization header under the lock.
pub record Bearer : Type 0 where
  pub revoked : Bool
  pub oauth_bearer : Bool
  pub access_generation : Value

abbrev pub bears : Request → String → Bool
bears request token = is_text (header request "Authorization") (join ("Bearer " ∷ token ∷ []))

unfoldable pub bearer : Request → Fixture → Bearer
bearer request s =
    let initial = bears request oauth_access in
    let recovery = bears request oauth_recovery_access in
    record {
      revoked = initial && s.oauth_access_revoked;
      oauth_bearer = initial && not s.oauth_access_revoked || recovery && s.oauth_recovery_issued;
      access_generation = if initial then number 1 else if recovery then number 2 else null;
    }

abbrev or_null : Option String → Value
or_null none = null
or_null (some s) = text s

unfoldable pub note_mcp : Request → String → Value → Value → Value → Bearer → Call Unit
note_mcp request path method identity params b = note "mcp" (
    ("path", text path)
    ∷ ("method", method)
    ∷ ("id", identity)
    ∷ ("params", params)
    ∷ ("session", or_null (header request "Mcp-Session-Id"))
    ∷ ("oauth_bearer_verified", boolean b.oauth_bearer)
    ∷ ("oauth_access_generation", b.access_generation)
    ∷ ("apps_bearer_verified", boolean (bears request access))
    ∷ ("inventory_bearer_verified", boolean (bears request "synthetic-owned-inventory"))
    ∷ ("account_verified", boolean (is_text (header request "ChatGPT-Account-ID") account))
    ∷ [])

-- The WWW-Authenticate header.
unfoldable pub challenge_header : Fixture → Bool → List (String × String)
challenge_header s revoked =
    (
      "WWW-Authenticate",
      join (
          "Bearer "
          ∷ (if revoked then "error=\"invalid_token\", " else "")
          ∷ "resource_metadata=\""
          ∷ s.endpoint
          ∷ "/.well-known/oauth-protected-resource/oauth/mcp\""
          ∷ []),
    )
    ∷ []

unfoldable pub unauthenticated : Request → String → Value → Value → Bearer → Call Unit
unfolding challenge_header
unauthenticated request path method identity b = do
  s ← gets (λ s. s)
  written ←
      reply request.delivery 401 (object (("error", text "synthetic OAuth required") ∷ []))
        (challenge_header s b.revoked)
  note "oauth_unauthenticated_response" (
      ("path", text path)
      ∷ ("method", method)
      ∷ ("request_id", identity)
      ∷ ("status", number 401)
      ∷ ("challenge_present", boolean true)
      ∷ ("response_written", boolean written)
      ∷ [])
  when b.revoked (
      note "oauth_revoked_access_response" (
        ("path", text path)
        ∷ ("method", method)
        ∷ ("request_id", identity)
        ∷ ("access_generation", number 1)
        ∷ ("status", number 401)
        ∷ ("challenge_present", boolean true)
        ∷ ("response_written", boolean written)
        ∷ []))

-- The loop of notifications/cancelled over the streams.
unfoldable pub cancel_streams : Value → List Stream → Call Unit
cancel_streams cancelled [] = pure tt
cancel_streams cancelled (stream ∷ streams) = do
  when (equal stream.request_id cancelled) (do
    change_stream stream.number set_cancelled
    note "stream_cancelled" (("stream", number stream.number) ∷ ("request_id", cancelled) ∷ []))
  cancel_streams cancelled streams

notification : Request → Value → Value → Call Unit
unfolding cancel_streams
notification request method message = do
  if is_named method "notifications/cancelled"
      then (do
        params ← lift (attribute (dict end) "params" message)
        cancelled ← lift (attribute null "requestId" params)
        streams ← gets (λ s. s.streams)
        cancel_streams cancelled streams)
      else assert (is_named method "notifications/initialized")
  reply request.delivery 202 (dict end) []
  pure tt

unfoldable pub error_reply : Value → Value → String → Value
error_reply identity code message = object (
    ("jsonrpc", text "2.0")
    ∷ ("id", identity)
    ∷ ("error", object (("code", code) ∷ ("message", text message) ∷ []))
    ∷ [])

initialize : Request → String → Value → Value → Call Unit
unfolding initialize_result result_body session error_reply
initialize request path identity message = do
  s ← gets (λ s. s)
  let label = last_segment path
  if str_eq path event_path && s.apps_hold_enabled
      then hold_apps request.early message
      else if str_eq path "/inventory/a-held"
      then hold_initialize request.early message
      else if str_eq path "/inventory/a-failed"
      then (do
        note "inventory_startup_rejected" (("path", text path) ∷ ("request_id", identity) ∷ [])
        reply request.delivery 200
            (error_reply identity (negative 32602) "owned-inventory-initialize-rejected") []
        pure tt)
      else (do
        reply request.delivery 200 (result_body identity (initialize_result label)) (session label)
        pure tt)

-- tool(label)
tool : String → Value
tool label = object (
    ("name", text (join ("inspect." ∷ label ∷ [])))
    ∷ ("description", text "Inventory only λ")
    ∷ (
      "inputSchema",
      object (
          ("type", text "object")
          ∷ ("properties", object (("key", object (("type", text "string") ∷ [])) ∷ []))
          ∷ []),
    )
    ∷ (
      "annotations",
      object (("readOnlyHint", boolean true) ∷ ("destructiveHint", boolean false) ∷ []),
    )
    ∷ [])

-- The results of the listing methods, and none for any other method.
unfoldable pub listing : String → Value → Option Value
unfolding tool
listing path method =
    let label = last_segment path in
    if is_named method "tools/list"
    then some
        (object (("tools", array (if str_eq path event_path then [] else tool label ∷ [])) ∷ []))
    else if is_named method "resources/list"
    then some (
        object (
          (
            "resources",
            array (
                object (
                  ("uri", text (join ("fixture://" ∷ label ∷ [])))
                  ∷ ("name", text (join ("Owned " ∷ label ∷ [])))
                  ∷ ("mimeType", text "text/plain")
                  ∷ ("description", text "Owned resource")
                  ∷ [])
                ∷ []),
          )
          ∷ []))
    else if is_named method "resources/templates/list"
    then some (
        object (
          (
            "resourceTemplates",
            array (
                object (
                  ("uriTemplate", text (join ("fixture://" ∷ label ∷ "/{key}" ∷ [])))
                  ∷ ("name", text (join ("Owned template " ∷ label ∷ [])))
                  ∷ ("mimeType", text "text/plain")
                  ∷ [])
                ∷ []),
          )
          ∷ []))
    else if is_named method "ping"
    then some (dict end)
    else none

unfoldable pub answer : Request → String → Value → Value → Option Value → Call Unit
unfolding error_reply result_body
answer request path method identity (some result) = do
  reply request.delivery 200 (result_body identity result) []
  pure tt
answer request path method identity none = do
  note "forbidden_mcp" (("path", text path) ∷ ("method", method) ∷ [])
  reply request.delivery 200 (error_reply identity (negative 32600) "no execution route") []
  pure tt

-- The asserts on the headers of a path.
guard_path : Request → String → Call Unit
guard_path request path =
    if str_eq path event_path
    then assert
        (is_none (header request "Authorization") && is_none (header request "ChatGPT-Account-ID"))
    else when (starts_with path "/inventory/") (assert (bears request "synthetic-owned-inventory"))

-- What follows the 401 of `mcp`.
unfoldable pub serve : Request → String → Value → Value → Value → Call Unit
unfolding guard_path notification initialize listing answer
serve request path method identity message = do
  guard_path request path
  if is_named method "events/stream"
      then (do
        p ← gets (λ s. s.profile)
        assert (str_eq path event_path && is_profile p events)
        open_stream request.delivery message)
      else if is_null identity
      then notification request method message
      else if is_named method "initialize"
      then initialize request path identity message
      else answer request path method identity (listing path method)

unfoldable pub mcp : Request → String → Value → Call Unit
mcp request path message = do
  method ← lift (attribute null "method" message)
  identity ← lift (attribute null "id" message)
  params ← lift (attribute null "params" message)
  b ← gets (bearer request)
  note_mcp request path method identity params b
  if str_eq path "/oauth/mcp" && not b.oauth_bearer
      then unauthenticated request path method identity b
      else serve request path method identity message
