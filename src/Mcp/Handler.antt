-- ===== src/Mcp/Handler.antt =====
-- `do_POST`, and the dispatch of a request in its thread.
use samgita.Prelude.{Option, none, some, String, str_eq, member, [], ◌∷◌, take, if◌then◌else◌, Text}
use samgita.Json.{text, dict, end}
use samgita.Json.Build.{object}
use samgita.Actions.{Error, Outcome, ok, raise, pure, lift, ◌>>=◌, ◌>>◌}
use samgita.Mcp.Fixture.{Call, note}
use samgita.Mcp.Http.{Python, Request, reply, header, size_allowed, size_of}
use samgita.Mcp.Metadata.{mcp_paths, do_get, do_delete}
use samgita.Mcp.Oauth.{register, token}
use samgita.Mcp.Messages.{mcp}

pub data Method : Type 0 where
  get_method post_method delete_method : Method

or_zero : Option String → String
or_zero none = "0"
or_zero (some s) = s

error_name : Error → String
error_name Error.assertion_error = "AssertionError"
error_name Error.key_error = "KeyError"
error_name Error.value_error = "ValueError"
error_name Error.attribute_error = "AttributeError"
error_name Error.type_error = "TypeError"
error_name Error.index_error = "IndexError"
error_name Error.full = "Full"
error_name Error.broken_pipe = "BrokenPipeError"
error_name Error.timeout_expired = "TimeoutExpired"

-- handle_error
unfoldable pub handle_error : Outcome (Unit {0}) → Call Unit
unfolding error_name
handle_error (ok tt) = pure tt
handle_error (raise e) = note "fixture_error" (("error_type", text (error_name e)) ∷ [])

module _ (py : Python) where
  unfoldable pub post_body : Request → String → Text → Call Unit
  unfolding mcp
  post_body request path body =
      if str_eq path "/oauth/register"
      then (do register py request body; pure tt)
      else if str_eq path "/oauth/token"
      then (do token py request body; pure tt)
      else if member path mcp_paths
      then (do message ← lift (py.json_loads body); mcp request path message)
      else (do
        note "forbidden_http" (("method", text "POST") ∷ ("path", text path) ∷ [])
        reply request.delivery 404 (object (("error", text "no inference or command route") ∷ []))
            []
        pure tt)

  unfoldable pub do_post : Request → Call Unit
  unfolding post_body or_zero
  do_post request = do
    url ← lift (py.urlparse request.target)
    size ← lift (py.int (or_zero (header request "Content-Length")))
    if size_allowed size then post_body request url.path (take (size_of size) request.body) else do
      note "forbidden_body" (("path", text url.path) ∷ [])
      reply request.delivery 413 (dict end) []
      pure tt

  unfoldable pub respond : Method → Request → Call Unit
  unfolding do_post
  respond get_method request = do do_get py request; pure tt
  respond post_method request = do_post request
  respond delete_method request = do do_delete py request; pure tt

  -- A request in its thread. An exception ends the thread and is recorded.
  unfoldable pub handle : Method → Request → Call Unit
  unfolding respond handle_error
  handle method request s = let (r, s') = respond method request s in handle_error r s'
