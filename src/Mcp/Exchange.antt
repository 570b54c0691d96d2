-- ===== src/Mcp/Exchange.antt =====
-- What an exchange of a code for a token has checked.
use samgita.Prelude.{◌≡◌, true, some, String, List, [], ◌∷◌}
use samgita.Json.{text}
use samgita.Json.Build.{object}
use samgita.Actions.{ok, ◌>>◌}
use samgita.Actions.Maintains.{Maintains}
use samgita.Mcp.Fixture.{Fixture, Response, oauth_client_id}
use samgita.Mcp.Http.{Python, Query, Request, reply, values_in, is_only, first}
use samgita.Mcp.Oauth.{exchanged, token_issued, value_in}

-- What is checked of the form `values`, against the parameters `auth` of the callback that was completed.
pub record IsGranted (py : Python) (s : Fixture) (values : Query) (auth : List (String × String))
    : Type 0 where
  authorized : s.authorization ≡ some auth
  grant_type : is_only (values_in "grant_type" values) "authorization_code" ≡ true
  client_id : is_only (values_in "client_id" values) (oauth_client_id s.profile) ≡ true
  code : is_only (values_in "code" values) "owned-code" ≡ true
  redirect_uri : String
  same_redirect : value_in "redirect_uri" auth ≡ some redirect_uri
  redirect : is_only (values_in "redirect_uri" values) redirect_uri ≡ true
  verifier : String
  has_verifier : first (values_in "code_verifier" values) ≡ ok verifier
  challenge : value_in "code_challenge" auth ≡ some (py.challenge verifier)

-- The fields that the checks leave alone.
abbrev IsSame : Fixture → Fixture → Type 0
IsSame s t =
    (t.responses ≡ s.responses)
    × (t.oauth_access_revoked ≡ s.oauth_access_revoked)
    × (t.oauth_recovery_issued ≡ s.oauth_recovery_issued)

-- The answer to an exchange.
abbrev pub granted_reply : Fixture → Response
granted_reply s = record {
  status = 200;
  headers = [];
  body = object (
      ("access_token", text (token_issued s))
      ∷ ("token_type", text "Bearer")
      ∷ ("scope", text "read:owned inspect:owned")
      ∷ []);
}

-- The state after `token`, once the form is parsed and the checks are passed.
finished : Request → Fixture → Fixture → Fixture
finished request s t = ((exchanged >> reply request.delivery 200 (granted_reply s).body []) t).1
