-- ===== src/Mcp/Oauth.antt =====
-- `register` and `token`: the client's registration, and the exchange of a code for an access token.
use samgita.Prelude.{
  ℕ, Bool, true, false, Option, none, some, String, str_eq, List, [], ◌∷◌, not, ◌&&◌, ◌||◌, ◌==◌,
  if◌then◌else◌, Text,
}
use Prim.Native.Char.{code}
use samgita.Json.{Value, null, boolean, number, text, dict, list, Fields, get, cons, nil}
use samgita.Json.Equality.{equal}
use samgita.Json.Build.{object, strings}
use samgita.Actions.{
  Error, Outcome, key_error, attribute_error, lift, gets, require, modify, assert, when, ◌>>=◌,
  ◌>>◌,
}
use samgita.Mcp.Fixture.{
  Fixture, Call, is_profile, oauth_auto_fallback, note, registers, is_selector, oauth_client_id,
  dcr_client, cimd_client, oauth_access, oauth_recovery_access,
}
use samgita.Mcp.Http.{
  Python, Request, Url, Query, reply, header, is_none, is_text, values_in, is_only, first,
}

-- "".split(";")[0], of a text
before_semicolon : String → String
before_semicolon String.[] = String.[]
before_semicolon (String.◌∷◌ c s) =
    let rest = before_semicolon s in if code c == b';' then String.[] else String.◌∷◌ c rest

is_json : Option String → Bool
unfolding before_semicolon
is_json none = false
is_json (some t) = str_eq (before_semicolon t) "application/json"

-- A component that is missing or empty, as `not` reads it.
abbrev pub is_falsy : Option String → Bool
is_falsy none = true
is_falsy (some s) = str_eq s ""

-- `redirect.port`, as `and` reads it
abbrev pub has_port : Option ℕ → Bool
has_port none = false
has_port (some n) = not (n == 0)

-- The asserts on a redirect: an owned loopback URL, whose path is the callback path.
unfoldable pub is_callback : String → Url → Bool
is_callback path redirect =
    str_eq redirect.scheme "http"
    && is_text redirect.hostname "127.0.0.1"
    && has_port redirect.port
    && str_eq redirect.path path
    && is_falsy redirect.username
    && is_falsy redirect.password
    && str_eq redirect.query ""
    && str_eq redirect.fragment ""

-- The one URL of request["redirect_uris"], after its asserts. urlparse of anything but text raises.
only_redirect : Option Value → Outcome String
only_redirect (some (list (cons (text s) nil))) = Outcome.ok s
only_redirect (some (list (cons null nil))) = Outcome.raise Error.assertion_error
only_redirect (some (list (cons v nil))) = Outcome.raise attribute_error
only_redirect _ = Outcome.raise Error.assertion_error

unfoldable pub registration_for : String → Value
registration_for uri = object (
    ("client_name", text "Codex")
    ∷ ("redirect_uris", strings (uri ∷ []))
    ∷ ("grant_types", strings ("authorization_code" ∷ "refresh_token" ∷ []))
    ∷ ("token_endpoint_auth_method", text "none")
    ∷ ("response_types", strings ("code" ∷ []))
    ∷ ("scope", text "read:owned inspect:owned")
    ∷ ("application_type", text "native")
    ∷ [])

fields_of : Value → Outcome Fields
fields_of (dict fields) = Outcome.ok fields
fields_of _ = Outcome.raise attribute_error

-- fixture.registration = request, and its journal row
unfoldable pub registered : Fields → Call Unit
registered request = do
  modify (λ s. record s { registration = some request })
  note "client_registered" (("client_id", text dcr_client) ∷ ("request", dict request) ∷ [])

-- What `token` checks of a selector profile, and its journal row.
verify_selector : Request → Query → Call Unit
unfolding oauth_client_id
verify_selector request values = do
  s ← gets (λ s. s)
  assert (is_none (values_in "client_secret" values) && is_none (header request "Authorization"))
  if is_profile s.profile oauth_auto_fallback
      then assert (not (is_none s.registration) && str_eq (oauth_client_id s.profile) dcr_client)
      else assert (is_none s.registration && str_eq (oauth_client_id s.profile) cimd_client)
  note "selector_token_verified" (
      ("client_id", text (oauth_client_id s.profile))
      ∷ ("no_client_secret", boolean true)
      ∷ ("no_authorization", boolean true)
      ∷ [])

abbrev pub value_in : String → List (String × String) → Option String
value_in name [] = none
value_in name ((key, v) ∷ rest) = if str_eq key name then some v else value_in name rest

-- access_generation
unfoldable pub generation_issued : Fixture → ℕ
generation_issued s = if s.oauth_access_revoked then 2 else 1

-- access_token
unfoldable pub token_issued : Fixture → String
token_issued s = if s.oauth_access_revoked then oauth_recovery_access else oauth_access

abbrev pub exchange_details : Fixture → List (String × Value)
exchange_details s =
    ("client_verified", boolean true)
    ∷ ("redirect_verified", boolean true)
    ∷ ("pkce_verified", boolean true)
    ∷ ("accepted", boolean true)
    ∷ ("access_generation", number (generation_issued s))
    ∷ []

-- The flag of a recovery, and the journal row of the exchange.
unfoldable pub exchanged : Call Unit
unfolding generation_issued
exchanged = do
  s ← gets (λ s. s)
  modify (λ s. record s {
    oauth_recovery_issued = if s.oauth_access_revoked then true else s.oauth_recovery_issued;
  })
  note "token_exchange" (exchange_details s)

module _ (py : Python) where
  unfoldable pub register : Request → Text → Call Bool
  unfolding is_json is_callback only_redirect fields_of
  register request body = do
    s ← gets (λ s. s)
    assert (registers s.profile && (request.early || is_none s.registration))
    assert (is_none (header request "Authorization"))
    assert (is_json (header request "Content-Type"))
    parsed ← lift (py.json_loads body)
    row ← lift (fields_of parsed)
    uri ← lift (only_redirect (get "redirect_uris" row))
    redirect ← lift (py.urlparse uri)
    assert (is_callback "/callback" redirect)
    assert (equal parsed (registration_for redirect.geturl))
    registered row
    reply request.delivery 201
        (object (
          ("client_id", text dcr_client)
          ∷ ("client_name", text "Codex")
          ∷ ("redirect_uris", strings (uri ∷ []))
          ∷ []))
        []

  -- The checks of `token` under the lock, on the parsed form and the callback's parameters.
  unfoldable pub verify_token : Request → Query → List (String × String) → Call Unit
  unfolding verify_selector
  verify_token request values auth = do
    s ← gets (λ s. s)
    assert (is_only (values_in "grant_type" values) "authorization_code")
    assert (is_only (values_in "client_id" values) (oauth_client_id s.profile))
    when (is_selector s.profile) (verify_selector request values)
    assert (is_only (values_in "code" values) "owned-code")
    redirect_uri ← require (value_in "redirect_uri" auth) key_error
    assert (is_only (values_in "redirect_uri" values) redirect_uri)
    verifier ← lift (first (values_in "code_verifier" values))
    challenge ← require (value_in "code_challenge" auth) key_error
    assert (str_eq (py.challenge verifier) challenge)

  unfoldable pub token : Request → Text → Call Bool
  unfolding verify_token exchanged
  token request body = do
    form ← lift (py.decode body)
    values ← lift (py.parse_qs form)
    s ← gets (λ s. s)
    auth ← require s.authorization Error.assertion_error
    verify_token request values auth
    exchanged
    reply request.delivery 200
        (object (
          ("access_token", text (token_issued s))
          ∷ ("token_type", text "Bearer")
          ∷ ("scope", text "read:owned inspect:owned")
          ∷ []))
        []
