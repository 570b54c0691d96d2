-- ===== src/Mcp/Metadata.antt =====
-- do_GET and do_DELETE: the OAuth and resource metadata, the startup routes, and the refusals.
use samgita.Prelude.{
  Bool, true, String, str_eq, member, List, [], ◌∷◌, not, ◌&&◌, join, ends_with, if◌then◌else◌,
}
use samgita.Json.{Value, boolean, number, text, Fields, dict, end}
use samgita.Json.Build.{object, array, strings, fields, set}
use samgita.Actions.{lift, gets, ◌>>=◌, ◌>>◌, pure, when}
use samgita.Mcp.Fixture.{
  Fixture, Call, note, Profile, is_profile, oauth_dcr, events, oauth_auto_fallback, oauth_url,
  oauth_cimd_no_advertisement, oauth_cimd_no_none, is_selector, event_path, account,
}
use samgita.Mcp.Http.{Python, Request, reply}

abbrev pub missing_metadata : String
missing_metadata = "/oauth/.well-known/owned-missing-authorization-server"

abbrev pub auth_metadata : List String
auth_metadata =
    "/.well-known/oauth-authorization-server/oauth/mcp"
    ∷ "/oauth/mcp/.well-known/oauth-authorization-server"
    ∷ "/.well-known/oauth-authorization-server" ∷ []

abbrev pub resource_metadata : List String
resource_metadata =
    "/.well-known/oauth-protected-resource/oauth/mcp"
    ∷ "/oauth/mcp/.well-known/oauth-protected-resource" ∷ []

abbrev pub apps_resource_metadata : List String
apps_resource_metadata =
    "/.well-known/oauth-protected-resource/api/codex/ps/mcp"
    ∷ "/api/codex/ps/mcp/.well-known/oauth-protected-resource"
    ∷ "/.well-known/oauth-protected-resource" ∷ []

abbrev pub startup_paths : List String
startup_paths =
    "/api/codex/wham/config/bundle" ∷ "/api/codex/wham/accounts/check"
    ∷ "/api/codex/wham/settings/user" ∷ []

abbrev pub mcp_paths : List String
mcp_paths =
    "/inventory/a" ∷ "/inventory/a-failed" ∷ "/inventory/a-held" ∷ "/inventory/a-v2"
    ∷ "/inventory/b" ∷ "/inventory/b-v2" ∷ "/oauth/mcp" ∷ event_path ∷ []

abbrev scopes : Value
scopes = strings ("read:owned" ∷ "inspect:owned" ∷ [])

at : Fixture → String → Value
at s path = text (join (s.endpoint ∷ path ∷ []))

-- cimd
abbrev pub advertises_cimd : Profile → Bool
advertises_cimd p =
    not (is_profile p oauth_auto_fallback) && not (is_profile p oauth_cimd_no_advertisement)

-- public_none
abbrev pub advertises_none : Profile → Bool
advertises_none p = not (is_profile p oauth_cimd_no_none)

common_metadata : Fixture → Fields
unfolding at
common_metadata s = fields (
    ("issuer", text (oauth_url s))
    ∷ ("authorization_endpoint", at s "/oauth/authorize")
    ∷ ("token_endpoint", at s "/oauth/token")
    ∷ ("authorization_response_iss_parameter_supported", boolean true)
    ∷ ("response_types_supported", strings ("code" ∷ []))
    ∷ ("grant_types_supported", strings ("authorization_code" ∷ []))
    ∷ ("code_challenge_methods_supported", strings ("S256" ∷ []))
    ∷ ("token_endpoint_auth_methods_supported", strings ("none" ∷ []))
    ∷ ("scopes_supported", scopes)
    ∷ [])

-- The metadata after its update for the profile.
unfoldable pub authorization_metadata : Fixture → Value
unfolding common_metadata at is_selector
authorization_metadata s =
    let registration = at s "/oauth/register" in
    let common = common_metadata s in
    if is_profile s.profile oauth_dcr
    then dict (
        set "client_id_metadata_document_supported" (boolean true)
          (set "registration_endpoint" registration common))
    else if is_selector s.profile
    then dict (
        set "token_endpoint_auth_methods_supported"
          (strings ((if advertises_none s.profile then "none" else "private_key_jwt") ∷ []))
          (set "client_id_metadata_document_supported" (boolean (advertises_cimd s.profile))
            (set "registration_endpoint" registration common)))
    else dict common

note_advertised : Profile → Call Unit
unfolding is_selector
note_advertised p =
    if is_profile p oauth_dcr
    then note "oauth_dcr_metadata"
        (("cimd_advertised", boolean true) ∷ ("dcr_advertised", boolean true) ∷ [])
    else when (is_selector p) (
        note "oauth_selector_metadata" (
          ("cimd_advertised", boolean (advertises_cimd p))
          ∷ ("public_none", boolean (advertises_none p))
          ∷ ("dcr_advertised", boolean true)
          ∷ []))

resource_body : String → String → Value
resource_body resource issuer = object (
    ("resource", text resource)
    ∷ ("authorization_servers", strings (issuer ∷ []))
    ∷ ("scopes_supported", scopes)
    ∷ [])

startup_body : String → Value
startup_body path =
    if ends_with path "accounts/check"
    then object (
        (
          "accounts",
          array (
              object (
                ("id", text account)
                ∷ ("workspace_backend_origin", text "https://synthetic.invalid")
                ∷ ("account_routing_override", text "NO_CONSTRAINT")
                ∷ [])
              ∷ []),
        )
        ∷ [])
    else dict end

error_body : String → Value
error_body message = object (("error", text message) ∷ [])

-- The branches of do_GET, at the path of the request.
get_missing : Request → String → Call Bool
unfolding error_body
get_missing request path = do
  written ← reply request.delivery 404 (error_body "owned named issuer has no metadata") []
  note "named_issuer_metadata_fault"
      (("path", text path) ∷ ("status", number 404) ∷ ("response_written", boolean written) ∷ [])
  pure written

get_authorization : Request → String → Call Bool
unfolding note_advertised
get_authorization request path = do
  note "oauth_metadata" (("path", text path) ∷ [])
  s ← gets (λ s. s)
  note_advertised s.profile
  reply request.delivery 200 (authorization_metadata s) []

get_apps_resource : Request → String → Call Bool
unfolding resource_body
get_apps_resource request path = do
  s ← gets (λ s. s)
  let resource = join (s.endpoint ∷ event_path ∷ [])
  note "apps_resource_metadata" (("path", text path) ∷ ("resource", text resource) ∷ [])
  reply request.delivery 200 (resource_body resource (oauth_url s)) []

-- issuer
unfoldable pub issuer_of : Fixture → String
issuer_of s =
    if str_eq s.oauth_discovery "missing-metadata"
    then join (s.endpoint ∷ missing_metadata ∷ [])
    else oauth_url s

get_resource : Request → String → Call Bool
unfolding resource_body issuer_of
get_resource request path = do
  s ← gets (λ s. s)
  note "resource_metadata" (("path", text path) ∷ ("discovery", text s.oauth_discovery) ∷ [])
  reply request.delivery 200 (resource_body (oauth_url s) (issuer_of s)) []

refuse : Request → String → String → Value → Call Bool
refuse request method path body = do
  note "forbidden_http" (("method", text method) ∷ ("path", text path) ∷ [])
  reply request.delivery 404 body []

unfoldable pub get_path : Request → Profile → String → Call Bool
unfolding get_missing get_authorization get_apps_resource get_resource refuse startup_body
    error_body
get_path request p path =
    if str_eq path missing_metadata
    then get_missing request path
    else if member path auth_metadata
    then get_authorization request path
    else if is_profile p events && member path apps_resource_metadata
    then get_apps_resource request path
    else if member path resource_metadata
    then get_resource request path
    else if member path startup_paths
    then (do
      note "startup_metadata" (("path", text path) ∷ [])
      reply request.delivery 200 (startup_body path) [])
    else if member path mcp_paths
    then (do
      note "mcp_get" (("path", text path) ∷ [])
      reply request.delivery 405 (error_body "only owned POST streams are supported") [])
    else refuse request "GET" path (error_body "unapproved owned route")

module _ (py : Python) where
  unfoldable pub do_get : Request → Call Bool
  unfolding get_path
  do_get request = do
    url ← lift (py.urlparse request.target)
    p ← gets (λ s. s.profile)
    get_path request p url.path

  unfoldable pub do_delete : Request → Call Bool
  unfolding refuse
  do_delete request = do
    url ← lift (py.urlparse request.target)
    if member url.path mcp_paths
        then (do
          note "mcp_delete" (("path", text url.path) ∷ [])
          reply request.delivery 405 (dict end) [])
        else refuse request "DELETE" url.path (dict end)
