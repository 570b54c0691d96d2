-- ===== src/Mcp/Callback.antt =====
-- `complete_callback`: the checks on an authorization URL, and the callback that is sent.
use samgita.Prelude.{
  ℕ, Bool, true, false, Option, none, some, String, str_eq, List, [], ◌∷◌, ◌++◌, ◌&&◌,
  if◌then◌else◌,
}
use samgita.Json.{Value, null, boolean, number, text, Fields, get_or}
use samgita.Json.Build.{object, fields, strings, set}
use samgita.Json.Equality.{equal}
use samgita.Actions.{
  Outcome, key_error, pure, lift, gets, require, modify, assert, when, ◌>>=◌, ◌>>◌,
}
use samgita.Mcp.Fixture.{Fixture, Call, registers, oauth_client_id, callback_path, oauth_url, note}
use samgita.Mcp.Http.{Python, Url, Query, values_in, is_only, first}
use samgita.Mcp.Oauth.{is_callback}

-- len(values) == 1
abbrev is_single : List String → Bool
is_single (v ∷ []) = true
is_single _ = false

all_single : Query → Bool
all_single [] = true
all_single ((key, vs) ∷ rest) = is_single vs && all_single rest

-- {key: values[0] for key, values in query.items()}
unfoldable pub first_values : Query → List (String × String)
first_values [] = []
first_values ((key, []) ∷ rest) = first_values rest
first_values ((key, (v ∷ vs)) ∷ rest) = (key, v) ∷ first_values rest

-- assert query[name] == [value]
query_is : Query → String → String → Call Unit
query_is query name v = do
  vs ← require (values_in name query) key_error
  assert (is_only (some vs) v)

unfoldable pub callback_variants : List String
callback_variants = "success" ∷ "wrong-state" ∷ "wrong-issuer" ∷ "denied" ∷ []

-- The parameters of the callback, by variant.
unfoldable pub callback_values : Fixture → String → String → Fields
callback_values s state variant =
    let values =
      fields
        (("code", text "owned-code") ∷ ("state", text state) ∷ ("iss", text (oauth_url s)) ∷ []) in
    if str_eq variant "wrong-state"
    then set "state" (text "owned-state-mismatch") values
    else if str_eq variant "wrong-issuer"
    then set "iss" (text "https://issuer-mismatch.synthetic.invalid") values
    else if str_eq variant "denied"
    then fields (
        ("error", text "access_denied")
        ∷ ("error_description", text "Owned denial")
        ∷ ("state", text state)
        ∷ [])
    else values

-- (redirect.hostname, redirect.port)
address : Url → Option (String × ℕ)
address redirect = elim redirect.hostname [
  | none ↦ none
  | some host ↦ elim redirect.port [ none ↦ none | some port ↦ some (host, port) ]
]

is_registered : Option Fields → String → Bool
is_registered none uri = false
is_registered (some request) uri = equal (get_or null "redirect_uris" request) (strings (uri ∷ []))

first_or_empty : Option (List String) → String
first_or_empty none = ""
first_or_empty (some []) = ""
first_or_empty (some (v ∷ vs)) = v

unfoldable pub authorized : Query → Url → Fixture → Fixture
unfolding first_values address
authorized query redirect s = record s {
  authorization = some (first_values query);
  callback = address redirect;
}

module _ (py : Python) where
  -- Everything before the state changes; the query and the redirect that passed.
  unfoldable pub check_authorization : String → Call (Query × Url × String)
  unfolding all_single query_is is_registered
  check_authorization url = do
    s ← gets (λ s. s)
    parsed ← lift (py.urlparse url)
    own ← lift (py.urlparse s.endpoint)
    assert (str_eq parsed.scheme "http" && str_eq parsed.netloc own.netloc)
    assert (str_eq parsed.path "/oauth/authorize" && str_eq parsed.fragment "")
    query ← lift (py.parse_qs parsed.query)
    assert (all_single query)
    query_is query "client_id" (oauth_client_id s.profile)
    query_is query "response_type" "code"
    query_is query "code_challenge_method" "S256"
    uri ← lift (first (values_in "redirect_uri" query))
    redirect ← lift (py.urlparse uri)
    assert (is_callback (callback_path s.profile) redirect)
    when (registers s.profile) (assert (is_registered s.registration uri))
    pure (query, redirect, uri)

  -- `status` is what the native listener answers to the callback.
  unfoldable pub complete_callback : Outcome ℕ → String → String → Call Value
  unfolding check_authorization authorized first_or_empty callback_values
  complete_callback status url variant = do
    (query, redirect, uri) ← check_authorization url
    modify (authorized query redirect)
    s ← gets (λ s. s)
    state ← lift (first (values_in "state" query))
    let values = callback_values s state variant
    modify (λ t. record t { callbacks = t.callbacks ++ values ∷ [] })
    code ← lift status
    note "callback_sent" (
        ("variant", text variant)
        ∷ ("http_status", number code)
        ∷ ("pkce_present", boolean true)
        ∷ ("client_verified", boolean true)
        ∷ ("redirect_verified", boolean true)
        ∷ ("requested_scopes", strings (py.split (first_or_empty (values_in "scope" query))))
        ∷ [])
    pure (object (("http_status", number code) ∷ []))
