-- ===== src/Mcp/Http.antt =====
-- A request and its reply, and what Python's library gives the fixture.
use samgita.Prelude.{
  ℕ, Bool, true, false, Option, none, some, String, str_eq, List, [], ◌∷◌, ◌++◌, ◌&&◌, ltb, leb,
  if◌then◌else◌,
}
use samgita.Json.{Value, number, text, dict, get, get_or}
use samgita.Json.Equality.{equal}
use samgita.Actions.{
  Error, Outcome, ok, raise, attribute_error, key_error, broken_pipe, pure, fail, modify, ◌>>◌,
}
use samgita.Mcp.Fixture.{Fixture, Call, Response}

-- urlparse(url): a component that the URL lacks is the empty text, or `none`.
pub record Url : Type 0 where
  pub scheme : String
  pub netloc : String
  pub hostname : Option String
  pub port : Option ℕ
  pub path : String
  pub username : Option String
  pub password : Option String
  pub query : String
  pub fragment : String
  pub geturl : String

-- parse_qs(text)
abbrev pub Query : Type 0
Query = List (String × List String)

-- Python's library. `challenge verifier` is the unpadded base64.urlsafe_b64encode of the SHA-256 of the
-- verifier, `parse_qs` has strict_parsing, and `decode` is bytes.decode.
pub record Python : Type 0 where
  pub json_loads : List ℕ → Outcome Value
  pub decode : List ℕ → Outcome String
  pub parse_qs : String → Outcome Query
  pub urlparse : String → Outcome Url
  pub int : String → Outcome Value
  pub json_dumps : String → String
  pub split : String → List String
  pub challenge : String → String

-- What becomes of a reply: all of it reaches the peer, its body does not, or its headers do not.
pub data Delivery : Type 0 where
  delivered body_lost headers_lost : Delivery

pub record Request : Type 0 where
  pub target : String
  pub headers : List (String × String)
  pub body : List ℕ
  pub delivery : Delivery
  -- The handler holds no lock where it tests that there is no registration, or that nothing is held, and
  -- then sets it. `early` is a test that precedes what another thread sets meanwhile.
  pub early : Bool

-- self.headers.get(name)
unfoldable pub header_in : String → List (String × String) → Option String
header_in name [] = none
header_in name ((key, v) ∷ rest) = if str_eq key name then some v else header_in name rest

abbrev pub header : Request → String → Option String
header request name = header_in name request.headers

abbrev pub is_text : Option String → String → Bool
is_text none s = false
is_text (some t) s = str_eq t s

abbrev pub is_none {ℓ} : {A : Type ℓ} → Option A → Bool
is_none none = true
is_none (some a) = false

abbrev pub values_in : String → Query → Option (List String)
values_in name [] = none
values_in name ((key, vs) ∷ rest) = if str_eq key name then some vs else values_in name rest

abbrev pub is_only : Option (List String) → String → Bool
is_only (some (v ∷ [])) s = str_eq v s
is_only _ s = false

-- values[name][0]
unfoldable pub first : Option (List String) → Outcome String
first none = raise key_error
first (some []) = raise Error.index_error
first (some (v ∷ vs)) = ok v

-- message.get(key, default)
unfoldable pub attribute : Value → String → Value → Outcome Value
attribute default' key (dict fields) = ok (get_or default' key fields)
attribute default' key _ = raise attribute_error

-- message[key]
unfoldable pub subscript : String → Value → Outcome Value
subscript key (dict fields) = elim (get key fields) [ none ↦ raise key_error | some v ↦ ok v ]
subscript key _ = raise Error.type_error

unfoldable pub is_named : Value → String → Bool
is_named v s = equal v (text s)

unfoldable pub send : Response → Fixture → Fixture
send response s = record s { responses = s.responses ++ response ∷ [] }

-- reply(status, value, headers), which returns whether the body was written
unfoldable pub reply : Delivery → ℕ → Value → List (String × String) → Call Bool
unfolding send
reply headers_lost status value headers = fail broken_pipe
reply delivered status value headers = do
  modify (send (record { status = status; headers = headers; body = value }))
  pure true
reply body_lost status value headers = do
  modify (send (record { status = status; headers = headers; body = value }))
  pure false

-- 0 < size <= 65_536
unfoldable pub size_allowed : Value → Bool
size_allowed (number n) = ltb 0 n && leb n 65536
size_allowed _ = false

unfoldable pub size_of : Value → ℕ
size_of (number n) = n
size_of _ = 0
