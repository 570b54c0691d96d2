-- ===== src/Mcp/Fixture.antt =====
-- The state of `Fixture`, and its journal.
use samgita.Prelude.{
  ℕ, Bool, true, false, Option, none, String, str_eq, List, [], ◌∷◌, ◌++◌, join, length,
  if◌then◌else◌,
}
use samgita.Json.{Value, Fields}
use samgita.Json.Build.{fields}
use samgita.Actions.{Action, modify}

-- PROFILES
pub data Profile : Type 0 where
  status oauth events form_bool oauth_dcr oauth_cimd oauth_auto_fallback : Profile
  oauth_cimd_no_advertisement oauth_cimd_no_none : Profile

abbrev pub profile_name : Profile → String
profile_name status = "status"
profile_name oauth = "oauth"
profile_name events = "events"
profile_name form_bool = "form-bool"
profile_name oauth_dcr = "oauth-dcr"
profile_name oauth_cimd = "oauth-cimd"
profile_name oauth_auto_fallback = "oauth-auto-fallback"
profile_name oauth_cimd_no_advertisement = "oauth-cimd-no-advertisement"
profile_name oauth_cimd_no_none = "oauth-cimd-no-none"

abbrev pub is_profile : Profile → Profile → Bool
is_profile p q = str_eq (profile_name p) (profile_name q)

-- profile in OAUTH_SELECTOR_PROFILES
unfoldable pub is_selector : Profile → Bool
is_selector oauth_cimd = true
is_selector oauth_auto_fallback = true
is_selector oauth_cimd_no_advertisement = true
is_selector oauth_cimd_no_none = true
is_selector _ = false

-- profile in UNCONFIGURED_OAUTH_PROFILES
unfoldable pub is_unconfigured : Profile → Bool
unfolding is_selector
is_unconfigured oauth_dcr = true
is_unconfigured p = is_selector p

-- profile in {"oauth-dcr", "oauth-auto-fallback"}
unfoldable pub registers : Profile → Bool
registers oauth_dcr = true
registers oauth_auto_fallback = true
registers _ = false

abbrev pub access : String
access = "synthetic-owned-apps-access"

abbrev pub oauth_access : String
oauth_access = "synthetic-owned-mcp-oauth-access"

abbrev pub oauth_recovery_access : String
oauth_recovery_access = "synthetic-owned-mcp-oauth-recovered-access"

abbrev pub account : String
account = "isolated-auth-account"

abbrev pub client : String
client = "owned-mcp-client"

abbrev pub dcr_client : String
dcr_client = "owned-dcr-client"

abbrev pub cimd_client : String
cimd_client = "https://chatgpt.com/oauth/codex/client.json"

abbrev pub event_path : String
event_path = "/api/codex/ps/mcp"

-- self.oauth_client_id
unfoldable pub oauth_client_id : Profile → String
unfolding registers is_selector
oauth_client_id p =
    if registers p then dcr_client else if is_selector p then cimd_client else client

-- self.callback_path
unfoldable pub callback_path : Profile → String
unfolding is_unconfigured
callback_path p = if is_unconfigured p then "/callback" else "/callback/owned-mcp"

-- A row of the journal: its `seq`, its `event`, and the fields given to `record`.
pub record Event : Type 0 where
  pub seq : ℕ
  pub name : String
  pub details : Fields

-- `served` tells that its handler has sent the headers and is in the loop or past it.
pub record Stream : Type 0 where
  pub number : ℕ
  pub request_id : Value
  pub queue : List Value
  pub served : Bool
  pub cancelled : Bool
  pub closed : Bool

-- What `reply` sends: the status, the headers given to it, and the body.
pub record Response : Type 0 where
  pub status : ℕ
  pub headers : List (String × String)
  pub body : Value

-- What the main thread does: reads a line, waits for the handler of a held initialize or, in `close`, for
-- the threads of the server. The control operation that waits is given by its id; the `close` of the
-- `finally` of `main` has none.
pub data Main : Type 0 where
  reading : Main
  awaiting_initialize : (identity : String) → Main
  awaiting_apps : (identity : String) → Main
  awaiting_close : (identity : String) → Main
  leaving : Main
  ended : Main

-- `journal` is self.journal["events"]. `responses`, `callbacks` and `config` are what was sent to the
-- peers and written to config.toml. The two `waiting` fields are the threads in `held_initialize` and
-- `held_apps_initialize`, with the id of their message.
pub record Fixture : Type 0 where
  pub endpoint : String
  pub profile : Profile
  pub journal : List Event
  pub responses : List Response
  pub callbacks : List Fields
  pub config : String
  pub closing : Bool
  pub closed : Bool
  pub streams : List Stream
  pub next_stream : ℕ
  pub authorization : Option (List (String × String))
  pub callback : Option (String × ℕ)
  pub native : Option ℕ
  pub native_pids : List ℕ
  pub generation : Value
  pub inventory_health : Option String
  pub oauth_discovery : String
  pub oauth_access_revoked : Bool
  pub oauth_recovery_issued : Bool
  pub registration : Option Fields
  pub initialize_held : Bool
  pub initialize_release : Bool
  pub initialize_finished : Bool
  -- The requests whose threads wait in a hold.
  pub initialize_waiting : List Value
  pub apps_hold_enabled : Bool
  pub apps_initialize_held : Bool
  pub apps_initialize_release : Bool
  pub apps_initialize_finished : Bool
  pub apps_initialize_waiting : List Value
  pub main : Main

abbrev pub Call : Type 0 → Type 0
Call A = Action Fixture A

abbrev pub oauth_url : Fixture → String
oauth_url s = join (s.endpoint ∷ "/oauth/mcp" ∷ [])

unfoldable pub append : String → Fields → Fixture → Fixture
append name details s = record s {
  journal = s.journal ++ record { seq = length s.journal; name = name; details = details } ∷ [];
}

-- record(event, **fields)
unfoldable pub note : String → List (String × Value) → Call Unit
unfolding append modify
note name details = modify (append name (fields details))

-- `__init__` up to the call of `configure`.
unfoldable pub init : String → Profile → Fixture
init endpoint p = record {
  endpoint = endpoint;
  profile = p;
  journal = [];
  responses = [];
  callbacks = [];
  config = "";
  closing = false;
  closed = false;
  streams = [];
  next_stream = 0;
  authorization = none;
  callback = none;
  native = none;
  native_pids = [];
  generation = Value.number 1;
  inventory_health = none;
  oauth_discovery = "valid";
  oauth_access_revoked = false;
  oauth_recovery_issued = false;
  registration = none;
  initialize_held = false;
  initialize_release = false;
  initialize_finished = false;
  initialize_waiting = [];
  apps_hold_enabled = false;
  apps_initialize_held = false;
  apps_initialize_release = false;
  apps_initialize_finished = false;
  apps_initialize_waiting = [];
  main = reading;
}
