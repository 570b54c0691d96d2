-- ===== src/Mcp/Changes/Requests.antt =====
-- The handlers of requests make only changes.
use samgita.Prelude.{String, List, Text}
use samgita.Json.{Fields}
use samgita.Actions.Maintains.{Maintains}
use samgita.Mcp.Fixture.{Fixture, Profile}
use samgita.Mcp.Http.{Python, Request, Query}
use samgita.Mcp.Metadata.{do_get, do_delete, get_path}
use samgita.Mcp.Oauth.{registered, register, token, verify_token}
use samgita.Mcp.Replay.{kind_of}
use samgita.Mcp.Changes.{Changes, more, registers}
use samgita.Mcp.Changes.Basics.{change_rules}

module _ {o : Fixture} where
  registered-Maintains : (request : Fields) → Maintains (Changes o) (registered request)
  registered-Maintains request = record { at = λ s h. more h (registers request) }

  get_path-Maintains :
      (request : Request) (p : Profile) (path : String)
      → Maintains (Changes o) (get_path request p path)
  unfolding get_path kind_of
  get_path-Maintains request p path = search change_rules depth 12 fits 3000

  module _ (py : Python) where
    verify_token-Maintains :
        (request : Request) (values : Query) (auth : List (String × String))
        → Maintains (Changes o) (verify_token py request values auth)
    unfolding verify_token kind_of
    verify_token-Maintains request values auth = search change_rules depth 12 fits 3000

    pub token-Maintains :
        (request : Request) (body : Text) → Maintains (Changes o) (token py request body)
    unfolding token
    token-Maintains request body = search (change_rules, verify_token-Maintains) depth 12 fits 3000

    pub register-Maintains :
        (request : Request) (body : Text) → Maintains (Changes o) (register py request body)
    unfolding register
    register-Maintains request body = search (change_rules, registered-Maintains) depth 14 fits 3000

    pub do_get-Maintains : (request : Request) → Maintains (Changes o) (do_get py request)
    unfolding do_get
    do_get-Maintains request = search (change_rules, get_path-Maintains) depth 12 fits 3000

    pub do_delete-Maintains : (request : Request) → Maintains (Changes o) (do_delete py request)
    unfolding do_delete kind_of
    do_delete-Maintains request = search change_rules depth 12 fits 3000
