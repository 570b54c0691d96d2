-- ===== src/Mcp/Revocation.antt =====
-- The first OAuth token once it is revoked.
use samgita.Prelude.{
  ◌≡◌, refl, sym, true, false, Option, none, some, String, List, [], ◌∷◌, ◌++◌, join, append-nil,
  arith, eq_iff,
}
use samgita.Json.{Value, number, text, dict, Fields}
use samgita.Json.Build.{object}
use samgita.Actions.{◌>>=◌, modify, gets, lift, when, pure, fail}
use samgita.Mcp.Fixture.{Fixture, Response, append, note, oauth_access, oauth_recovery_access}
use samgita.Mcp.Http.{
  Python, Request, Delivery, delivered, body_lost, headers_lost, send, reply, attribute, header,
  is_text,
}
use samgita.Mcp.Config.{configured, write_config}
use samgita.Mcp.Oauth.{registered, exchanged}
use samgita.Mcp.Holds.{initialize_holds, finish_initialize, apps_holds, finish_apps}
use samgita.Mcp.Streams.{add_stream, close_stream}
use samgita.Mcp.Callback.{authorized}
use samgita.Mcp.Operations.{revoked, discovered, armed}
use samgita.Mcp.Native.{closes, begin_closing}
use samgita.Mcp.Messages.{Bearer, mcp, bears, bearer, note_mcp, unauthenticated, challenge_header}
use samgita.Mcp.Turns.{Turn, run}
use samgita.Mcp.Changes.{Change, Changes-induction, revokes}
use samgita.Mcp.Changes.Runs.{run-Changes}

IsRevoked : Fixture → Type 0
IsRevoked s = s.oauth_access_revoked ≡ true

Change-IsRevoked : (s t : Fixture) → Change s t → IsRevoked s → IsRevoked t
unfolding IsRevoked append send write_config configured registered exchanged revoked discovered
    initialize_holds finish_initialize apps_holds finish_apps armed closes authorized begin_closing
    add_stream close_stream ◌>>=◌ modify note gets
Change-IsRevoked s _ (revokes fresh unissued primed) h = refl
Change-IsRevoked s _ _ h = h

run-IsRevoked :
    (py : Python) (turns : List Turn) (s : Fixture)
    → s.oauth_access_revoked ≡ true
    → (run py turns s).oauth_access_revoked ≡ true
unfolding IsRevoked
run-IsRevoked py turns s h =
    Changes-induction IsRevoked Change-IsRevoked s (run py turns s) (run-Changes py turns s) h

-- What a reply adds to the responses.
abbrev pub sent_by : Delivery → Response → List Response
sent_by headers_lost r = []
sent_by _ r = r ∷ []

-- The refusal of a revoked token.
abbrev pub invalid_token : Fixture → Response
invalid_token s = record {
  status = 401;
  headers = challenge_header s true;
  body = object (("error", text "synthetic OAuth required") ∷ []);
}

distinct_tokens :
    (request : Request)
    → bears request oauth_access ≡ true
    → bears request oauth_recovery_access ≡ false
unfolding join
distinct_tokens request h = go (header request "Authorization") h
  where
    go :
        (o : Option String)
        → is_text o (join ("Bearer " ∷ oauth_access ∷ [])) ≡ true
        → is_text o (join ("Bearer " ∷ oauth_recovery_access ∷ [])) ≡ false
    go none h = ground arith
    go (some t) h = rw ((eq_iff t (join ("Bearer " ∷ oauth_access ∷ []))).0 h) refl

abbrev first_revoked : Bearer
first_revoked = record { revoked = true; oauth_bearer = false; access_generation = number 1 }

bearer-first_revoked :
    (request : Request) (s : Fixture)
    → bears request oauth_access ≡ true
    → s.oauth_access_revoked ≡ true
    → bearer request s ≡ first_revoked
unfolding bearer
bearer-first_revoked request s first gone = rw (first, distinct_tokens request first, gone) refl

unauthenticated-responses :
    (d : Delivery) (request : Request) (path : String) (method identity : Value) (s : Fixture)
    → request.delivery ≡ d
    → (unauthenticated request path method identity first_revoked s).1.responses
      ≡ s.responses ++ sent_by d (invalid_token s)
unfolding unauthenticated ◌>>=◌ gets reply modify send when note append pure fail
unauthenticated-responses delivered request path method identity s h = rw h refl
unauthenticated-responses body_lost request path method identity s h = rw h refl
unauthenticated-responses headers_lost request path method identity s h =
    rw h (sym (append-nil s.responses))

refused :
    (request : Request) (message : Fields) (s : Fixture)
    → bears request oauth_access ≡ true
    → s.oauth_access_revoked ≡ true
    → (mcp request "/oauth/mcp" (dict message) s).1.responses
      ≡ s.responses ++ sent_by request.delivery (invalid_token s)
unfolding mcp ◌>>=◌ gets lift attribute note_mcp modify note append challenge_header
refused request message s first gone =
    rw (bearer-first_revoked request s first gone)
      (unauthenticated-responses request.delivery request "/oauth/mcp" _ _ _ refl)

-- Once the first token is revoked, after any further run, a message to the path /oauth/mcp that is a JSON
-- object and bears the token is answered with 401 and the challenge error="invalid_token" and with nothing
-- else, unless the connection takes no reply at all: no later exchange or operation makes the token good.
pub revoked-mcp :
    (py : Python) (turns : List Turn) (request : Request) (message : Fields) (s : Fixture)
    → s.oauth_access_revoked ≡ true
    → bears request oauth_access ≡ true
    → (mcp request "/oauth/mcp" (dict message) (run py turns s)).1.responses
      ≡ (run py turns s).responses ++ sent_by request.delivery (invalid_token (run py turns s))
revoked-mcp py turns request message s gone first =
    refused request message (run py turns s) first (run-IsRevoked py turns s gone)
