-- ===== src/Mcp/Control.antt =====
-- `control`, with the operations of the stdin protocol, `start_native`, `stop_native` and `close`.
use samgita.Prelude.{
  Bool, true, false, String, member, [], ◌∷◌, ltb, leb, ◌&&◌, ◌||◌, if◌then◌else◌,
}
use Prim.Native.String.{count}
use samgita.Json.{Value, text, dict, Fields, end, field}
use samgita.Actions.{
  Error, Outcome, ok, raise, assertion_error, pure, fail, lift, gets, modify, assert, ◌>>=◌, ◌>>◌,
}
use samgita.Mcp.Fixture.{Call, Main, note, is_profile, status, oauth, is_unconfigured}
use samgita.Mcp.Http.{Python, subscript, is_named}
use samgita.Mcp.Config.{Paths, configure}
use samgita.Mcp.Callback.{complete_callback, callback_variants}
use samgita.Mcp.Emit.{emit, text_in}
use samgita.Mcp.Native.{System, start_native, stop_native, start_close}
use samgita.Mcp.Operations.{
  inventory_health, startup_state, startup_release, apps_hold, apps_state, apps_release,
  malformed_config, revoke_access, oauth_discovery, selector_listeners, probe_callback,
}

unfoldable pub control_done : String → Value → Value → Call Unit
control_done identity operation result =
    note "control_done" (("id", text identity) ∷ ("op", operation) ∷ ("result", result) ∷ [])

-- set(message) <= {...}
known_keys : Fields → Bool
known_keys end = true
known_keys (field key v rest) =
    member key ("id" ∷ "op" ∷ "generation" ∷ "stream" ∷ "kind" ∷ "url" ∷ "variant" ∷ [])
    && known_keys rest

has_known_keys : Value → Bool
unfolding known_keys
has_known_keys (dict fields) = known_keys fields
has_known_keys _ = false

-- isinstance(identity, str) and 0 < len(identity) <= 80
identity_of : Value → Outcome String
identity_of (text s) = if ltb 0 (count s) && leb (count s) 80 then ok s else raise assertion_error
identity_of _ = raise assertion_error

text_of : Value → Outcome String
text_of (text s) = ok s
text_of _ = raise Error.attribute_error

module _ (py : Python) where
  callback : System → Value → Call Value
  unfolding text_of
  callback system message = do
    p ← gets (λ s. s.profile)
    assert (is_profile p oauth || is_unconfigured p)
    url ← lift (subscript "url" message)
    named ← lift (subscript "variant" message)
    variant ← lift (text_in callback_variants named)
    target ← lift (text_of url)
    complete_callback py system.answer target variant

  -- The operations that answer at once.
  unfoldable pub operate : Paths → System → Value → Value → Call Value
  unfolding startup_state apps_state malformed_config oauth_discovery callback selector_listeners
      probe_callback
  operate paths system operation message =
      if is_named operation "config"
      then (do
        p ← gets (λ s. s.profile)
        assert (is_profile p status)
        generation ← lift (subscript "generation" message)
        configure paths generation
        pure (dict end))
      else if is_named operation "inventory-health"
      then inventory_health paths message
      else if is_named operation "inventory-startup-state"
      then startup_state
      else if is_named operation "apps-startup-hold"
      then apps_hold
      else if is_named operation "apps-startup-state"
      then apps_state
      else if is_named operation "malformed-config"
      then malformed_config
      else if is_named operation "oauth-revoke-access"
      then revoke_access
      else if is_named operation "oauth-discovery"
      then oauth_discovery message
      else if is_named operation "callback"
      then callback system message
      else if is_named operation "selector-listeners"
      then selector_listeners system
      else if is_named operation "probe-callback"
      then probe_callback system
      else if is_named operation "restart"
      then (do stop_native system; start_native system; pure (dict end))
      else if is_named operation "emit"
      then (do emit message; pure (dict end))
      else if is_named operation "barrier"
      then pure (dict end)
      else fail assertion_error

  -- A release leaves the main thread waiting for the handler, and writes `control_done` afterwards;
  -- `close` does so when the threads of the server have ended.
  unfoldable pub control : Paths → System → Value → Call Unit
  unfolding has_known_keys identity_of control_done
  control paths system message = do
    assert (has_known_keys message)
    named ← lift (subscript "id" message)
    operation ← lift (subscript "op" message)
    identity ← lift (identity_of named)
    if is_named operation "inventory-startup-release"
        then startup_release identity
        else if is_named operation "apps-startup-release"
        then apps_release identity
        else if is_named operation "close"
        then (do start_close system; modify (λ s. record s { main = Main.awaiting_close identity }))
        else (do
          result ← operate paths system operation message
          control_done identity operation result)
