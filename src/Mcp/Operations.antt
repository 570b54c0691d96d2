-- ===== src/Mcp/Operations.antt =====
-- The operations of `control`, each as one action.
use samgita.Prelude.{
  ℕ, Bool, true, false, Option, none, some, String, str_eq, List, [], ◌∷◌, map, leb, not, any, ◌&&◌,
  if◌then◌else◌,
}
use samgita.Json.{Value, null, boolean, number, text, dict, end, get_or}
use samgita.Json.Build.{object, array}
use samgita.Json.Equality.{equal}
use samgita.Actions.{pure, lift, gets, modify, assert, ◌>>=◌, ◌>>◌}
use samgita.Mcp.Fixture.{
  Call, Event, awaiting_initialize, awaiting_apps, note, is_profile, status, oauth, events,
  is_selector, event_path,
}
use samgita.Mcp.Http.{subscript, is_none}
use samgita.Mcp.Config.{Paths, configure}
use samgita.Mcp.Emit.{text_in}
use samgita.Mcp.Native.{System}

-- event["event"] == "mcp" and event.get("path") == path and event.get("method") == method
abbrev is_mcp : String → String → Event → Bool
is_mcp path method e =
    str_eq e.name "mcp"
    && equal (get_or null "path" e.details) (text path)
    && equal (get_or null "method" e.details) (text method)

unfoldable pub is_true : Value → Bool
is_true (boolean true) = true
is_true _ = false

-- A tools/list of the Apps peer.
unfoldable pub is_primed_apps : Event → Bool
is_primed_apps = is_mcp event_path "tools/list"

-- An initialize of the OAuth peer with the first access token.
unfoldable pub is_primed_oauth : Event → Bool
unfolding is_true
is_primed_oauth e =
    is_mcp "/oauth/mcp" "initialize" e
    && is_true (get_or null "oauth_bearer_verified" e.details)
    && equal (get_or null "oauth_access_generation" e.details) (number 1)

is_health : Option String → String → Bool
is_health none health = false
is_health (some h) health = str_eq h health

health_variants : List String
health_variants = "startup-failed" ∷ "startup-held" ∷ "healthy" ∷ "disabled" ∷ []

unfoldable pub inventory_health : Paths → Value → Call Value
unfolding health_variants
inventory_health paths message = do
  p ← gets (λ s. s.profile)
  assert (is_profile p status)
  named ← lift (subscript "variant" message)
  variant ← lift (text_in health_variants named)
  modify (λ s. record s { inventory_health = some variant })
  generation ← lift (subscript "generation" message)
  configure paths generation
  s ← gets (λ s. s)
  note "inventory_health_changed" (("variant", text variant) ∷ ("generation", s.generation) ∷ [])
  pure (dict end)

guard_startup : Call Unit
unfolding is_health
guard_startup = do
  s ← gets (λ s. s)
  assert (is_profile s.profile status && is_health s.inventory_health "startup-held")

unfoldable pub startup_state : Call Value
unfolding guard_startup
startup_state = do
  guard_startup
  s ← gets (λ s. s)
  pure (
      object (
        ("held", boolean s.initialize_held)
        ∷ ("released", boolean s.initialize_release)
        ∷ ("finished", boolean s.initialize_finished)
        ∷ []))

unfoldable pub startup_release : String → Call Unit
unfolding guard_startup
startup_release identity = do
  guard_startup
  s ← gets (λ s. s)
  assert (s.initialize_held && not s.initialize_release)
  note "inventory_initialize_release_requested" []
  modify (λ s. record s { initialize_release = true; main = awaiting_initialize identity })

-- self.apps_hold_enabled = True, and its journal row
unfoldable pub armed : Call Unit
armed = do
  modify (λ s. record s { apps_hold_enabled = true })
  note "apps_initialize_hold_armed" (("path", text event_path) ∷ [])

unfoldable pub apps_hold : Call Value
unfolding is_primed_apps armed
apps_hold = do
  s ← gets (λ s. s)
  assert (is_profile s.profile events && not s.apps_hold_enabled)
  assert (any is_primed_apps s.journal)
  armed
  pure (object (("armed", boolean true) ∷ []))

unfoldable pub apps_state : Call Value
apps_state = do
  s ← gets (λ s. s)
  assert (is_profile s.profile events && s.apps_hold_enabled)
  pure (
      object (
        ("armed", boolean true)
        ∷ ("held", boolean s.apps_initialize_held)
        ∷ ("released", boolean s.apps_initialize_release)
        ∷ ("finished", boolean s.apps_initialize_finished)
        ∷ []))

unfoldable pub apps_release : String → Call Unit
apps_release identity = do
  s ← gets (λ s. s)
  assert (is_profile s.profile events && s.apps_hold_enabled)
  assert (s.apps_initialize_held && not s.apps_initialize_release)
  note "apps_initialize_release_requested" []
  modify (λ s. record s { apps_initialize_release = true; main = awaiting_apps identity })

unfoldable pub malformed_config : Call Value
malformed_config = do
  p ← gets (λ s. s.profile)
  assert (is_profile p status)
  modify (λ s. record s { config = "[owned invalid config\n" })
  note "config_malformed" []
  pure (dict end)

-- self.oauth_access_revoked = True, and its journal row
unfoldable pub revoked : Call Unit
revoked = do
  modify (λ s. record s { oauth_access_revoked = true })
  note "oauth_access_revoked" (("access_generation", number 1) ∷ [])

unfoldable pub revoke_access : Call Value
unfolding is_primed_oauth revoked
revoke_access = do
  s ← gets (λ s. s)
  assert (is_profile s.profile oauth)
  assert (not s.oauth_access_revoked && not s.oauth_recovery_issued)
  assert (any is_primed_oauth s.journal)
  revoked
  pure (object (("revoked_generation", number 1) ∷ []))

-- self.oauth_discovery = variant, and its journal row
unfoldable pub discovered : String → Call Unit
discovered variant = do
  modify (λ s. record s { oauth_discovery = variant })
  note "oauth_discovery_changed" (("variant", text variant) ∷ [])

unfoldable pub oauth_discovery : Value → Call Value
unfolding discovered
oauth_discovery message = do
  p ← gets (λ s. s.profile)
  assert (is_profile p oauth)
  named ← lift (subscript "variant" message)
  variant ← lift (text_in ("valid" ∷ "missing-metadata" ∷ []) named)
  discovered variant
  pure (object (("variant", text variant) ∷ []))

-- sorted(ports)
insert : ℕ → List ℕ → List ℕ
insert n [] = n ∷ []
insert n (m ∷ ms) = let after = insert n ms in if leb n m then n ∷ m ∷ ms else m ∷ after

listening : List (String × ℕ) → List ℕ
unfolding insert
listening [] = []
listening ((state, port) ∷ rows) =
    let ports = listening rows in if str_eq state "0A" then insert port ports else ports

unfoldable pub selector_listeners : System → Call Value
unfolding listening
selector_listeners system = do
  p ← gets (λ s. s.profile)
  assert (is_selector p)
  pure (object (("listening_ports", array (map number (listening system.sockets))) ∷ []))

unfoldable pub probe_callback : System → Call Value
probe_callback system = do
  callback ← gets (λ s. s.callback)
  assert (not (is_none callback))
  pure (object (("callback_open", boolean system.accepts) ∷ []))
