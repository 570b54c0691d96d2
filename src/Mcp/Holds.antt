-- ===== src/Mcp/Holds.antt =====
-- `held_initialize` and `held_apps_initialize`. The thread of the request waits between the two parts:
-- `hold` is what precedes the wait, `resume` what follows it.
use samgita.Prelude.{
  ℕ, Bool, true, false, String, List, [], ◌∷◌, ◌++◌, not, ◌&&◌, ◌||◌, join, erase_idx,
  if◌then◌else◌,
}
use samgita.Json.{Value, boolean, text, dict, end}
use samgita.Json.Build.{object}
use samgita.Actions.{pure, lift, gets, modify, assert, finally, except_broken, ◌>>=◌, ◌>>◌}
use samgita.Mcp.Fixture.{Fixture, Call, status, events, is_profile, append, note, event_path}
use samgita.Json.Build.{fields}
use samgita.Mcp.Http.{Delivery, reply, subscript}

-- capabilities(label)
unfoldable pub capabilities : String → Value
capabilities label = object (
    ("tools", dict end)
    ∷ ("resources", object (("subscribe", boolean false) ∷ ("listChanged", boolean false) ∷ []))
    ∷ ("extensions", object (("owned/inventory", object (("generation", text label) ∷ [])) ∷ []))
    ∷ [])

unfoldable pub initialize_result : String → Value
unfolding capabilities
initialize_result label = object (
    ("protocolVersion", text "2025-06-18")
    ∷ ("capabilities", capabilities label)
    ∷ (
      "serverInfo",
      object (
          ("name", text (join ("owned-" ∷ label ∷ [])))
          ∷ ("version", text "1.0.0")
          ∷ ("title", text (join ("Owned " ∷ label ∷ [])))
          ∷ ("description", text "Synthetic inventory λ")
          ∷ ("websiteUrl", text "https://synthetic.invalid/owned")
          ∷ []),
    )
    ∷ [])

unfoldable pub result_body : Value → Value → Value
result_body identity result =
    object (("jsonrpc", text "2.0") ∷ ("id", identity) ∷ ("result", result) ∷ [])

unfoldable pub session : String → List (String × String)
session label = ("Mcp-Session-Id", join ("owned-session-" ∷ label ∷ [])) ∷ []

abbrev request_id : Value → List (String × Value)
request_id identity = ("request_id", identity) ∷ []

-- initialize_held.set(), and its journal row
unfoldable pub initialize_holds : Value → Call Unit
initialize_holds identity = do
  modify (λ s. record s {
    initialize_held = true;
    initialize_waiting = s.initialize_waiting ++ identity ∷ [];
  })
  note "inventory_initialize_held" (("path", text "/inventory/a-held") ∷ request_id identity)

unfoldable pub hold_initialize : Bool → Value → Call Unit
unfolding initialize_holds
hold_initialize early message = do
  identity ← lift (subscript "id" message)
  s ← gets (λ s. s)
  assert (is_profile s.profile status && (early || not s.initialize_held))
  initialize_holds identity

unfoldable pub answer_initialize : Delivery → Value → Call Unit
unfolding initialize_result result_body session
answer_initialize delivery identity = do
  s ← gets (λ s. s)
  assert s.initialize_release
  if s.closing then note "inventory_initialize_abandoned" (request_id identity) else do
    note "inventory_initialize_response_attempted" (request_id identity)
    except_broken
        (do
          reply delivery 200 (result_body identity (initialize_result "a-held")) (session "a-held")
          pure tt)
        (note "inventory_initialize_peer_closed" (request_id identity))

-- The `finally` of held_initialize, in the thread with this place among those that wait.
unfoldable pub finish_initialize : ℕ → Value → Fixture → Fixture
unfolding append
finish_initialize n identity s =
    record (append "inventory_initialize_finished" (fields (request_id identity)) s) {
      initialize_finished = true;
      initialize_waiting = erase_idx s.initialize_waiting n;
    }

unfoldable pub resume_initialize : ℕ → Delivery → Value → Call Unit
resume_initialize n delivery identity =
    finally (answer_initialize delivery identity) (finish_initialize n identity)

-- apps_initialize_held.set(), and its journal row
unfoldable pub apps_holds : Value → Call Unit
apps_holds identity = do
  modify (λ s. record s {
    apps_initialize_held = true;
    apps_initialize_waiting = s.apps_initialize_waiting ++ identity ∷ [];
  })
  note "apps_initialize_held" (("path", text event_path) ∷ request_id identity)

unfoldable pub hold_apps : Bool → Value → Call Unit
unfolding apps_holds
hold_apps early message = do
  identity ← lift (subscript "id" message)
  s ← gets (λ s. s)
  assert (is_profile s.profile events && s.apps_hold_enabled)
  assert (early || not s.apps_initialize_held)
  apps_holds identity

unfoldable pub answer_apps : Delivery → Value → Call Unit
unfolding initialize_result result_body session
answer_apps delivery identity = do
  s ← gets (λ s. s)
  assert s.apps_initialize_release
  if s.closing then note "apps_initialize_abandoned" (request_id identity) else do
    note "apps_initialize_response_attempted" (request_id identity)
    except_broken
        (do
          written ←
              reply delivery 200 (result_body identity (initialize_result "mcp")) (session "mcp")
          note "apps_initialize_response_written"
              (("request_id", identity) ∷ ("response_written", boolean written) ∷ []))
        (note "apps_initialize_peer_closed" (request_id identity))

-- The `finally` of held_apps_initialize, likewise.
unfoldable pub finish_apps : ℕ → Value → Fixture → Fixture
unfolding append
finish_apps n identity s =
    record (append "apps_initialize_finished" (fields (request_id identity)) s) {
      apps_initialize_finished = true;
      apps_initialize_waiting = erase_idx s.apps_initialize_waiting n;
    }

unfoldable pub resume_apps : ℕ → Delivery → Value → Call Unit
resume_apps n delivery identity = finally (answer_apps delivery identity) (finish_apps n identity)
