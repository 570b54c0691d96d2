-- ===== src/Mcp/Refinement/Rows.antt =====
-- Each change of the fixture, with its journal row, against the abstract machine.
use samgita.Prelude.{
  ℕ, get_elem?, erase_idx, length, length-erase_idx, ◌-◌, suc, ◌≡◌, refl, Bool, true, false, some,
  String, [], ◌∷◌, any, length, ◌||◌, ◌==◌, if◌then◌else◌, arith,
}
use samgita.Json.{Value, number, text, dict, Fields, get}
use samgita.Json.Equality.{equal}
use samgita.Json.Build.{fields}
use samgita.Actions.{modify, gets, ◌>>=◌}
use samgita.Mcp.Fixture.{dcr_client, profile_name, event_path, Fixture, Event, append, note}
use samgita.Mcp.Http.{send}
use samgita.Mcp.Config.{Paths, configured, write_config}
use samgita.Mcp.Oauth.{registered, exchanged, exchange_details, generation_issued}
use samgita.Mcp.Holds.{initialize_holds, finish_initialize, apps_holds, finish_apps}
use samgita.Mcp.Streams.{add_stream, close_stream, change, set_closed}
use samgita.Mcp.Callback.{authorized}
use samgita.Mcp.Operations.{revoked, discovered, armed, is_primed_apps, is_primed_oauth}
use samgita.Mcp.Native.{closes, begin_closing}
use samgita.Mcp.Replay.{kind_of, next_view, change_view, allows, allowed}
use samgita.Mcp.Changes.{
  Change, notes, receives, configures, registers, exchanges, revokes, discovers, holds, finishes,
  arms, holds_apps, finishes_apps, ends, closes_stream,
}
use samgita.Mcp.Refinement.{
  view_of, Agrees, row-Agrees, notes-Agrees, any-snoc, length-snoc, same-count, refines-step,
}

registers-Agrees : (s : Fixture) (request : Fields) → Agrees s → Agrees (registered request s).1
unfolding registered ◌>>=◌ modify note append view_of next_view change_view kind_of allowed get
registers-Agrees s request h =
    row-Agrees s (registered request s).1 "client_registered"
      (fields (("client_id", text dcr_client) ∷ ("request", dict request) ∷ []))
      (λ v. record v { registration = some (dict request) }) refl h refl refl refl refl

-- The second token is issued exactly when the first is revoked.
issues :
    (revocation recovery : Bool)
    → (if revocation then true else recovery) ≡ (recovery || ((if revocation then 2 else 1) == 2))
issues true recovery = ground arith
issues false recovery = ground arith

issue_allowed :
    (revocation : Bool)
    → (if revocation
        then (if revocation then 2 else 1) == 2
        else ((if revocation then 2 else 1) == 1))
      ≡ true
issue_allowed true = refl
issue_allowed false = refl

exchanges-Agrees : (s : Fixture) → Agrees s → Agrees (exchanged s).1
unfolding exchanged ◌>>=◌ modify note gets append view_of next_view change_view kind_of allowed get
    equal generation_issued
exchanges-Agrees s h =
    row-Agrees s (exchanged s).1 "token_exchange" (fields (exchange_details s))
      (λ v. record v {
        recovery = if s.oauth_access_revoked then true else s.oauth_recovery_issued;
      })
      refl h refl refl (rw issues refl) (issue_allowed s.oauth_access_revoked)

configures-Agrees :
    (s : Fixture) (paths : Paths) (g : Value) → Agrees s → Agrees (configured paths g s).1
unfolding configured write_config ◌>>=◌ modify note gets append view_of next_view change_view
    kind_of allowed get
configures-Agrees s paths g h =
    row-Agrees s (configured paths g s).1 "config_written"
      (fields (("generation", g) ∷ ("profile", text (profile_name s.profile)) ∷ []))
      (λ v. record v { generation = g }) refl h refl refl refl refl

revokes-Agrees :
    (s : Fixture)
    → s.oauth_access_revoked ≡ false
    → s.oauth_recovery_issued ≡ false
    → any is_primed_oauth s.journal ≡ true
    → Agrees s
    → Agrees (revoked s).1
unfolding revoked ◌>>=◌ modify note append view_of next_view change_view kind_of allowed
revokes-Agrees s fresh unissued primed h =
    row-Agrees s (revoked s).1 "oauth_access_revoked"
      (fields (("access_generation", number 1) ∷ [])) (λ v. record v { revocation = true }) refl h
      refl refl refl (rw (primed, fresh, unissued) refl)

discovers-Agrees : (s : Fixture) (variant : String) → Agrees s → Agrees (discovered variant s).1
unfolding discovered ◌>>=◌ modify note append view_of next_view change_view kind_of allowed get
discovers-Agrees s variant h =
    row-Agrees s (discovered variant s).1 "oauth_discovery_changed"
      (fields (("variant", text variant) ∷ [])) (λ v. record v { discovery = text variant }) refl h
      refl refl refl refl

holds-Agrees : (s : Fixture) (identity : Value) → Agrees s → Agrees (initialize_holds identity s).1
unfolding initialize_holds ◌>>=◌ modify note append view_of next_view change_view kind_of allowed
holds-Agrees s identity h =
    row-Agrees s (initialize_holds identity s).1 "inventory_initialize_held"
      (fields (("path", text "/inventory/a-held") ∷ ("request_id", identity) ∷ []))
      (λ v. record v { is_held = true; unfinished = suc v.unfinished }) refl h refl
      (rw (length-snoc s.initialize_waiting identity) refl) refl refl

finishes-Agrees :
    (s : Fixture) (n : ℕ) (identity : Value)
    → get_elem? s.initialize_waiting n ≡ some identity
    → Agrees s
    → Agrees (finish_initialize n identity s)
unfolding finish_initialize append view_of next_view change_view kind_of allowed
finishes-Agrees s n identity waiting h =
    let full = length-erase_idx s.initialize_waiting n waiting in
    let shorter : length (erase_idx s.initialize_waiting n) ≡ length s.initialize_waiting - 1 =
      omega arith in
    row-Agrees s (finish_initialize n identity s) "inventory_initialize_finished"
      (fields (("request_id", identity) ∷ []))
      (λ v. record v { is_finished = true; unfinished = v.unfinished - 1 }) refl h refl
      (rw shorter refl) refl (ground arith)

arms-Agrees :
    (s : Fixture)
    → s.apps_hold_enabled ≡ false
    → any is_primed_apps s.journal ≡ true
    → Agrees s
    → Agrees (armed s).1
unfolding armed ◌>>=◌ modify note append view_of next_view change_view kind_of allowed
arms-Agrees s free primed h =
    row-Agrees s (armed s).1 "apps_initialize_hold_armed" (fields (("path", text event_path) ∷ []))
      (λ v. record v { is_armed = true }) refl h refl refl refl (rw (primed, free) refl)

holds_apps-Agrees :
    (s : Fixture) (identity : Value)
    → s.apps_hold_enabled ≡ true
    → Agrees s
    → Agrees (apps_holds identity s).1
unfolding apps_holds ◌>>=◌ modify note append view_of next_view change_view kind_of allowed
holds_apps-Agrees s identity ready h =
    row-Agrees s (apps_holds identity s).1 "apps_initialize_held"
      (fields (("path", text event_path) ∷ ("request_id", identity) ∷ []))
      (λ v. record v { is_apps_held = true; apps_unfinished = suc v.apps_unfinished }) refl h refl
      (rw (length-snoc s.apps_initialize_waiting identity) refl) refl (rw ready refl)

finishes_apps-Agrees :
    (s : Fixture) (n : ℕ) (identity : Value)
    → get_elem? s.apps_initialize_waiting n ≡ some identity
    → Agrees s
    → Agrees (finish_apps n identity s)
unfolding finish_apps append view_of next_view change_view kind_of allowed
finishes_apps-Agrees s n identity waiting h =
    let full = length-erase_idx s.apps_initialize_waiting n waiting in
    let shorter : length (erase_idx s.apps_initialize_waiting n)
        ≡ length s.apps_initialize_waiting - 1 =
      omega arith in
    row-Agrees s (finish_apps n identity s) "apps_initialize_finished"
      (fields (("request_id", identity) ∷ []))
      (λ v. record v { is_apps_finished = true; apps_unfinished = v.apps_unfinished - 1 }) refl h
      refl (rw shorter refl) refl (ground arith)

ends-Agrees : (s : Fixture) → s.closed ≡ false → Agrees s → Agrees (closes s).1
unfolding closes ◌>>=◌ modify note append view_of next_view change_view kind_of allowed
ends-Agrees s free h =
    row-Agrees s (closes s).1 "fixture_closed" (fields []) (λ v. record v { is_closed = true }) refl
      h refl refl refl (rw free refl)

receives-Agrees : (s : Fixture) (details : Fields) → Agrees s → Agrees (append "mcp" details s)
unfolding append view_of next_view change_view kind_of allows allowed
receives-Agrees s details h =
    let e : Event = record { seq = length s.journal; name = "mcp"; details = details } in
    refines-step s (append "mcp" details s) e h refl
      (rw (length-snoc, any-snoc is_primed_oauth, any-snoc is_primed_apps) refl)
      (rw (same-count (length s.journal)) refl)

-- Every change keeps the fixture in step with the machine.
pub Agrees-Change : (s t : Fixture) → Change s t → Agrees s → Agrees t
unfolding append send write_config configured registered exchanged revoked discovered
    initialize_holds finish_initialize apps_holds finish_apps armed closes authorized begin_closing
    add_stream close_stream ◌>>=◌ modify note gets view_of
Agrees-Change s _ (notes name details neutral) h = notes-Agrees s name details neutral h
Agrees-Change s _ (receives details) h = receives-Agrees s details h
Agrees-Change s _ (configures paths g) h = configures-Agrees s paths g h
Agrees-Change s _ (registers request) h = registers-Agrees s request h
Agrees-Change s _ exchanges h = exchanges-Agrees s h
Agrees-Change s _ (revokes fresh unissued primed) h = revokes-Agrees s fresh unissued primed h
Agrees-Change s _ (discovers variant) h = discovers-Agrees s variant h
Agrees-Change s _ (holds identity) h = holds-Agrees s identity h
Agrees-Change s _ (finishes n identity waiting) h = finishes-Agrees s n identity waiting h
Agrees-Change s _ (arms free primed) h = arms-Agrees s free primed h
Agrees-Change s _ (holds_apps identity ready) h = holds_apps-Agrees s identity ready h
Agrees-Change s _ (finishes_apps n identity waiting) h = finishes_apps-Agrees s n identity waiting h
Agrees-Change s _ (ends free) h = ends-Agrees s free h
Agrees-Change s _ (closes_stream n) h =
    notes-Agrees (record s { streams = change n set_closed s.streams }) "stream_closed" _
      (unfold kind_of in refl) h
Agrees-Change s _ _ h = h
