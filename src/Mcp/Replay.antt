-- ===== src/Mcp/Replay.antt =====
-- What a journal tells of the fixture: an abstract machine that reads the rows one by one.
use samgita.Prelude.{
  ℕ, suc, ◌-◌, ltb, ◌≡◌, refl, Bool, true, false, Option, none, some, String, str_eq, List, [], ◌∷◌,
  ◌++◌, not, ◌&&◌, ◌||◌, ◌==◌, if◌then◌else◌, arith,
}
use samgita.Json.{Value, null, number, text, get_or}
use samgita.Json.Equality.{equal}
use samgita.Mcp.Fixture.{Event}
use samgita.Mcp.Operations.{is_primed_apps, is_primed_oauth}

-- The rows that tell of a change of state.
pub data Kind : Type 0 where
  requested configured registered exchanged revoked discovered : Kind
  held finished armed apps_held apps_finished fixture_closed : Kind

unfoldable pub kind_of : String → Option Kind
kind_of name =
    if str_eq name "mcp"
    then some requested
    else if str_eq name "config_written"
    then some configured
    else if str_eq name "client_registered"
    then some registered
    else if str_eq name "token_exchange"
    then some exchanged
    else if str_eq name "oauth_access_revoked"
    then some revoked
    else if str_eq name "oauth_discovery_changed"
    then some discovered
    else if str_eq name "inventory_initialize_held"
    then some held
    else if str_eq name "inventory_initialize_finished"
    then some finished
    else if str_eq name "apps_initialize_hold_armed"
    then some armed
    else if str_eq name "apps_initialize_held"
    then some apps_held
    else if str_eq name "apps_initialize_finished"
    then some apps_finished
    else if str_eq name "fixture_closed"
    then some fixture_closed
    else none

pub record View : Type 0 where
  pub count : ℕ
  -- An initialize of the OAuth peer with the first token, and a tools/list of the Apps peer.
  pub primed_oauth : Bool
  pub primed_apps : Bool
  pub generation : Value
  pub discovery : Value
  pub revocation : Bool
  pub recovery : Bool
  pub registration : Option Value
  pub is_held : Bool
  pub is_finished : Bool
  -- The holds that were taken and have not finished.
  pub unfinished : ℕ
  pub is_armed : Bool
  pub is_apps_held : Bool
  pub is_apps_finished : Bool
  pub apps_unfinished : ℕ
  pub is_closed : Bool

unfoldable pub blank : View
blank = record {
  count = 0;
  primed_oauth = false;
  primed_apps = false;
  generation = number 1;
  discovery = text "valid";
  revocation = false;
  recovery = false;
  registration = none;
  is_held = false;
  is_finished = false;
  unfinished = 0;
  is_armed = false;
  is_apps_held = false;
  is_apps_finished = false;
  apps_unfinished = 0;
  is_closed = false;
}

abbrev pub detail : String → Event → Value
detail key e = get_or null key e.details

abbrev pub is_second : Event → Bool
is_second e = equal (detail "access_generation" e) (number 2)

-- What a row of a kind changes.
unfoldable pub change_view : Option Kind → Event → View → View
change_view none e v = v
change_view (some requested) e v = record v {
  primed_oauth = v.primed_oauth || is_primed_oauth e;
  primed_apps = v.primed_apps || is_primed_apps e;
}
change_view (some configured) e v = record v { generation = detail "generation" e }
change_view (some registered) e v = record v { registration = some (detail "request" e) }
change_view (some exchanged) e v = record v { recovery = v.recovery || is_second e }
change_view (some revoked) e v = record v { revocation = true }
change_view (some discovered) e v = record v { discovery = detail "variant" e }
change_view (some held) e v = record v { is_held = true; unfinished = suc v.unfinished }
change_view (some finished) e v = record v { is_finished = true; unfinished = v.unfinished - 1 }
change_view (some armed) e v = record v { is_armed = true }
change_view (some apps_held) e v = record v {
  is_apps_held = true;
  apps_unfinished = suc v.apps_unfinished;
}
change_view (some apps_finished) e v = record v {
  is_apps_finished = true;
  apps_unfinished = v.apps_unfinished - 1;
}
change_view (some fixture_closed) e v = record v { is_closed = true }

-- When a row of a kind may stand in a journal: a token is revoked once, after it was used; an exchange
-- issues the second token exactly after that; a hold of the Apps peer is
-- armed once, after that peer was used, and taken only then; as many holds finish as were taken; the
-- fixture closes once. Two threads that test at once may both register, or both take a hold.
unfoldable pub allowed : Option Kind → Event → View → Bool
allowed (some exchanged) e v =
    if v.revocation then is_second e else equal (detail "access_generation" e) (number 1)
allowed (some revoked) e v = v.primed_oauth && not v.revocation && not v.recovery
allowed (some finished) e v = ltb 0 v.unfinished
allowed (some armed) e v = v.primed_apps && not v.is_armed
allowed (some apps_held) e v = v.is_armed
allowed (some apps_finished) e v = ltb 0 v.apps_unfinished
allowed (some fixture_closed) e v = not v.is_closed
allowed _ e v = true

unfoldable pub next_view : Event → View → View
unfolding change_view kind_of
next_view e v = record (change_view (kind_of e.name) e v) { count = suc v.count }

unfoldable pub allows : Event → View → Bool
unfolding allowed kind_of
allows e v = e.seq == v.count && allowed (kind_of e.name) e v

unfoldable pub replay : List Event → View → View
unfolding next_view
replay [] v = v
replay (e ∷ es) v = replay es (next_view e v)

-- The rows have the numbers 0, 1, ..., and each may stand where it stands.
unfoldable pub accepts : List Event → View → Bool
unfolding allows next_view
accepts [] v = true
accepts (e ∷ es) v = allows e v && accepts es (next_view e v)

pub replay-append :
    (es : List Event) (e : Event) (v : View) → replay (es ++ e ∷ []) v ≡ next_view e (replay es v)
unfolding replay
replay-append [] e v = refl
replay-append (d ∷ es) e v = replay-append es e (next_view d v)

pub accepts-append :
    (es : List Event) (e : Event) (v : View)
    → accepts es v ≡ true
    → allows e (replay es v) ≡ true
    → accepts (es ++ e ∷ []) v ≡ true
unfolding accepts replay
accepts-append [] e v h k = rw k
accepts-append (d ∷ es) e v h k = ground (arith, accepts-append es e (next_view d v))
