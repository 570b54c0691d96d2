-- ===== src/Mcp/Changes/Basics.antt =====
-- Which actions make only changes: a rule for each primitive action of the fixture.
use samgita.Prelude.{ℕ, ◌≡◌, none, String, List}
use samgita.Json.{Value}
use samgita.Json.Build.{fields}
use samgita.Actions.{broken_pipe, modify, ◌>>=◌}
use samgita.Actions.Maintains.{Maintains, fail-Maintains, maintains}
pub use samgita.Actions.Safe.{
  Safe, Safe-assert, Safe-require, Safe-lift, Safe-gets, Safe-if, Safe-Maintains, Safe-bind,
  Maintains-Safe,
}
use samgita.Mcp.Fixture.{Fixture, Call, Response, note}
use samgita.Mcp.Http.{Delivery, delivered, body_lost, headers_lost, reply, send}
use samgita.Mcp.Config.{Paths, configured}
use samgita.Mcp.Oauth.{exchanged}
use samgita.Mcp.Operations.{discovered}
use samgita.Mcp.Streams.{change_stream, set_cancelled, set_served, drop_action, begin_stream}
use samgita.Mcp.Replay.{kind_of}
use samgita.Mcp.Changes.{
  Change, Changes, more, notes, receives, sends, configures, exchanges, discovers, cancels, serves,
  drops,
}

-- What the action does is a change, or nothing.
module _ {A : Type 0} {o : Fixture} where
  pub change-Maintains : (m : Call A) → ((s : Fixture) → Change s (m s).1) → Maintains (Changes o) m
  change-Maintains m change = record { at = λ s h. more h (change s) }

module _ {A : Type 0} {o s : Fixture} where
  pub Safe-last : (m : Call A) → Change s (m s).1 → Safe (Changes o) s m
  Safe-last m change = record { at = λ h. more h change }

module _ {A B : Type 0} {o s : Fixture} where
  -- A change that the checks allow, with what follows it.
  pub Safe-then :
      (m : Call B) (k : B → Call A)
      → Change s (m s).1
      → ((b : B) → Maintains (Changes o) (k b))
      → Safe (Changes o) s (m >>= k)
  Safe-then m k change rest = Safe-bind m k (Safe-last m change) rest

pub ruleset safe_rules =
    (Safe-assert, Safe-require, Safe-lift, Safe-gets, Safe-then, Safe-if, Safe-last)

module _ {o : Fixture} where
  pub note-Maintains :
      (name : String) (details : List (String × Value))
      → kind_of name ≡ none
      → Maintains (Changes o) (note name details)
  unfolding note modify
  note-Maintains name details h = record { at = λ s k. more k (notes name (fields details) h) }

  pub note_mcp-Maintains :
      (details : List (String × Value)) → Maintains (Changes o) (note "mcp" details)
  unfolding note modify
  note_mcp-Maintains details = record { at = λ s k. more k (receives (fields details)) }

  send-Maintains : (response : Response) → Maintains (Changes o) (modify (send response))
  unfolding modify
  send-Maintains response = record { at = λ s k. more k (sends response) }

  pub reply-Maintains :
      (d : Delivery) (status : ℕ) (v : Value) (headers : List (String × String))
      → Maintains (Changes o) (reply d status v headers)
  unfolding reply
  reply-Maintains headers_lost status v headers = fail-Maintains broken_pipe
  reply-Maintains delivered status v headers = search (maintains, send-Maintains)
  reply-Maintains body_lost status v headers = search (maintains, send-Maintains)

  pub begin_stream-Maintains : (d : Delivery) → Maintains (Changes o) (begin_stream d)
  unfolding begin_stream
  begin_stream-Maintains headers_lost = fail-Maintains broken_pipe
  begin_stream-Maintains delivered = search send-Maintains
  begin_stream-Maintains body_lost = search send-Maintains

  pub cancel-Maintains : (n : ℕ) → Maintains (Changes o) (change_stream n set_cancelled)
  unfolding change_stream modify
  cancel-Maintains n = change-Maintains (change_stream n set_cancelled) (λ s. cancels n)

  pub serve-Maintains : (n : ℕ) → Maintains (Changes o) (change_stream n set_served)
  unfolding change_stream modify
  serve-Maintains n = change-Maintains (change_stream n set_served) (λ s. serves n)

  pub drop-Maintains : (n : ℕ) → Maintains (Changes o) (change_stream n drop_action)
  unfolding change_stream modify
  drop-Maintains n = change-Maintains (change_stream n drop_action) (λ s. drops n)

  pub configured-Maintains :
      (paths : Paths) (g : Value) → Maintains (Changes o) (configured paths g)
  configured-Maintains paths g = change-Maintains (configured paths g) (λ s. configures paths g)

  pub exchanged-Maintains : Maintains (Changes o) exchanged
  exchanged-Maintains = change-Maintains exchanged (λ s. exchanges)

  pub discovered-Maintains : (variant : String) → Maintains (Changes o) (discovered variant)
  discovered-Maintains variant = change-Maintains (discovered variant) (λ s. discovers variant)

pub ruleset change_rules = (
  maintains, note-Maintains, note_mcp-Maintains, reply-Maintains, begin_stream-Maintains,
  cancel-Maintains, serve-Maintains, drop-Maintains, configured-Maintains, exchanged-Maintains,
  discovered-Maintains,
)
