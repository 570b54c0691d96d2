-- ===== src/Mcp/Changes/Messages.antt =====
-- The MCP messages, and the handlers of requests as wholes, make only changes.
use samgita.Prelude.{
  ℕ, ◌≡◌, Bool, true, false, Option, none, some, String, List, [], ◌∷◌, ◌&&◌, not, ◌+◌, arith,
}
use samgita.Json.{Value}
use samgita.Actions.{◌>>=◌, modify, gets, lift, Outcome, ok, raise}
use samgita.Actions.Maintains.{Maintains, bind-Maintains}
use samgita.Mcp.Fixture.{Fixture, Call, Stream}
use samgita.Mcp.Http.{Python, Request, Delivery, subscript}
use samgita.Mcp.Holds.{hold_initialize, hold_apps}
use samgita.Mcp.Streams.{open_stream, announced, counted, add_stream}
use samgita.Mcp.Messages.{cancel_streams, answer, serve, mcp, note_mcp, unauthenticated}
use samgita.Mcp.Handler.{
  respond, do_post, handle, handle_error, Method, get_method, post_method, delete_method,
}
use samgita.Mcp.Replay.{kind_of}
use samgita.Mcp.Changes.{Changes, more, holds, holds_apps, counts_stream, opens_stream}
use samgita.Mcp.Changes.Basics.{
  Maintains-Safe, Safe-gets, Safe-assert, Safe-lift, Safe-last, change_rules,
}
use samgita.Mcp.Changes.Requests.{
  register-Maintains, token-Maintains, do_get-Maintains, do_delete-Maintains,
}

pub first_true : (a b : Bool) → (a && b) ≡ true → a ≡ true
first_true a b h = ground arith

pub second_true : (a b : Bool) → (a && b) ≡ true → b ≡ true
second_true a b h = ground arith

pub unset : (a : Bool) → not a ≡ true → a ≡ false
unset a h = ground arith

module _ {o : Fixture} where
  cancel_streams-Maintains :
      (cancelled : Value) (streams : List Stream)
      → Maintains (Changes o) (cancel_streams cancelled streams)
  unfolding cancel_streams kind_of
  cancel_streams-Maintains cancelled [] = search change_rules
  cancel_streams-Maintains cancelled (stream ∷ streams) =
      bind-Maintains _ _ (search change_rules depth 12 fits 3000)
        (λ _. cancel_streams-Maintains cancelled streams)

  answer-Maintains :
      (request : Request) (path : String) (method identity : Value) (result : Option Value)
      → Maintains (Changes o) (answer request path method identity result)
  unfolding answer kind_of
  answer-Maintains request path method identity none = search change_rules depth 12 fits 3000
  answer-Maintains request path method identity (some result) =
      search change_rules depth 12 fits 3000

  hold_initialize-Maintains :
      (early : Bool) (message : Value) → Maintains (Changes o) (hold_initialize early message)
  unfolding hold_initialize
  hold_initialize-Maintains early message = Maintains-Safe _ λ s.
      Safe-lift _ _
        λ identity. Safe-gets _ _ (Safe-assert _ _ λ checked. Safe-last _ (holds identity))

  hold_apps-Maintains :
      (early : Bool) (message : Value) → Maintains (Changes o) (hold_apps early message)
  unfolding hold_apps
  hold_apps-Maintains early message = Maintains-Safe _ λ s. Safe-lift _ _ λ identity.
      Safe-gets _ _ (
        Safe-assert _ _ λ armed.
          Safe-assert _ _ λ checked. Safe-last _ (holds_apps identity (second_true _ _ armed)))

  -- The number is counted even where the message has no id.
  opened :
      (r : Outcome Value) (k : Value → Call Unit) (s : Fixture)
      → Changes o s
      → ((identity : Value) → Maintains (Changes o) (k identity))
      → Changes o
          ((lift r >>= λ identity.
              modify (add_stream (s.next_stream + 1) identity) >>= λ _. k identity)
            (record s { next_stream = s.next_stream + 1 })).1
  unfolding ◌>>=◌ lift modify
  opened (raise e) k s h rest = more h counts_stream
  opened (ok identity) k s h rest = (rest identity).at _ (more h (opens_stream identity))

  announced-Maintains :
      (d : Delivery) (message : Value) (n : ℕ) (identity : Value)
      → Maintains (Changes o) (announced d message n identity)
  unfolding announced kind_of
  announced-Maintains d message n identity = search change_rules depth 12 fits 3000

  open_stream-Maintains :
      (d : Delivery) (message : Value) → Maintains (Changes o) (open_stream d message)
  unfolding open_stream counted
  open_stream-Maintains d message = record {
    at = λ s h.
        unfold ◌>>=◌ modify gets in
        opened (subscript "id" message) (announced d message (s.next_stream + 1)) s h
          (announced-Maintains d message (s.next_stream + 1));
  }

  serve-Maintains :
      (request : Request) (path : String) (method identity message : Value)
      → Maintains (Changes o) (serve request path method identity message)
  unfolding serve kind_of
  serve-Maintains request path method identity message =
      search
        (
          change_rules, open_stream-Maintains, hold_initialize-Maintains, hold_apps-Maintains,
          cancel_streams-Maintains, answer-Maintains,
        )
        depth 14 fits 4000

  mcp-Maintains :
      (request : Request) (path : String) (message : Value)
      → Maintains (Changes o) (mcp request path message)
  unfolding mcp note_mcp unauthenticated kind_of
  mcp-Maintains request path message = search (change_rules, serve-Maintains) depth 14 fits 4000

  pub handle_error-Maintains : (r : Outcome (Unit {0})) → Maintains (Changes o) (handle_error r)
  unfolding handle_error kind_of
  handle_error-Maintains (ok tt) = search change_rules
  handle_error-Maintains (raise e) = search change_rules

  module _ (py : Python) where
    do_post-Maintains : (request : Request) → Maintains (Changes o) (do_post py request)
    unfolding do_post kind_of
    do_post-Maintains request =
        search (change_rules, mcp-Maintains, register-Maintains, token-Maintains) depth 14 fits 4000

    respond-Maintains :
        (m : Method) (request : Request) → Maintains (Changes o) (respond py m request)
    unfolding respond
    respond-Maintains get_method request = search (change_rules, do_get-Maintains)
    respond-Maintains post_method request = do_post-Maintains request
    respond-Maintains delete_method request = search (change_rules, do_delete-Maintains)

    pub handle-Maintains :
        (m : Method) (request : Request) → Maintains (Changes o) (handle py m request)
    unfolding handle
    handle-Maintains m request = record {
      at = λ s h.
          let (r, s') = respond py m request s in
          (handle_error-Maintains r).at s' ((respond-Maintains m request).at s h);
    }
