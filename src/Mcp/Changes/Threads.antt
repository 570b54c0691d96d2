-- ===== src/Mcp/Changes/Threads.antt =====
-- The handlers that wait, of a hold and of a stream, make only changes in each of their turns.
use samgita.Prelude.{
  get_elem?, ℕ, ◌≡◌, Bool, true, false, Option, none, some, String, List, [], ◌∷◌,
}
use samgita.Json.{Value, Fields}
use samgita.Json.Build.{fields}
use samgita.Actions.{modify, Outcome, ok, raise}
use samgita.Actions.Maintains.{Maintains, maintains}
use samgita.Mcp.Fixture.{Fixture, Stream, Response, append, note}
use samgita.Mcp.Http.{Delivery, delivered, body_lost, headers_lost, reply, send}
use samgita.Mcp.Holds.{answer_initialize, answer_apps, resume_initialize, resume_apps}
use samgita.Mcp.Streams.{
  Round, Peer, quiet, eof, reset, take_action, peer_round, loop_round, live_round, leave, round_of,
  stream_round,
}
use samgita.Mcp.Replay.{kind_of}
use samgita.Mcp.Changes.{Changes, more, finishes, finishes_apps, closes_stream}
use samgita.Mcp.Changes.Basics.{Safe, change_rules}

module _ {o : Fixture} where
  take_action-Maintains :
      (stream : Stream) (written : Bool) (queue : List Value)
      → Maintains (Changes o) (take_action stream written queue)
  unfolding take_action kind_of
  take_action-Maintains stream written [] = search change_rules
  take_action-Maintains stream written (action ∷ rest) = search change_rules depth 12 fits 3000

  peer_round-Maintains :
      (stream : Stream) (written : Bool) (peer : Peer)
      → Maintains (Changes o) (peer_round stream written peer)
  unfolding peer_round kind_of
  peer_round-Maintains stream written quiet = take_action-Maintains stream written stream.queue
  peer_round-Maintains stream written eof = search change_rules depth 12 fits 3000
  peer_round-Maintains stream written reset = search change_rules depth 12 fits 3000

  loop_round-Maintains :
      (stream : Stream) (round : Round) → Maintains (Changes o) (loop_round stream round)
  unfolding loop_round
  loop_round-Maintains stream round = search (change_rules, peer_round-Maintains) depth 12 fits 3000

  leave-Maintains : (n : ℕ) (r : Outcome Bool) → Maintains (Changes o) (leave n r)
  unfolding leave
  leave-Maintains n (ok true) = record { at = λ s h. h }
  leave-Maintains n (ok false) = record { at = λ s h. more h (closes_stream n) }
  leave-Maintains n (raise e) = record { at = λ s h. more h (closes_stream n) }

  live_round-Maintains :
      (stream : Stream) (round : Round) → Maintains (Changes o) (live_round stream round)
  unfolding live_round
  live_round-Maintains stream round = record {
    at = λ s h.
        let (r, s') = loop_round stream round s in
        (leave-Maintains stream.number r).at s' ((loop_round-Maintains stream round).at s h);
  }

  round_of-Maintains :
      (found : Option Stream) (round : Round) → Maintains (Changes o) (round_of found round)
  unfolding round_of
  round_of-Maintains none round = search change_rules
  round_of-Maintains (some stream) round = search (change_rules, live_round-Maintains)

  pub stream_round-Maintains :
      (n : ℕ) (round : Round) → Maintains (Changes o) (stream_round n round)
  unfolding stream_round
  stream_round-Maintains n round = search (change_rules, round_of-Maintains)

  answer_initialize-Maintains :
      (d : Delivery) (identity : Value) → Maintains (Changes o) (answer_initialize d identity)
  unfolding answer_initialize kind_of
  answer_initialize-Maintains d identity = search change_rules depth 12 fits 3000

  answer_apps-Maintains :
      (d : Delivery) (identity : Value) → Maintains (Changes o) (answer_apps d identity)
  unfolding answer_apps kind_of
  answer_apps-Maintains d identity = search change_rules depth 12 fits 3000

-- An answer sends and notes, and touches nothing else.
module _ {P : Fixture → Type 0}
    (appended : (name : String) (details : Fields) (s : Fixture) → P s → P (append name details s))
    (sent : (response : Response) (s : Fixture) → P s → P (send response s)) where
  noted : (name : String) (details : List (String × Value)) → Maintains P (note name details)
  unfolding note modify
  noted name details = record { at = appended name (fields details) }

  sent-Maintains : (response : Response) → Maintains P (modify (send response))
  unfolding modify
  sent-Maintains response = record { at = sent response }

  replied :
      (d : Delivery) (status : ℕ) (v : Value) (headers : List (String × String))
      → Maintains P (reply d status v headers)
  unfolding reply
  replied headers_lost status v headers = search maintains
  replied delivered status v headers = search (maintains, sent-Maintains)
  replied body_lost status v headers = search (maintains, sent-Maintains)

  pub initialize_answered :
      (d : Delivery) (identity : Value) → Maintains P (answer_initialize d identity)
  unfolding answer_initialize
  initialize_answered d identity = search (maintains, noted, replied) depth 12 fits 3000

  pub apps_answered : (d : Delivery) (identity : Value) → Maintains P (answer_apps d identity)
  unfolding answer_apps
  apps_answered d identity = search (maintains, noted, replied) depth 12 fits 3000

module _ {o : Fixture} where
  pub resume_initialize-Safe :
      (n : ℕ) (d : Delivery) (identity : Value) (s : Fixture)
      → get_elem? s.initialize_waiting n ≡ some identity
      → Safe (Changes o) s (resume_initialize n d identity)
  unfolding resume_initialize append send
  resume_initialize-Safe n d identity s waiting = record {
    at = λ h. more ((answer_initialize-Maintains d identity).at s h) (
        finishes n identity (
          (initialize_answered {P = λ s. get_elem? s.initialize_waiting n ≡ some identity}
              (λ name details s w. w) (λ response s w. w) d identity).at
            s waiting));
  }

  pub resume_apps-Safe :
      (n : ℕ) (d : Delivery) (identity : Value) (s : Fixture)
      → get_elem? s.apps_initialize_waiting n ≡ some identity
      → Safe (Changes o) s (resume_apps n d identity)
  unfolding resume_apps append send
  resume_apps-Safe n d identity s waiting = record {
    at = λ h. more ((answer_apps-Maintains d identity).at s h) (
        finishes_apps n identity (
          (apps_answered {P = λ s. get_elem? s.apps_initialize_waiting n ≡ some identity}
              (λ name details s w. w) (λ response s w. w) d identity).at
            s waiting));
  }
