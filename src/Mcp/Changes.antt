-- ===== src/Mcp/Changes.antt =====
-- The changes that the fixture's code makes to its state, as a step relation: each is one assignment with
-- the journal row that belongs to it, under the condition that the code has checked.
mod Basics
mod Requests
mod Messages
pub mod Threads
mod Operations
pub mod Runs
use samgita.Prelude.{
  get_elem?, ℕ, ◌+◌, ◌<◌, ◌≡◌, true, false, none, some, String, [], ◌∷◌, ◌++◌, any, length,
}
use samgita.Json.{Value, Fields}
use samgita.Mcp.Fixture.{Fixture, Stream, Response, Main, append}
use samgita.Mcp.Http.{Url, Query, send}
use samgita.Mcp.Config.{Paths, configured}
use samgita.Mcp.Oauth.{registered, exchanged}
use samgita.Mcp.Holds.{initialize_holds, finish_initialize, apps_holds, finish_apps}
use samgita.Mcp.Streams.{
  stream_of, change, set_cancelled, set_served, drop_action, add_stream, close_stream,
}
use samgita.Mcp.Callback.{authorized}
use samgita.Mcp.Emit.{enqueue}
use samgita.Mcp.Operations.{revoked, discovered, armed, is_primed_apps, is_primed_oauth}
use samgita.Mcp.Native.{begin_closing, cancel_all, closes}
use samgita.Mcp.Replay.{kind_of}

pub data Change (s : Fixture) : Fixture → Type 0 where
  notes :
      (name : String) (details : Fields) → kind_of name ≡ none → Change s (append name details s)
  receives : (details : Fields) → Change s (append "mcp" details s)
  sends : (response : Response) → Change s (send response s)
  calls_back : (values : Fields) → Change s (record s { callbacks = s.callbacks ++ values ∷ [] })
  configures : (paths : Paths) (generation : Value) → Change s (configured paths generation s).1
  malforms : (config : String) → Change s (record s { config = config })
  registers : (request : Fields) → Change s (registered request s).1
  exchanges : Change s (exchanged s).1
  revokes :
      s.oauth_access_revoked ≡ false
      → s.oauth_recovery_issued ≡ false
      → any is_primed_oauth s.journal ≡ true
      → Change s (revoked s).1
  discovers : (variant : String) → Change s (discovered variant s).1
  sets_health : (health : String) → Change s (record s { inventory_health = some health })
  holds : (identity : Value) → Change s (initialize_holds identity s).1
  finishes :
      (n : ℕ) (identity : Value)
      → get_elem? s.initialize_waiting n ≡ some identity
      → Change s (finish_initialize n identity s)
  releases : (m : Main) → Change s (record s { initialize_release = true; main = m })
  arms : s.apps_hold_enabled ≡ false → any is_primed_apps s.journal ≡ true → Change s (armed s).1
  holds_apps : (identity : Value) → s.apps_hold_enabled ≡ true → Change s (apps_holds identity s).1
  finishes_apps :
      (n : ℕ) (identity : Value)
      → get_elem? s.apps_initialize_waiting n ≡ some identity
      → Change s (finish_apps n identity s)
  releases_apps : (m : Main) → Change s (record s { apps_initialize_release = true; main = m })
  authorizes : (query : Query) (redirect : Url) → Change s (authorized query redirect s)
  starts :
      (pid : ℕ) → Change s (record s { native = some pid; native_pids = s.native_pids ++ pid ∷ [] })
  stops : Change s (record s { native = none })
  begins_closing : Change s (begin_closing s)
  cancels_all : Change s (record s { streams = cancel_all s.streams })
  ends : s.closed ≡ false → Change s (closes s).1
  sets_main : (m : Main) → Change s (record s { main = m })
  counts_stream : Change s (record s { next_stream = s.next_stream + 1 })
  opens_stream :
      (identity : Value)
      → Change s
          (add_stream (s.next_stream + 1) identity (record s { next_stream = s.next_stream + 1 }))
  cancels : (n : ℕ) → Change s (record s { streams = change n set_cancelled s.streams })
  serves : (n : ℕ) → Change s (record s { streams = change n set_served s.streams })
  drops : (n : ℕ) → Change s (record s { streams = change n drop_action s.streams })
  enqueues :
      (stream : Stream) (output : Value)
      → stream_of stream.number s.streams ≡ some stream
      → length stream.queue < 16
      → Change s (record s { streams = change stream.number (enqueue output) s.streams })
  closes_stream : (n : ℕ) → Change s (close_stream n s)

pub data Changes (s : Fixture) : Fixture → Type 0 where
  here : Changes s s
  more : {t u : Fixture} → Changes s t → Change t u → Changes s u

pub trans : {s t u : Fixture} → Changes s t → Changes t u → Changes s u
trans h here = h
trans h (more k c) = more (trans h k) c

-- What each change keeps, any sequence of changes keeps.
module _ (P : Fixture → Type 0) (keeps : (s t : Fixture) → Change s t → P s → P t) where
  pub Changes-induction : (s t : Fixture) → Changes s t → P s → P t
  Changes-induction s _ here h = h
  Changes-induction s u (more {t = t} k c) h = keeps t u c (Changes-induction s t k h)
