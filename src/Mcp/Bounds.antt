-- ===== src/Mcp/Bounds.antt =====
-- The streams of a run: their numbers and their queues.
use samgita.Prelude.{
  ℕ, ◌+◌, ◌≤◌, ◌<◌, ◌≡◌, refl, ap, true, some, String, List, [], ◌∷◌, ◌++◌, length, length-append,
  length-drop, All, All-append, ◌==◌, Bool-cases, inl, inr, arith,
}
use samgita.Json.{Value}
use samgita.Actions.{◌>>=◌, modify, gets}
use samgita.Mcp.Fixture.{Fixture, Stream, Profile, append, note, init}
use samgita.Mcp.Http.{Python, send}
use samgita.Mcp.Config.{Paths, configured, write_config}
use samgita.Mcp.Oauth.{registered, exchanged}
use samgita.Mcp.Holds.{initialize_holds, finish_initialize, apps_holds, finish_apps}
use samgita.Mcp.Streams.{
  stream_of, change, set_cancelled, set_served, set_closed, drop_action, add_stream, close_stream,
}
use samgita.Mcp.Callback.{authorized}
use samgita.Mcp.Emit.{enqueue}
use samgita.Mcp.Native.{System, closes, begin_closing, cancel_all}
use samgita.Mcp.Operations.{revoked, discovered, armed}
use samgita.Mcp.Turns.{Turn, run, start}
use samgita.Mcp.Changes.{
  Change, Changes-induction, trans, cancels_all, opens_stream, counts_stream, cancels, serves,
  drops, enqueues, closes_stream,
}
use samgita.Mcp.Changes.Runs.{run-Changes, start-Changes}

-- No queue is longer than 16, and no number is above the last one given.
abbrev pub Fits : ℕ → Stream → Type 0
Fits last stream = (length stream.queue ≤ 16) × (stream.number ≤ last)

-- Each number is above those before it.
abbrev pub Ascending : ℕ → List Stream → Type 0
Ascending n [] = Unit
Ascending n (s ∷ streams) = (n < s.number) × Ascending s.number streams

abbrev pub InBounds : Fixture → Type 0
InBounds s = All (Fits s.next_stream) s.streams × Ascending 0 s.streams

module _ (f : Stream → Stream) where
  All-change :
      (last n : ℕ)
      → ((s : Stream) → Fits last s → Fits last (f s))
      → (streams : List Stream) → All (Fits last) streams
      → All (Fits last) (change n f streams)
  unfolding change
  All-change last n keeps [] h = tt
  All-change last n keeps (s ∷ streams) h = elim (Bool-cases (s.number == n)) [
    | inl same ↦ rw same (keeps s h.0, h.1)
    | inr other ↦ rw other (h.0, All-change last n keeps streams h.1)
  ]

  Ascending-change :
      (m n : ℕ)
      → ((s : Stream) → (f s).number ≡ s.number)
      → (streams : List Stream) → Ascending m streams
      → Ascending m (change n f streams)
  unfolding change
  Ascending-change m n same [] h = tt
  Ascending-change m n same (s ∷ streams) h = elim (Bool-cases (s.number == n)) [
    | inl at ↦ rw (at, same s) h
    | inr other ↦ rw other (h.0, Ascending-change s.number n same streams h.1)
  ]

some-injective : (s t : Stream) → some s ≡ some t → s ≡ t
some-injective s t h = cc

All-enqueue :
    (last n : ℕ) (output : Value) (stream : Stream) (streams : List Stream)
    → stream_of n streams ≡ some stream
    → length stream.queue < 16
    → All (Fits last) streams
    → All (Fits last) (change n (enqueue output) streams)
unfolding change stream_of enqueue
All-enqueue last n output stream [] found room h = tt
All-enqueue last n output stream (s ∷ streams) found room h = elim (Bool-cases (s.number == n)) [
  | inl same ↦ rw same ((omega (arith, length-append s.queue (output ∷ []), fits same), h.0.1), h.1)
  | inr other ↦
      rw other (h.0, All-enqueue last n output stream streams (rw other at found) room h.1)
]
  where
    fits : (s.number == n) ≡ true → length s.queue < 16
    fits same =
        let same_stream : s ≡ stream = some-injective s stream (rw same at found) in
        omega (arith, room, ap (λ (t : Stream). length t.queue) same_stream)

All-later :
    (last : ℕ) (streams : List Stream) → All (Fits last) streams → All (Fits (last + 1)) streams
All-later last [] h = tt
All-later last (s ∷ streams) h = ((h.0.0, omega (arith, h.0.1)), All-later last streams h.1)

All-cancel :
    (last : ℕ) (streams : List Stream)
    → All (Fits last) streams
    → All (Fits last) (cancel_all streams)
unfolding cancel_all set_cancelled
All-cancel last [] h = tt
All-cancel last (s ∷ streams) h = (h.0, All-cancel last streams h.1)

Ascending-cancel :
    (n : ℕ) (streams : List Stream) → Ascending n streams → Ascending n (cancel_all streams)
unfolding cancel_all set_cancelled
Ascending-cancel n [] h = tt
Ascending-cancel n (s ∷ streams) h = (h.0, Ascending-cancel s.number streams h.1)

Ascending-snoc :
    (n last : ℕ) (streams : List Stream) (s : Stream)
    → n ≤ last
    → All (Fits last) streams
    → Ascending n streams
    → last < s.number
    → Ascending n (streams ++ s ∷ [])
Ascending-snoc n last [] s le fits h new = (omega arith, tt)
Ascending-snoc n last (t ∷ streams) s le fits h new =
    (h.0, Ascending-snoc t.number last streams s fits.0.1 fits.1 h.1 new)

drop-Fits : (last : ℕ) (s : Stream) → Fits last s → Fits last (drop_action s)
unfolding drop_action
drop-Fits last s h = (omega (arith, length-drop 1 s.queue, h.0), h.1)

InBounds-Change : (s t : Fixture) → Change s t → InBounds s → InBounds t
unfolding append send write_config configured registered exchanged revoked discovered
    initialize_holds finish_initialize apps_holds finish_apps armed closes authorized begin_closing
    add_stream close_stream ◌>>=◌ modify note gets set_cancelled set_served set_closed drop_action
    enqueue
InBounds-Change s _ cancels_all h =
    (All-cancel s.next_stream s.streams h.0, Ascending-cancel 0 s.streams h.1)
InBounds-Change s _ counts_stream h = (All-later s.next_stream s.streams h.0, h.1)
InBounds-Change s _ (opens_stream identity) h = (
  All-append (Fits (s.next_stream + 1)) s.streams _ (All-later s.next_stream s.streams h.0)
      ((omega arith, omega arith), tt),
  Ascending-snoc 0 s.next_stream s.streams _ (omega arith) h.0 h.1 (omega arith),
)
InBounds-Change s _ (cancels n) h = (
  All-change set_cancelled s.next_stream n (λ t k. k) s.streams h.0,
  Ascending-change set_cancelled 0 n (λ t. refl) s.streams h.1,
)
InBounds-Change s _ (serves n) h = (
  All-change set_served s.next_stream n (λ t k. k) s.streams h.0,
  Ascending-change set_served 0 n (λ t. refl) s.streams h.1,
)
InBounds-Change s _ (drops n) h = (
  All-change drop_action s.next_stream n (drop-Fits s.next_stream) s.streams h.0,
  Ascending-change drop_action 0 n (λ t. refl) s.streams h.1,
)
InBounds-Change s _ (enqueues stream output found room) h = (
  All-enqueue s.next_stream stream.number output stream s.streams found room h.0,
  Ascending-change (enqueue output) 0 stream.number (λ t. refl) s.streams h.1,
)
InBounds-Change s _ (closes_stream n) h = (
  All-change set_closed s.next_stream n (λ t k. k) s.streams h.0,
  Ascending-change set_closed 0 n (λ t. refl) s.streams h.1,
)
InBounds-Change s _ _ h = h

-- In every run no queue of a stream holds more than 16 actions, the streams have ascending numbers, and none
-- is above the last number given.
pub run-InBounds :
    (py : Python) (endpoint : String) (p : Profile) (paths : Paths) (system : System)
    (turns : List Turn)
    → InBounds (run py turns (start endpoint p paths system))
unfolding init
run-InBounds py endpoint p paths system turns =
    Changes-induction InBounds InBounds-Change (init endpoint p)
      (run py turns (start endpoint p paths system))
      (trans (start-Changes endpoint p paths system) (run-Changes py turns _)) (tt, tt)
