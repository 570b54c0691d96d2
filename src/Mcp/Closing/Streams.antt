-- ===== src/Mcp/Closing/Streams.antt =====
-- The streams of a fixture that closes: a turn of each handler ends it.
use samgita.Prelude.{
  ℕ, ◌≤◌, ◌<◌, ◌≡◌, refl, sym, ap, ◌∙◌, Bool, true, false, Option, none, some, List, [], ◌∷◌, not,
  ◌&&◌, ◌||◌, All, ◌==◌, Bool-cases, inl, inr, arith, if◌then◌else◌,
}
use mathlib.Core.Path.{subst}
use samgita.Actions.{◌>>=◌, ◌>>◌, assert, Outcome, gets, pure, ok}
use samgita.Mcp.Fixture.{Fixture, Call, Stream, append}
use samgita.Mcp.Http.{Python}
use samgita.Mcp.Streams.{
  Round, stream_of, change, set_closed, close_stream, stream_round, round_of, live_round,
  loop_round, leave, peer_round,
}
use samgita.Mcp.Handler.{handle_error}
use samgita.Mcp.Native.{is_open}
use samgita.Mcp.Turns.{stream_turn, step, act, in_thread}
use samgita.Mcp.Bounds.{Ascending}

abbrev pub is_live : Option Stream → Bool
is_live none = false
is_live (some s) = s.served && not s.closed

-- Whether the handler of stream `n` is in its loop.
abbrev pub open_at : ℕ → List Stream → Bool
open_at n streams = is_live (stream_of n streams)

close-open_at : (n : ℕ) (streams : List Stream) → open_at n (change n set_closed streams) ≡ false
unfolding stream_of change set_closed
close-open_at n [] = refl
close-open_at n (s ∷ streams) = elim (Bool-cases (s.number == n)) [
  | inl same ↦ rw (same, same) (ground arith)
  | inr other ↦ rw (other, other) (close-open_at n streams)
]

keep-open_at :
    (m n : ℕ) (streams : List Stream)
    → open_at m streams ≡ false
    → open_at m (change n set_closed streams) ≡ false
unfolding stream_of change set_closed
keep-open_at m n [] h = refl
keep-open_at m n (s ∷ streams) h = elim (Bool-cases (s.number == n)) [
  | inl at ↦ elim (Bool-cases (s.number == m)) [
    | inl same ↦ rw (at, same) (ground arith)
    | inr other ↦ rw (at, other) (rw other at h)
  ]
  | inr away ↦ elim (Bool-cases (s.number == m)) [
    | inl same ↦ rw (away, same) (rw same at h)
    | inr other ↦ rw (away, other) (keep-open_at m n streams (rw other at h))
  ]
]

abbrev pub numbers : List Stream → List ℕ
numbers [] = []
numbers (s ∷ streams) = s.number ∷ numbers streams

numbers-change :
    (n : ℕ) (streams : List Stream) → numbers (change n set_closed streams) ≡ numbers streams
unfolding change set_closed
numbers-change n [] = refl
numbers-change n (s ∷ streams) = elim (Bool-cases (s.number == n)) [
  | inl same ↦ rw same refl
  | inr other ↦ rw (other, numbers-change n streams) refl
]

-- Strictly ascending numbers are distinct.
after-open_at :
    (s : Stream) (streams : List Stream) (ms : List ℕ)
    → All (λ m. s.number < m) ms
    → All (λ m. open_at m (s ∷ streams) ≡ false) ms
    → All (λ m. open_at m streams ≡ false) ms
unfolding stream_of
after-open_at s streams [] above h = tt
after-open_at s streams (m ∷ ms) above h =
    let other : (s.number == m) ≡ false = ground (arith, above.0) in
    (rw other at h.0, after-open_at s streams ms above.1 h.1)

Ascending-above :
    (k n : ℕ) (streams : List Stream)
    → k ≤ n
    → Ascending n streams
    → All (λ m. k < m) (numbers streams)
Ascending-above k n [] le h = tt
Ascending-above k n (s ∷ streams) le h =
    (omega (arith, h.0), Ascending-above k s.number streams (omega (arith, h.0)) h.1)

pub is_open-none :
    (n : ℕ) (streams : List Stream)
    → Ascending n streams
    → All (λ m. open_at m streams ≡ false) (numbers streams)
    → is_open streams ≡ false
unfolding is_open
is_open-none n [] asc h = refl
is_open-none n (s ∷ streams) asc h =
    let same : (s.number == s.number) ≡ true = ground arith in
    let first : (s.served && not s.closed) ≡ false = unfold stream_of in rw same at h.0 in
    rw first (
      is_open-none s.number streams asc.1 (
        after-open_at s streams (numbers streams)
          (Ascending-above s.number s.number streams (omega arith) asc.1) h.1))

-- What a turn of handler `n` leaves, once the fixture is closing.
pub data Turned (n : ℕ) (s : Fixture) : Fixture → Type 0 where
  stays : open_at n s.streams ≡ false → Turned n s s
  leaves : Turned n s (close_stream n s)

stream_of-at :
    (n : ℕ) (streams : List Stream) (stream : Stream)
    → stream_of n streams ≡ some stream
    → stream.number ≡ n
unfolding stream_of
stream_of-at n [] stream h = cc
stream_of-at n (s ∷ streams) stream h = ground (arith, stream_of-at n streams stream)

loop-closing :
    (stream : Stream) (round : Round) (s : Fixture)
    → s.closing ≡ true
    → loop_round stream round s ≡ (ok false, s)
unfolding loop_round ◌>>=◌ gets pure
loop-closing stream round s closing = go s.closing closing
  where
    go :
        (b : Bool)
        → b ≡ true
        → ((if b || stream.cancelled
              then pure false
              else (assert (not round.late) >> peer_round stream round.written round.peer))
            s)
          ≡ (ok false, s)
    go true h = refl
    go false h = absurd (ground arith)

live-closing :
    (stream : Stream) (round : Round) (s : Fixture)
    → s.closing ≡ true
    → live_round stream round s ≡ (ok tt, close_stream stream.number s)
unfolding live_round leave
live-closing stream round s closing =
    ap (λ (p : Outcome Bool × Fixture). leave stream.number p.0 p.1)
      (loop-closing stream round s closing)

thread-ok : (m : Call Unit) (s t : Fixture) → m s ≡ (ok tt, t) → (in_thread m s).1 ≡ t
unfolding in_thread handle_error pure
thread-ok m s t h = ap (λ (p : Outcome Unit × Fixture). (handle_error p.0 p.1).1) h

found-Turned :
    (n : ℕ) (round : Round) (s : Fixture) (found : Option Stream)
    → stream_of n s.streams ≡ found
    → s.closing ≡ true
    → Turned n s (in_thread (round_of found round) s).1
unfolding round_of pure
found-Turned n round s none at closing =
    subst (Turned n s) (sym (thread-ok _ s s refl)) (stays (ap is_live at))
found-Turned n round s (some stream) at closing =
    elim (Bool-cases (stream.closed || not stream.served)) [
      | inl done ↦
          rw done
            (subst (Turned n s) (sym (thread-ok _ s s refl)) (stays (ap is_live at ∙ ground arith)))
      | inr live ↦ rw live (
          subst (Turned n s)
            (sym (
              thread-ok _ s (close_stream n s) (
                live-closing stream round s closing
                ∙ ap (λ k. (ok tt, close_stream k s)) (stream_of-at n s.streams stream at))))
            leaves)
    ]

pub turn-Turned :
    (py : Python) (n : ℕ) (round : Round) (s : Fixture)
    → s.closing ≡ true
    → Turned n s (step py (stream_turn n round) s)
unfolding step act stream_round in_thread ◌>>=◌ gets
turn-Turned py n round s closing = found-Turned n round s (stream_of n s.streams) refl closing

-- What the turns of the streams leave alone.
pub record Remains (s t : Fixture) : Type 0 where
  pub closing : t.closing ≡ s.closing
  pub closed : t.closed ≡ s.closed
  pub main : t.main ≡ s.main
  pub waiting : t.initialize_waiting ≡ s.initialize_waiting
  pub apps_waiting : t.apps_initialize_waiting ≡ s.apps_initialize_waiting
  pub numbered : numbers t.streams ≡ numbers s.streams

pub Turned-Remains : (n : ℕ) (s t : Fixture) → Turned n s t → Remains s t
unfolding close_stream append
Turned-Remains n s _ (stays h) = record {
  closing = refl;
  closed = refl;
  main = refl;
  waiting = refl;
  apps_waiting = refl;
  numbered = refl;
}
Turned-Remains n s _ leaves = record {
  closing = refl;
  closed = refl;
  main = refl;
  waiting = refl;
  apps_waiting = refl;
  numbered = numbers-change n s.streams;
}

pub Turned-open_at : (n : ℕ) (s t : Fixture) → Turned n s t → open_at n t.streams ≡ false
unfolding close_stream append
Turned-open_at n s _ (stays h) = h
Turned-open_at n s _ leaves = close-open_at n s.streams

pub Turned-keep :
    (n m : ℕ) (s t : Fixture)
    → Turned n s t
    → open_at m s.streams ≡ false
    → open_at m t.streams ≡ false
unfolding close_stream append
Turned-keep n m s _ (stays h) k = k
Turned-keep n m s _ leaves k = keep-open_at m n s.streams k

pub Ascending-numbers :
    (n : ℕ) (streams others : List Stream)
    → numbers streams ≡ numbers others
    → Ascending n streams
    → Ascending n others
Ascending-numbers n [] [] same h = tt
Ascending-numbers n [] (t ∷ others) same h = absurd (cc)
Ascending-numbers n (s ∷ streams) [] same h = absurd (cc)
Ascending-numbers n (s ∷ streams) (t ∷ others) same h =
    let first : s.number ≡ t.number = cc in
    let rest : numbers streams ≡ numbers others = cc in
    (
      subst (λ m. n < m) first h.0,
      Ascending-numbers t.number streams others rest (subst (λ m. Ascending m streams) first h.1),
    )
