-- ===== src/Mcp/Closing.antt =====
-- The end of the fixture: what a turn of each thread that is left does once `close` has begun.
mod Streams
mod Holds
use mathlib.Core.Path.{subst}
use samgita.Prelude.{
  ℕ, ◌+◌, ◌≡◌, length, ltb, refl, sym, ap, ◌∙◌, Bool, true, false, List, [], ◌∷◌, ◌++◌, All, arith,
  if◌then◌else◌,
}
use samgita.Json.{Value}
use samgita.Actions.{◌>>=◌, ◌>>◌, Outcome, ok, modify, gets, pure, assert}
use samgita.Actions.Returns.{bind-eq}
use samgita.Mcp.Fixture.{Fixture, Call, leaving, ended, note}
use samgita.Mcp.Http.{Python, Delivery}
use samgita.Mcp.Streams.{Round}
use samgita.Mcp.Native.{System, end_close, closes, is_open}
use samgita.Mcp.Turns.{
  Turn, stream_turn, waited, run, step, act, busy, wait_ends, wait_by, wait_on, ends, end_on,
}
use samgita.Mcp.Bounds.{Ascending}
use samgita.Mcp.Closing.Holds.{
  initialize_turns, apps_turns, initialize_turns-Waits, apps_turns-Waits,
}
use samgita.Mcp.Closing.Streams.{
  turn-Turned, Remains, Turned-Remains, Turned-open_at, Turned-keep, numbers, open_at, is_open-none,
  Ascending-numbers,
}

Remains-trans : (s t u : Fixture) → Remains s t → Remains t u → Remains s u
Remains-trans s t u h k = record {
  closing = k.closing ∙ h.closing;
  closed = k.closed ∙ h.closed;
  main = k.main ∙ h.main;
  waiting = k.waiting ∙ h.waiting;
  apps_waiting = k.apps_waiting ∙ h.apps_waiting;
  numbered = k.numbered ∙ h.numbered;
}

-- A turn of each stream of a list of numbers.
abbrev pub stream_turns : Round → List ℕ → List Turn
stream_turns round [] = []
stream_turns round (n ∷ ns) = stream_turn n round ∷ stream_turns round ns

module _ (py : Python) (round : Round) where
  turns-Remains :
      (ns : List ℕ) (s : Fixture) → s.closing ≡ true → Remains s (run py (stream_turns round ns) s)
  unfolding run
  turns-Remains [] s closing = record {
    closing = refl;
    closed = refl;
    main = refl;
    waiting = refl;
    apps_waiting = refl;
    numbered = refl;
  }
  turns-Remains (n ∷ ns) s closing =
      let t = step py (stream_turn n round) s in
      let first = Turned-Remains n s t (turn-Turned py n round s closing) in
      Remains-trans s t _ first (turns-Remains ns t (first.closing ∙ closing))

  turns-keep :
      (ns : List ℕ) (m : ℕ) (s : Fixture)
      → s.closing ≡ true
      → open_at m s.streams ≡ false
      → open_at m (run py (stream_turns round ns) s).streams ≡ false
  unfolding run
  turns-keep [] m s closing h = h
  turns-keep (n ∷ ns) m s closing h =
      let t = step py (stream_turn n round) s in
      let turned = turn-Turned py n round s closing in
      turns-keep ns m t ((Turned-Remains n s t turned).closing ∙ closing)
        (Turned-keep n m s t turned h)

  turns-open_at :
      (ns : List ℕ) (s : Fixture)
      → s.closing ≡ true
      → All (λ m. open_at m (run py (stream_turns round ns) s).streams ≡ false) ns
  unfolding run
  turns-open_at [] s closing = tt
  turns-open_at (n ∷ ns) s closing =
      let t = step py (stream_turn n round) s in
      let turned = turn-Turned py n round s closing in
      let still = (Turned-Remains n s t turned).closing ∙ closing in
      (turns-keep ns n t still (Turned-open_at n s t turned), turns-open_at ns t still)

-- The state that the last wait leaves.
abbrev finished : Fixture → Fixture
finished s = record (closes s).1 { main = ended }

end_close-eq :
    (system : System) (s : Fixture)
    → s.closed ≡ false
    → system.thread_ends ≡ true
    → end_close system s ≡ (ok tt, (closes s).1)
unfolding end_close closes ◌>>=◌ gets pure assert modify note
end_close-eq system s closed ends' = go s.closed system.thread_ends closed ends'
  where
    go :
        (b c : Bool)
        → b ≡ false
        → c ≡ true
        → (if b then pure tt else (assert c >> closes)) s ≡ (ok tt, (closes s).1)
    go false true h k = refl
    go true c h k = absurd (ground arith)
    go false false h k = absurd (ground arith)

wait_on-eq :
    (system : System) (s : Fixture)
    → s.closed ≡ false
    → system.thread_ends ≡ true
    → busy s ≡ false
    → wait_on system leaving s ≡ (ok tt, finished s)
unfolding wait_on ◌>>=◌ gets modify pure
wait_on-eq system s closed ends' free = go (busy s) free
  where
    set_main : Call Unit
    set_main = modify (λ t. record t { main = ended })

    go :
        (b : Bool)
        → b ≡ false
        → (if b then pure tt else (end_close system >> set_main)) s ≡ (ok tt, finished s)
    go false h =
        let ended' = end_close-eq system s closed ends' in
        bind-eq s (end_close system) (λ _. set_main) tt
          (ap (λ (p : Outcome Unit × Fixture). p.0) ended')
        ∙ ap (λ (p : Outcome Unit × Fixture). set_main p.1) ended'
    go true h = absurd (ground arith)

-- The last wait of the main thread, when no handler is left.
waited-ended :
    (py : Python) (system : System) (s : Fixture)
    → s.main ≡ leaving
    → s.closed ≡ false
    → system.thread_ends ≡ true
    → busy s ≡ false
    → ((step py (waited system) s).main ≡ ended) × ((step py (waited system) s).closed ≡ true)
unfolding step act wait_ends ◌>>=◌ gets
waited-ended py system s main closed ends' free =
    let last : (wait_by system s.main s).1 ≡ finished s =
      ap (λ m. (wait_by system m s).1) main
      ∙ unfold wait_by ends end_on pure in
        ap (λ (p : Outcome Unit × Fixture). (end_on p.0 p.1).1)
          (wait_on-eq system s closed ends' free) in
    (
      ap (λ (t : Fixture). t.main) last,
      ap (λ (t : Fixture). t.closed) last ∙ unfold closes ◌>>=◌ modify note in refl,
    )

run-append :
    (py : Python) (turns rest : List Turn) (s : Fixture)
    → run py (turns ++ rest) s ≡ run py rest (run py turns s)
unfolding run
run-append py [] rest s = refl
run-append py (turn ∷ turns) rest s = run-append py turns rest (step py turn s)

-- A turn of each handler that is left, then the wait of the main thread.
abbrev pub closing_turns : Round → (held apps_held : List Delivery) → System → Fixture → List Turn
closing_turns round held apps_held system s =
    stream_turns round (numbers s.streams)
    ++ (initialize_turns held ++ (apps_turns apps_held ++ waited system ∷ []))

none_waits : (ids : List Value) → length ids ≡ 0 → ltb 0 (length ids) ≡ false
none_waits ids h = ground arith

not_busy :
    (s : Fixture)
    → is_open s.streams ≡ false
    → length s.initialize_waiting ≡ 0
    → length s.apps_initialize_waiting ≡ 0
    → busy s ≡ false
unfolding busy
not_busy s streams waiting apps =
    rw (streams, none_waits s.initialize_waiting waiting, none_waits s.apps_initialize_waiting apps)
      refl

-- Once the main thread is in its `finally`, with the fixture closing: after one turn of each handler that is
-- left, whatever the peers and the deadlines, the wait for the server's threads returns and the fixture
-- is closed, provided the server's own thread ends and the streams have ascending numbers.
pub closing-ended :
    (py : Python) (round : Round) (held apps_held : List Delivery) (system : System) (s : Fixture)
    → s.closing ≡ true
    → s.closed ≡ false
    → s.main ≡ leaving
    → Ascending 0 s.streams
    → system.thread_ends ≡ true
    → length s.initialize_waiting ≡ length held
    → length s.apps_initialize_waiting ≡ length apps_held
    → ((run py (closing_turns round held apps_held system s) s).main ≡ ended)
      × ((run py (closing_turns round held apps_held system s) s).closed ≡ true)
closing-ended py round held apps_held system s closing closed main ascending ends' waiting apps =
    let ns = numbers s.streams in
    let t = run py (stream_turns round ns) s in
    let kept = turns-Remains py round ns s closing in
    let shut : is_open t.streams ≡ false =
      is_open-none 0 t.streams
        (Ascending-numbers 0 s.streams t.streams (sym kept.numbered) ascending)
        (subst (All (λ m. open_at m t.streams ≡ false)) (sym kept.numbered)
          (turns-open_at py round ns s closing)) in
    let u = run py (initialize_turns held) t in
    let v = run py (apps_turns apps_held) u in
    let last = waited system ∷ [] in
    let u_waits = initialize_turns-Waits py leaving t.streams held (length apps_held) t (
      record { main = kept.main ∙ main; closed = kept.closed ∙ closed; same_streams = refl },
      ap length kept.waiting ∙ waiting,
      ap length kept.apps_waiting ∙ apps,
    ) in
    let v_waits = apps_turns-Waits py leaving t.streams apps_held 0 u u_waits in
    let w =
      waited-ended py system v v_waits.0.main v_waits.0.closed ends'
        (not_busy v (ap is_open v_waits.0.same_streams ∙ shut) v_waits.1 v_waits.2) in
    let same =
      run-append py (stream_turns round ns)
        (initialize_turns held ++ (apps_turns apps_held ++ last)) s
      ∙ run-append py (initialize_turns held) (apps_turns apps_held ++ last) t
      ∙ run-append py (apps_turns apps_held) last u in
    (
      ap (λ (x : Fixture). x.main) same ∙ unfold run in w.0,
      ap (λ (x : Fixture). x.closed) same ∙ unfold run in w.1,
    )
