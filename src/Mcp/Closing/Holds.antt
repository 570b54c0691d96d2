-- ===== src/Mcp/Closing/Holds.antt =====
-- The threads of the holds in a fixture that closes: a turn of each ends it.
use samgita.Prelude.{
  ℕ, suc, ◌≡◌, refl, ap, ◌∙◌, false, length, get_elem?, erase_idx, arith, [], ◌∷◌, Option, none,
  some, String, List,
}
use samgita.Json.{Value, Fields}
use samgita.Actions.{◌>>=◌, Outcome, ok, raise, modify, gets, pure}
use samgita.Mcp.Fixture.{Fixture, Stream, Main, append, note, Response}
use samgita.Mcp.Http.{Python, Delivery, send}
use samgita.Mcp.Holds.{resume_initialize, resume_apps, finish_initialize, finish_apps}
use samgita.Mcp.Handler.{handle_error}
use samgita.Mcp.Turns.{
  Turn, run, resumes_initialize, resumes_apps, step, act, in_thread, after, resume_waiting,
  resume_waiting_apps,
}
use samgita.Mcp.Changes.Threads.{initialize_answered, apps_answered}

-- What `close` waits for, and the state of `close`.
pub record Ends (m : Main) (streams : List Stream) (s : Fixture) : Type 0 where
  pub main : s.main ≡ m
  pub closed : s.closed ≡ false
  pub same_streams : s.streams ≡ streams

module _ {m : Main} {streams : List Stream} where
  append-Ends :
      (name : String) (details : Fields) (s : Fixture)
      → Ends m streams s
      → Ends m streams (append name details s)
  unfolding append
  append-Ends name details s h = record {
    main = h.main;
    closed = h.closed;
    same_streams = h.same_streams;
  }

  send-Ends :
      (response : Response) (s : Fixture) → Ends m streams s → Ends m streams (send response s)
  unfolding send
  send-Ends response s h = record {
    main = h.main;
    closed = h.closed;
    same_streams = h.same_streams;
  }

  error-Ends :
      (r : Outcome (Unit {0})) (s : Fixture)
      → Ends m streams s
      → Ends m streams (handle_error r s).1
  unfolding handle_error note modify pure
  error-Ends (ok tt) s h = h
  error-Ends (raise e) s h = append-Ends "fixture_error" _ s h

  finish_initialize-Ends :
      (n : ℕ) (identity : Value) (s : Fixture)
      → Ends m streams s
      → Ends m streams (finish_initialize n identity s)
  unfolding finish_initialize append
  finish_initialize-Ends n identity s h = record {
    main = h.main;
    closed = h.closed;
    same_streams = h.same_streams;
  }

  finish_apps-Ends :
      (n : ℕ) (identity : Value) (s : Fixture)
      → Ends m streams s
      → Ends m streams (finish_apps n identity s)
  unfolding finish_apps append
  finish_apps-Ends n identity s h = record {
    main = h.main;
    closed = h.closed;
    same_streams = h.same_streams;
  }

  initialize-Ends :
      (d : Delivery) (waiting : Option Value) (s : Fixture)
      → Ends m streams s
      → Ends m streams (after (λ identity. in_thread (resume_initialize 0 d identity)) waiting s).1
  unfolding after in_thread resume_initialize pure
  initialize-Ends d none s h = h
  initialize-Ends d (some identity) s h = error-Ends _ _ (
      finish_initialize-Ends 0 identity _
        ((initialize_answered append-Ends send-Ends d identity).at s h))

  apps-Ends :
      (d : Delivery) (waiting : Option Value) (s : Fixture)
      → Ends m streams s
      → Ends m streams (after (λ identity. in_thread (resume_apps 0 d identity)) waiting s).1
  unfolding after in_thread resume_apps pure
  apps-Ends d none s h = h
  apps-Ends d (some identity) s h =
      error-Ends _ _
        (finish_apps-Ends 0 identity _ ((apps_answered append-Ends send-Ends d identity).at s h))

error-waiting :
    (r : Outcome (Unit {0})) (s : Fixture)
    → ((handle_error r s).1.initialize_waiting ≡ s.initialize_waiting)
      × ((handle_error r s).1.apps_initialize_waiting ≡ s.apps_initialize_waiting)
unfolding handle_error note modify pure append
error-waiting (ok tt) s = (refl, refl)
error-waiting (raise e) s = (refl, refl)

-- The thread at the front leaves its hold.
initialize_leaves :
    (d : Delivery) (s : Fixture) (waiting : List Value)
    → s.initialize_waiting ≡ waiting
    → (after
        (λ identity. in_thread (resume_initialize 0 d identity))
        (get_elem? waiting 0)
        s).1.initialize_waiting
      ≡ erase_idx waiting 0
unfolding after in_thread resume_initialize finish_initialize append send pure
initialize_leaves d s [] h = h
initialize_leaves d s (identity ∷ rest) h =
    (error-waiting _ _).0
    ∙ ap (λ ids. erase_idx ids 0)
        ((initialize_answered {P = λ s. s.initialize_waiting ≡ identity ∷ rest}
            (λ name details s w. w) (λ response s w. w) d identity).at
          s h)

initialize_keeps :
    (d : Delivery) (s : Fixture) (waiting : Option Value) (apps : List Value)
    → s.apps_initialize_waiting ≡ apps
    → (after
        (λ identity. in_thread (resume_initialize 0 d identity))
        waiting
        s).1.apps_initialize_waiting
      ≡ apps
unfolding after in_thread resume_initialize finish_initialize append send pure
initialize_keeps d s none apps h = h
initialize_keeps d s (some identity) apps h =
    (error-waiting _ _).1
    ∙ (initialize_answered {P = λ s. s.apps_initialize_waiting ≡ apps} (λ name details s w. w)
          (λ response s w. w) d identity).at
        s h

apps_leaves :
    (d : Delivery) (s : Fixture) (waiting : List Value)
    → s.apps_initialize_waiting ≡ waiting
    → (after
        (λ identity. in_thread (resume_apps 0 d identity))
        (get_elem? waiting 0)
        s).1.apps_initialize_waiting
      ≡ erase_idx waiting 0
unfolding after in_thread resume_apps finish_apps append send pure
apps_leaves d s [] h = h
apps_leaves d s (identity ∷ rest) h =
    (error-waiting _ _).1
    ∙ ap (λ ids. erase_idx ids 0)
        ((apps_answered {P = λ s. s.apps_initialize_waiting ≡ identity ∷ rest}
            (λ name details s w. w) (λ response s w. w) d identity).at
          s h)

apps_keeps :
    (d : Delivery) (s : Fixture) (waiting : Option Value) (ids : List Value)
    → s.initialize_waiting ≡ ids
    → (after (λ identity. in_thread (resume_apps 0 d identity)) waiting s).1.initialize_waiting
      ≡ ids
unfolding after in_thread resume_apps finish_apps append send pure
apps_keeps d s none ids h = h
apps_keeps d s (some identity) ids h =
    (error-waiting _ _).0
    ∙ (apps_answered {P = λ s. s.initialize_waiting ≡ ids} (λ name details s w. w)
          (λ response s w. w) d identity).at
        s h

-- A turn of each thread of a hold: the one that is then at the front, and its peer.
abbrev pub initialize_turns : List Delivery → List Turn
initialize_turns [] = []
initialize_turns (d ∷ ds) = resumes_initialize 0 d ∷ initialize_turns ds

abbrev pub apps_turns : List Delivery → List Turn
apps_turns [] = []
apps_turns (d ∷ ds) = resumes_apps 0 d ∷ apps_turns ds

-- How many threads wait in the holds of a fixture that is about to end.
abbrev pub Waits : Main → List Stream → (held apps_held : ℕ) → Fixture → Type 0
Waits m streams held apps_held s =
    Ends m streams s
    × (length s.initialize_waiting ≡ held)
    × (length s.apps_initialize_waiting ≡ apps_held)

length-erase_front : (ids : List Value) (n : ℕ) → length ids ≡ suc n → length (erase_idx ids 0) ≡ n
length-erase_front [] n h = absurd (omega arith)
length-erase_front (identity ∷ ids) n h = omega arith

module _ (py : Python) (m : Main) (streams : List Stream) where
  resumed-Waits :
      (d : Delivery) (held apps_held : ℕ) (s : Fixture)
      → Waits m streams (suc held) apps_held s
      → Waits m streams held apps_held (step py (resumes_initialize 0 d) s)
  unfolding step act resume_waiting ◌>>=◌ gets
  resumed-Waits d held apps_held s h = (
    initialize-Ends d (get_elem? s.initialize_waiting 0) s h.0,
    ap length (initialize_leaves d s s.initialize_waiting refl)
        ∙ length-erase_front s.initialize_waiting held h.1,
    ap length
          (initialize_keeps d s (get_elem? s.initialize_waiting 0) s.apps_initialize_waiting refl)
        ∙ h.2,
  )

  resumed_apps-Waits :
      (d : Delivery) (held apps_held : ℕ) (s : Fixture)
      → Waits m streams held (suc apps_held) s
      → Waits m streams held apps_held (step py (resumes_apps 0 d) s)
  unfolding step act resume_waiting_apps ◌>>=◌ gets
  resumed_apps-Waits d held apps_held s h = (
    apps-Ends d (get_elem? s.apps_initialize_waiting 0) s h.0,
    ap length (apps_keeps d s (get_elem? s.apps_initialize_waiting 0) s.initialize_waiting refl)
        ∙ h.1,
    ap length (apps_leaves d s s.apps_initialize_waiting refl)
        ∙ length-erase_front s.apps_initialize_waiting apps_held h.2,
  )

  pub initialize_turns-Waits :
      (ds : List Delivery) (apps_held : ℕ) (s : Fixture)
      → Waits m streams (length ds) apps_held s
      → Waits m streams 0 apps_held (run py (initialize_turns ds) s)
  unfolding run
  initialize_turns-Waits [] apps_held s h = h
  initialize_turns-Waits (d ∷ ds) apps_held s h =
      initialize_turns-Waits ds apps_held (step py (resumes_initialize 0 d) s)
        (resumed-Waits d (length ds) apps_held s h)

  pub apps_turns-Waits :
      (ds : List Delivery) (held : ℕ) (s : Fixture)
      → Waits m streams held (length ds) s
      → Waits m streams held 0 (run py (apps_turns ds) s)
  unfolding run
  apps_turns-Waits [] held s h = h
  apps_turns-Waits (d ∷ ds) held s h =
      apps_turns-Waits ds held (step py (resumes_apps 0 d) s)
        (resumed_apps-Waits d held (length ds) s h)
