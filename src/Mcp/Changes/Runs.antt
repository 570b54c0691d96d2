-- ===== src/Mcp/Changes/Runs.antt =====
-- Every turn makes only changes, and so does every run from the start.
use samgita.Prelude.{ℕ, ◌≡◌, refl, Option, none, some, String, List, [], ◌∷◌}
use samgita.Json.{Value, number}
use samgita.Actions.{Outcome, ok, raise, pure}
use samgita.Actions.Maintains.{Maintains, if-Maintains, bind-Maintains, pure-Maintains}
use samgita.Mcp.Fixture.{
  Fixture, Call, Profile, Main, init, reading, awaiting_initialize, awaiting_apps, awaiting_close,
  leaving, ended,
}
use samgita.Mcp.Http.{Python, Delivery}
use samgita.Mcp.Config.{Paths}
use samgita.Mcp.Native.{System, start_close}
use samgita.Mcp.Control.{control_done}
use samgita.Mcp.Turns.{
  Turn, request, resumes_initialize, resumes_apps, stream_turn, line, waited, input_ends, after,
  in_thread, resume_waiting, resume_waiting_apps, leave_on, leave_main, settle, guarded, wait_on,
  ends, end_on, wait_by, wait_ends, read_line, when_reading, act, step, run, start,
}
use samgita.Mcp.Replay.{kind_of}
use samgita.Mcp.Changes.{Changes, here, trans}
use samgita.Mcp.Changes.Basics.{Safe, Safe-gets, Maintains-Safe, change_rules}
use samgita.Mcp.Changes.Messages.{handle-Maintains, handle_error-Maintains}
use samgita.Mcp.Changes.Threads.{stream_round-Maintains, resume_initialize-Safe, resume_apps-Safe}
use samgita.Mcp.Changes.Operations.{
  control-Maintains, end_close-Maintains, start_close-Maintains, sets_main-Maintains,
  configure-Maintains, start_native-Maintains,
}

module _ {o : Fixture} where
  in_thread-Safe :
      (m : Call Unit) (s : Fixture) → Safe (Changes o) s m → Safe (Changes o) s (in_thread m)
  unfolding in_thread
  in_thread-Safe m s safe = record {
    at = λ h. let (r, s') = m s in (handle_error-Maintains r).at s' (safe.at h);
  }

  after-Safe :
      (f : Value → Call Unit) (waiting : Option Value) (s : Fixture)
      → ((identity : Value) → waiting ≡ some identity → Safe (Changes o) s (f identity))
      → Safe (Changes o) s (after f waiting)
  unfolding after pure
  after-Safe f none s k = record { at = λ h. h }
  after-Safe f (some identity) s k = k identity refl

  resume_waiting-Maintains : (n : ℕ) (d : Delivery) → Maintains (Changes o) (resume_waiting n d)
  unfolding resume_waiting
  resume_waiting-Maintains n d = Maintains-Safe _ λ s. Safe-gets _ _ (
      after-Safe _ _ s
        λ identity waiting. in_thread-Safe _ s (resume_initialize-Safe n d identity s waiting))

  resume_waiting_apps-Maintains :
      (n : ℕ) (d : Delivery) → Maintains (Changes o) (resume_waiting_apps n d)
  unfolding resume_waiting_apps
  resume_waiting_apps-Maintains n d = Maintains-Safe _ λ s. Safe-gets _ _ (
      after-Safe _ _ s
        λ identity waiting. in_thread-Safe _ s (resume_apps-Safe n d identity s waiting))

  leave_on-Maintains :
      (system : System) (r : Outcome (Unit {0})) → Maintains (Changes o) (leave_on system r)
  unfolding leave_on
  leave_on-Maintains system (ok tt) = search sets_main-Maintains
  leave_on-Maintains system (raise e) = search sets_main-Maintains

  leave_main-Maintains : (system : System) → Maintains (Changes o) (leave_main system)
  unfolding leave_main
  leave_main-Maintains system = record {
    at = λ s h.
        let (r, s') = start_close system s in
        (leave_on-Maintains system r).at s' ((start_close-Maintains system).at s h);
  }

  settle-Maintains :
      (system : System) (r : Outcome (Unit {0})) → Maintains (Changes o) (settle system r)
  unfolding settle
  settle-Maintains system (ok tt) = search change_rules
  settle-Maintains system (raise e) = leave_main-Maintains system

  guarded-Maintains :
      (system : System) (m : Call Unit)
      → Maintains (Changes o) m
      → Maintains (Changes o) (guarded system m)
  unfolding guarded
  guarded-Maintains system m k = record {
    at = λ s h. let (r, s') = m s in (settle-Maintains system r).at s' (k.at s h);
  }

  wait_on-Maintains : (system : System) (m : Main) → Maintains (Changes o) (wait_on system m)
  unfolding wait_on kind_of control_done
  wait_on-Maintains system (awaiting_initialize identity) =
      search (change_rules, sets_main-Maintains) depth 8
  wait_on-Maintains system (awaiting_apps identity) =
      search (change_rules, sets_main-Maintains) depth 8
  wait_on-Maintains system (awaiting_close identity) =
      search (change_rules, sets_main-Maintains, end_close-Maintains) depth 8
  wait_on-Maintains system leaving =
      search (change_rules, sets_main-Maintains, end_close-Maintains) depth 8
  wait_on-Maintains system reading = search change_rules
  wait_on-Maintains system ended = search change_rules

  end_on-Maintains : (r : Outcome (Unit {0})) → Maintains (Changes o) (end_on r)
  unfolding end_on
  end_on-Maintains (ok tt) = search change_rules
  end_on-Maintains (raise e) = search sets_main-Maintains

  ends-Maintains : (m : Call Unit) → Maintains (Changes o) m → Maintains (Changes o) (ends m)
  unfolding ends
  ends-Maintains m k = record {
    at = λ s h. let (r, s') = m s in (end_on-Maintains r).at s' (k.at s h);
  }

  wait_by-Maintains : (system : System) (m : Main) → Maintains (Changes o) (wait_by system m)
  unfolding wait_by
  wait_by-Maintains system leaving = ends-Maintains _ (wait_on-Maintains system leaving)
  wait_by-Maintains system reading = guarded-Maintains system _ (wait_on-Maintains system reading)
  wait_by-Maintains system ended = guarded-Maintains system _ (wait_on-Maintains system ended)
  wait_by-Maintains system (awaiting_initialize identity) =
      guarded-Maintains system _ (wait_on-Maintains system _)
  wait_by-Maintains system (awaiting_apps identity) =
      guarded-Maintains system _ (wait_on-Maintains system _)
  wait_by-Maintains system (awaiting_close identity) =
      guarded-Maintains system _ (wait_on-Maintains system _)

  wait_ends-Maintains : (system : System) → Maintains (Changes o) (wait_ends system)
  unfolding wait_ends
  wait_ends-Maintains system = search (change_rules, wait_by-Maintains)

  in_thread-Maintains :
      (m : Call Unit) → Maintains (Changes o) m → Maintains (Changes o) (in_thread m)
  in_thread-Maintains m k = record {
    at = λ s h. (in_thread-Safe m s (record { at = k.at s })).at h;
  }

  when_reading-Maintains :
      (m : Call Unit) → Maintains (Changes o) m → Maintains (Changes o) (when_reading m)
  unfolding when_reading
  when_reading-Maintains m k =
      bind-Maintains _ _ (search change_rules) (λ now. if-Maintains _ _ _ k (pure-Maintains tt))

  module _ (py : Python) where
    read_line-Maintains :
        (paths : Paths) (system : System) (bytes : List ℕ)
        → Maintains (Changes o) (read_line py paths system bytes)
    unfolding read_line
    read_line-Maintains paths system bytes = search (change_rules, control-Maintains) depth 8

    act-Maintains : (turn : Turn) → Maintains (Changes o) (act py turn)
    unfolding act
    act-Maintains (request method r) = search (change_rules, handle-Maintains) depth 8
    act-Maintains (resumes_initialize n d) = resume_waiting-Maintains n d
    act-Maintains (resumes_apps n d) = resume_waiting_apps-Maintains n d
    act-Maintains (stream_turn n round) = in_thread-Maintains _ (stream_round-Maintains n round)
    act-Maintains (line paths system bytes) =
        when_reading-Maintains _
          (guarded-Maintains system _ (read_line-Maintains paths system bytes))
    act-Maintains (waited system) = wait_ends-Maintains system
    act-Maintains (input_ends system) = when_reading-Maintains _ (leave_main-Maintains system)

pub step-Changes : (py : Python) (turn : Turn) (s : Fixture) → Changes s (step py turn s)
unfolding step
step-Changes py turn s = (act-Maintains py turn).at s here

pub run-Changes : (py : Python) (turns : List Turn) (s : Fixture) → Changes s (run py turns s)
unfolding run
run-Changes py [] s = here
run-Changes py (turn ∷ turns) s =
    trans (step-Changes py turn s) (run-Changes py turns (step py turn s))

pub start-Changes :
    (endpoint : String) (p : Profile) (paths : Paths) (system : System)
    → Changes (init endpoint p) (start endpoint p paths system)
unfolding start
start-Changes endpoint p paths system =
    (guarded-Maintains system _ (
        bind-Maintains _ _ (configure-Maintains paths (number 1))
          (λ _. start_native-Maintains system))).at
      (init endpoint p) here
