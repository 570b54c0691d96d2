-- ===== src/Mcp/Turns.antt =====
-- The fixture as it runs: one turn of the main thread or of a handler's thread. A list of turns is an
-- interleaving; a handler's tests without the lock may be early (Request). A request up to its hold or its stream is one turn, and so is a control operation up to
-- its wait.
use samgita.Prelude.{
  ℕ, Bool, true, false, Option, none, some, String, List, [], ◌∷◌, ◌||◌, leb, ltb, length,
  get_elem?, if◌then◌else◌, Text,
}
use samgita.Json.{Value, boolean, number, text, dict, end}
use samgita.Json.Build.{object}
use samgita.Actions.{Outcome, ok, raise, pure, lift, gets, modify, assert, ◌>>=◌, ◌>>◌}
use samgita.Mcp.Fixture.{
  Fixture, Call, Profile, Main, init, reading, awaiting_initialize, awaiting_apps, awaiting_close,
  leaving, ended,
}
use samgita.Mcp.Http.{Python, Request, Delivery}
use samgita.Mcp.Config.{Paths, configure}
use samgita.Mcp.Holds.{resume_initialize, resume_apps}
use samgita.Mcp.Streams.{Round, stream_round}
use samgita.Mcp.Handler.{Method, handle, handle_error}
use samgita.Mcp.Native.{System, start_native, start_close, end_close, is_open}
use samgita.Mcp.Control.{control, control_done}

pub data Turn : Type 0 where
  request : Method → Request → Turn
  resumes_initialize : ℕ → Delivery → Turn
  resumes_apps : ℕ → Delivery → Turn
  stream_turn : ℕ → Round → Turn
  line : Paths → System → Text → Turn
  waited : System → Turn
  input_ends : System → Turn

module _ {A : Type 0} where
  unfoldable pub after : (A → Call Unit) → Option A → Call Unit
  after f none = pure tt
  after f (some a) = f a

-- A thread that waits in a hold, by its place, if there is one; its exception is recorded as a request's is.
unfoldable pub in_thread : Call Unit → Call Unit
in_thread m s = let (r, s') = m s in handle_error r s'

unfoldable pub resume_waiting : ℕ → Delivery → Call Unit
resume_waiting n delivery = do
  waiting ← gets (λ s. get_elem? s.initialize_waiting n)
  after (λ identity. in_thread (resume_initialize n delivery identity)) waiting

unfoldable pub resume_waiting_apps : ℕ → Delivery → Call Unit
resume_waiting_apps n delivery = do
  waiting ← gets (λ s. get_elem? s.apps_initialize_waiting n)
  after (λ identity. in_thread (resume_apps n delivery identity)) waiting

abbrev set_main : Main → Call Unit
set_main m = modify (λ s. record s { main = m })

-- The `finally` of `main`: the fixture is closed; if even that raises, the process ends at once.
unfoldable pub leave_on : System → Outcome (Unit {0}) → Call Unit
leave_on system (ok tt) = set_main leaving
leave_on system (raise e) = set_main ended

unfoldable pub leave_main : System → Call Unit
leave_main system s = let (r, s') = start_close system s in leave_on system r s'

-- What the main thread does after an operation: reads on, or leaves after an exception.
unfoldable pub settle : System → Outcome (Unit {0}) → Call Unit
settle system (ok tt) = pure tt
settle system (raise e) = leave_main system

unfoldable pub guarded : System → Call Unit → Call Unit
guarded system m s = let (r, s') = m s in settle system r s'

-- A handler thread is left, so `server_close` does not return.
unfoldable pub busy : Fixture → Bool
busy s =
    is_open s.streams
    || ltb 0 (length s.initialize_waiting)
    || ltb 0 (length s.apps_initialize_waiting)

startup_result : List (String × Value)
startup_result =
    ("held", boolean true) ∷ ("released", boolean true) ∷ ("finished", boolean true) ∷ []

-- A wait of the main thread returns, or its deadline passes.
unfoldable pub wait_on : System → Main → Call Unit
unfolding startup_result
wait_on system (awaiting_initialize identity) = do
  finished ← gets (λ s. s.initialize_finished)
  assert finished
  control_done identity (text "inventory-startup-release") (object startup_result)
  set_main reading
wait_on system (awaiting_apps identity) = do
  finished ← gets (λ s. s.apps_initialize_finished)
  assert finished
  control_done identity (text "apps-startup-release")
      (object (("armed", boolean true) ∷ startup_result))
  set_main reading
wait_on system (awaiting_close identity) = do
  waits ← gets busy
  if waits
      then pure tt
      else do end_close system; control_done identity (text "close") (dict end); set_main reading
wait_on system leaving = do
  waits ← gets busy
  if waits then pure tt else do end_close system; set_main ended
wait_on system _ = pure tt

unfoldable pub end_on : Outcome (Unit {0}) → Call Unit
end_on (ok tt) = pure tt
end_on (raise e) = set_main ended

-- In the `finally` of `main` an exception ends the process.
unfoldable pub ends : Call Unit → Call Unit
ends m s = let (r, s') = m s in end_on r s'

unfoldable pub wait_by : System → Main → Call Unit
wait_by system leaving = ends (wait_on system leaving)
wait_by system m = guarded system (wait_on system m)

unfoldable pub wait_ends : System → Call Unit
wait_ends system = do m ← gets (λ s. s.main); wait_by system m

is_reading : Main → Bool
is_reading reading = true
is_reading _ = false

unfoldable pub when_reading : Call Unit → Call Unit
unfolding is_reading
when_reading m = do now ← gets (λ s. is_reading s.main); if now then m else pure tt

module _ (py : Python) where
  -- The body of the loop of `main` on stdin.
  unfoldable pub read_line : Paths → System → Text → Call Unit
  read_line paths system bytes = do
    assert (leb (length bytes) 16384)
    message ← lift (py.json_loads bytes)
    control py paths system message

  unfoldable pub act : Turn → Call Unit
  act (request method r) = do
    closed ← gets (λ s. s.closed)
    if closed then pure tt else handle py method r
  act (resumes_initialize n delivery) = resume_waiting n delivery
  act (resumes_apps n delivery) = resume_waiting_apps n delivery
  act (stream_turn n round) = in_thread (stream_round n round)
  act (line paths system bytes) = when_reading (guarded system (read_line paths system bytes))
  act (waited system) = wait_ends system
  act (input_ends system) = when_reading (leave_main system)

  unfoldable pub step : Turn → Fixture → Fixture
  step turn s = (act turn s).1

  unfoldable pub run : List Turn → Fixture → Fixture
  run [] s = s
  run (turn ∷ turns) s = run turns (step turn s)

-- `__init__` and `start_native`, as `main` calls them.
unfoldable pub start : String → Profile → Paths → System → Fixture
start endpoint p paths system =
    (guarded system (do configure paths (number 1); start_native system) (init endpoint p)).1
