-- ===== src/Mcp/Native.antt =====
-- The native process and the end of the fixture: `start_native`, `stop_native` and `close`.
use samgita.Prelude.{
  ℕ, Bool, true, false, Option, none, some, String, List, [], ◌∷◌, ◌++◌, not, ◌&&◌, ◌||◌,
  if◌then◌else◌,
}
use samgita.Json.{number}
use samgita.Actions.{Outcome, timeout_expired, pure, fail, gets, modify, assert, ◌>>=◌, ◌>>◌}
use samgita.Mcp.Fixture.{Fixture, Call, Stream, note}
use samgita.Mcp.Streams.{set_cancelled}

-- What the system does during an operation: the pid of a new native process and whether its socket
-- appears in time, whether the old one ends, the answer to a callback, whether the callback port accepts,
-- the rows (state, port) of /proc/net, and whether the server thread ends.
pub record System : Type 0 where
  pub pid : ℕ
  pub comes_up : Bool
  pub ends : Bool
  pub answer : Outcome ℕ
  pub accepts : Bool
  pub sockets : List (String × ℕ)
  pub thread_ends : Bool

unfoldable pub start_native : System → Call Unit
start_native system = do
  modify
      (λ s. record s { native = some system.pid; native_pids = s.native_pids ++ system.pid ∷ [] })
  assert system.comes_up
  note "native_started" (("pid", number system.pid) ∷ [])

unfoldable pub stop_process : System → Option ℕ → Call Unit
stop_process system none = pure tt
stop_process system (some pid) =
    if system.ends
    then (do
      note "native_stopped" (("pid", number pid) ∷ [])
      modify (λ s. record s { native = none }))
    else fail timeout_expired

unfoldable pub stop_native : System → Call Unit
unfolding stop_process
stop_native system = do native ← gets (λ s. s.native); stop_process system native

unfoldable pub begin_closing : Fixture → Fixture
begin_closing s = record s {
  closing = true;
  initialize_release = true;
  apps_initialize_release = true;
}

unfoldable pub cancel_all : List Stream → List Stream
unfolding set_cancelled
cancel_all [] = []
cancel_all (s ∷ streams) = set_cancelled s ∷ cancel_all streams

-- Whether a handler thread is left, which `server_close` waits for.
unfoldable pub is_open : List Stream → Bool
is_open [] = false
is_open (s ∷ streams) = s.served && not s.closed || is_open streams

-- `close` up to the calls that wait for the threads of the server.
unfoldable pub start_close : System → Call Unit
unfolding cancel_all
start_close system = do
  closed ← gets (λ s. s.closed)
  if closed then pure tt else do
    modify begin_closing
    stop_native system
    modify (λ s. record s { streams = cancel_all s.streams })

-- The journal row of the end, and self.closed = True
unfoldable pub closes : Call Unit
closes = do note "fixture_closed" []; modify (λ s. record s { closed = true })

-- The rest of `close`, once `server_close` has returned.
unfoldable pub end_close : System → Call Unit
unfolding closes
end_close system = do
  closed ← gets (λ s. s.closed)
  if closed then pure tt else do assert system.thread_ends; closes
