-- ===== src/CrashTail/Run.antt =====
-- `run` of the crash controller, on a world of processes that may change between any two reads.
pub mod Ownership
pub mod Signals
use samgita.Prelude.{
  ℕ, not, none, some, if◌then◌else◌, Result, ok, raise, ◌>>◌, List, [], ◌∷◌, ◌++◌,
}
use samgita.Json.{Fields}
use samgita.CrashTail.Proc.{Failure, runtime_error, os_error, require}
use samgita.CrashTail.Spec.{World, Spec, read_spec, preconditions}
use samgita.CrashTail.Checks.{validate}

-- The descriptors that the controller opened and closed, and those that it signalled.
pub record Log : Type 0 where
  pub signals : List ℕ
  pub opened : List ℕ
  pub closed : List ℕ

abbrev pub quiet : Log
quiet = record { signals = []; opened = []; closed = [] }

-- try: … finally: os.close(fd), around a body that has the descriptor of a process.
with_pidfd :
    World → ℕ → (ℕ → Log → Result Failure (Unit {0}) × Log) → Log → Result Failure (Unit {0}) × Log
with_pidfd w pid body log = elim (w.pidfd_open pid) [
  | none ↦ (raise os_error, log)
  | some fd ↦
      (let (r, after) = body fd (record log { opened = fd ∷ log.opened }) in
        (r, record after { closed = after.closed ++ fd ∷ [] }))
]

-- After the signal: both processes exit within five seconds, and the helper has reaped the native.
after_signal : World → Spec → (fd helper_fd : ℕ) → Result Failure (Unit {0})
after_signal w s fd helper_fd = do
  require (w.exits fd) "Owned native exit deadline"
  require (w.exits helper_fd) "Owned helper exit deadline"
  require (not (w.has_proc s.native_pid)) "Owned helper did not reap native"

-- signal.pidfd_send_signal raises ProcessLookupError, an OSError, for a process that is gone.
send_sigkill : World → Spec → (fd helper_fd : ℕ) → Log → Result Failure (Unit {0}) × Log
unfolding after_signal
send_sigkill w s fd helper_fd log =
    if w.sends fd
    then (after_signal w s fd helper_fd, record log { signals = fd ∷ log.signals })
    else (raise os_error, log)

checked_kill : World → Spec → (fd helper_fd : ℕ) → Log → Result Failure (Unit {0}) × Log
unfolding send_sigkill
checked_kill w s fd helper_fd log = elim (validate w s fd helper_fd) [
  | raise e ↦ (raise e, log)
  | ok u ↦ send_sigkill w s fd helper_fd log
]

unfoldable pub kill_owned : World → Spec → Log → Result Failure (Unit {0}) × Log
unfolding with_pidfd checked_kill
kill_owned w s log = elim (preconditions w s) [
  | raise e ↦ (raise e, log)
  | ok u ↦
      with_pidfd w s.native_pid
        (λ fd. with_pidfd w s.helper_pid (λ helper_fd. checked_kill w s fd helper_fd)) log
]

-- The returned dict repeats the spec, so only its existence is modelled.
unfoldable pub run : World → Fields → Log → Result Failure (Unit {0}) × Log
unfolding kill_owned
run w spec log =
    if not w.has_pidfds
    then (raise (runtime_error "BLOCKED_ENV: Linux Python pidfd primitives required"), log)
    else elim (read_spec spec) [ raise e ↦ (raise e, log) | ok s ↦ kill_owned w s log ]
