-- ===== src/CrashTail/Run/Signals.antt =====
-- How often the crash controller signals, whom, and which descriptors it leaves open.
use samgita.Prelude.{Result, ok, List, [], ◌∷◌, ◌++◌, ◌≡◌, ◌⊎◌, ◌≢◌, ℕ}
use samgita.Json.{Fields}
use samgita.CrashTail.Proc.{Failure}
use samgita.CrashTail.Spec.{World, Spec, read_spec}
use samgita.CrashTail.Run.{Log}
use samgita.CrashTail.Run.Ownership.{IsOwned}

abbrev pub Outcome : Type 0
Outcome = Result Failure (Unit {0}) × Log

-- No signal and no success, or one signal to the descriptor of a native process that is owned.
abbrev Signalled : World → Spec → Result Failure (Unit {0}) → List ℕ → Type 0
Signalled w s r signals =
    ((signals ≡ []) × (r ≢ ok tt))
    ⊎ ((fd : ℕ) × (helper_fd : ℕ) × (signals ≡ fd ∷ []) × IsOwned w s fd helper_fd)

-- Every descriptor that was opened since `before` is closed, in the reverse order.
abbrev Balanced : Log → Log → Type 0
Balanced before after =
    (fds : List ℕ) × (after.opened ≡ fds ++ before.opened) × (after.closed ≡ before.closed ++ fds)

abbrev Reports : World → Spec → Log → Outcome → Type 0
Reports w s before o = Signalled w s o.0 o.1.signals × Balanced before o.1

-- No signal and a failure, or one signal, to the descriptor of the owned native process; all are closed.
abbrev pub OneSignal : World → Fields → Outcome → Type 0
OneSignal w spec (r, log) =
    ((log.signals ≡ []) × (r ≢ ok tt)
      ⊎ ((s : Spec) × (fd : ℕ) × (helper_fd : ℕ) × (read_spec spec ≡ ok s)
          × (log.signals ≡ fd ∷ [])
          × IsOwned w s fd helper_fd))
    × (log.opened ≡ log.closed)
