-- ===== src/Stdio/Owner/Status.antt =====
-- The exit status of stdio_owner.py, and the acknowledgement behind it.
use samgita.Prelude.{Option, ◌&&◌, ℕ, ◌≡◌, ◌⊎◌, Bool, true, false, some}
use samgita.Stdio.Owner.{exit_status, Owner, Phase, watching, cleaned, finished, ReturnCode}

-- The status that main returns, by what it has found.
abbrev pub status_for : (descendants_reaped output_drained : Bool) → ReturnCode → ℕ
status_for true true code = exit_status code
status_for true false code = 85
status_for false true code = 84
status_for false false code = 86

-- What a main that has returned had found: whether the descendants were reaped, whether the output was
-- drained, which then has ended its thread, and the child's return code.
abbrev pub Found : ℕ → (acknowledged output_alive : Bool) → Option Bool → Option ReturnCode → Type 0
Found status acknowledged output_alive descendants returncode =
    (reaped : Bool) × (drained : Bool) × (code : ReturnCode) × (descendants ≡ some reaped)
    × (returncode ≡ some code)
    × (drained ≡ true → output_alive ≡ false)
    × (status ≡ status_for reaped drained code)
    × (acknowledged ≡ (reaped && drained))

-- In each phase: when the other threads have been told to stop, and what the status says.
abbrev Reports :
    Phase → (acknowledged stopping output_alive : Bool) → Option Bool → Option ReturnCode → Type 0
Reports watching acknowledged stopping alive d c = acknowledged ≡ false
Reports (cleaned reaped code) acknowledged stopping alive d c =
    (acknowledged ≡ false) × (stopping ≡ true) × (d ≡ some reaped) × (c ≡ some code)
Reports (finished status) acknowledged stopping alive d c =
    (stopping ≡ true) × Found status acknowledged alive d c

abbrev IsReporting : Owner → Type 0
IsReporting s =
    Reports s.phase s.acknowledged s.stopping s.output_alive s.descendants_reaped s.returncode

-- Only the main thread changes the phase; the others at most ask it to stop, or end.
abbrev Asks : Owner → Owner → Type 0
Asks s t =
    (t.phase ≡ s.phase)
    × (t.acknowledged ≡ s.acknowledged)
    × (t.descendants_reaped ≡ s.descendants_reaped)
    × (t.returncode ≡ s.returncode)
    × ((t.stopping ≡ s.stopping) ⊎ (t.stopping ≡ true))
    × ((t.output_alive ≡ s.output_alive) ⊎ (t.output_alive ≡ false))
