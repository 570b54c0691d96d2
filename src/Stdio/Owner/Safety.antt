-- ===== src/Stdio/Owner/Safety.antt =====
-- NUL bytes on stdout, and the acknowledgement, in the states of stdio_owner.py.
use samgita.Prelude.{
  ℕ, ◌≡◌, refl, Bool, true, false, not, some, List, [], ◌∷◌, ◌++◌, take, has, Bool-cases, inl, inr,
  arith,
}
use samgita.Stdio.Bytes.{nul, NoNul, NoNul-append, NoNul-take, NoNul-drop}
use samgita.Stdio.Owner.Runs.{Ensures, Ensures-guard, run_induction}
use samgita.Stdio.Owner.{
  is_empty, Owner, Phase, watching, cleaned, finished, ReturnCode, Read, got, idle, failed, Write,
  accepts, broken, Event, input_round, input_stops, output_read, output_write, output_fails, signal,
  main_cleans, main_returns, input_reads, input_writes, output_reads, main_step, main_ends, step,
  run, start,
}

abbrev IsFinished : Phase → Type 0
IsFinished (finished status) = Unit
IsFinished _ = ⊥

abbrev pub Stdout : (acknowledged output_alive : Bool) → Phase → List ℕ → Type 0
Stdout false alive phase out = NoNul out
Stdout true alive phase out =
    (body : List ℕ) × (out ≡ body ++ nul ∷ []) × NoNul body × (alive ≡ false) × IsFinished phase

abbrev pub IsSafe : Owner → Type 0
IsSafe s = NoNul s.view × Stdout s.acknowledged s.output_alive s.phase s.out

-- The input thread touches nothing of the output.
abbrev SameOutput : Owner → Owner → Type 0
SameOutput s t =
    (t.view ≡ s.view)
    × (t.out ≡ s.out)
    × (t.acknowledged ≡ s.acknowledged)
    × (t.output_alive ≡ s.output_alive)
    × (t.phase ≡ s.phase)

input_writes-SameOutput :
    (offered : Bool) (w : Write) (s : Owner) → SameOutput s (input_writes offered w s)
unfolding input_writes
input_writes-SameOutput true (accepts n) s = (refl, refl, refl, refl, refl)
input_writes-SameOutput true broken s = (refl, refl, refl, refl, refl)
input_writes-SameOutput offered w s = (refl, refl, refl, refl, refl)

input_reads-SameOutput : (r : Read) (w : Write) (s : Owner) → SameOutput s (input_reads r w s)
unfolding input_reads
input_reads-SameOutput failed w s = (refl, refl, refl, refl, refl)
input_reads-SameOutput idle w s = input_writes-SameOutput _ w s
input_reads-SameOutput (got bytes) w s = ground (
  arith,
  input_writes-SameOutput (not (is_empty s.pending)) w
      (record s { pending = s.pending ++ bytes; received = s.received ++ bytes }),
)

SameOutput-IsSafe : (s t : Owner) → SameOutput s t → IsSafe s → IsSafe t
SameOutput-IsSafe s t same h = (rw (same.0) (h.0), rw (same.1, same.2, same.3, same.4) (h.1))

module _ (phase : Phase) (out : List ℕ) where
  Stdout-write :
      (acknowledged alive : Bool) (more : List ℕ)
      → alive ≡ true
      → NoNul more
      → Stdout acknowledged alive phase out
      → Stdout acknowledged alive phase (out ++ more)
  Stdout-write false alive more on clean h = NoNul-append out more h clean
  Stdout-write true alive more on clean h = let off = h.3 in cc

  Stdout-stop :
      (acknowledged alive : Bool)
      → Stdout acknowledged alive phase out
      → Stdout acknowledged false phase out
  Stdout-stop false alive h = h
  Stdout-stop true alive h = (h.0, h.1, h.2, refl, h.4)

  Stdout-main :
      (acknowledged alive : Bool) (next : Phase)
      → ¬ IsFinished phase
      → Stdout acknowledged alive phase out
      → Stdout acknowledged alive next out
  Stdout-main false alive next busy h = h
  Stdout-main true alive next busy h = absurd (busy h.4)

  Stdout-busy :
      (acknowledged alive : Bool)
      → ¬ IsFinished phase
      → Stdout acknowledged alive phase out
      → NoNul out
  Stdout-busy false alive busy h = h
  Stdout-busy true alive busy h = absurd (busy h.4)

output_write-IsSafe : (n : ℕ) (s : Owner) → IsSafe s → Ensures IsSafe (step (output_write n) s)
unfolding step
output_write-IsSafe n s h = Ensures-guard IsSafe _ _ λ may. (
  NoNul-drop n s.view h.0,
  Stdout-write s.phase s.out s.acknowledged s.output_alive (take n s.view) (ground arith)
      (NoNul-take n s.view h.0) h.1,
)

output_reads-IsSafe : (bytes : List ℕ) (s : Owner) → IsSafe s → IsSafe (output_reads bytes s)
unfolding output_reads
output_reads-IsSafe [] s h = (h.0, Stdout-stop s.phase s.out s.acknowledged s.output_alive h.1)
output_reads-IsSafe (b ∷ bs) s h = elim (Bool-cases (has nul (b ∷ bs))) [
  | inl bad ↦ rw bad (h.0, Stdout-stop s.phase s.out s.acknowledged s.output_alive h.1)
  | inr good ↦ rw good (good, h.1)
]

main_ends-IsSafe :
    (reaped drained : Bool) (code : ReturnCode) (s : Owner)
    → (drained ≡ true → s.output_alive ≡ false)
    → ¬ IsFinished s.phase
    → IsSafe s
    → IsSafe (main_ends reaped drained code s)
unfolding main_ends
main_ends-IsSafe true true code s off busy h = (
  h.0,
  (s.out, refl, Stdout-busy s.phase s.out s.acknowledged s.output_alive busy h.1, off refl, tt),
)
main_ends-IsSafe true false code s off busy h =
    (h.0, Stdout-main s.phase s.out s.acknowledged s.output_alive _ busy h.1)
main_ends-IsSafe false true code s off busy h =
    (h.0, Stdout-main s.phase s.out s.acknowledged s.output_alive _ busy h.1)
main_ends-IsSafe false false code s off busy h =
    (h.0, Stdout-main s.phase s.out s.acknowledged s.output_alive _ busy h.1)

main_step-IsSafe :
    (phase : Phase) (e : Event) (s : Owner)
    → s.phase ≡ phase
    → IsSafe s
    → Ensures IsSafe (main_step phase e s)
unfolding main_step
main_step-IsSafe watching (main_cleans exited d code) s p h =
    Ensures-guard IsSafe _ _
      λ may. (h.0, Stdout-main s.phase s.out s.acknowledged s.output_alive _ (rw p (λ x. x)) h.1)
main_step-IsSafe (cleaned d code) main_returns s p h =
    main_ends-IsSafe d (not s.output_alive) code s (λ e. ground arith) (rw p (λ x. x)) h
main_step-IsSafe phase e s p h = tt

step-IsSafe : (e : Event) (s : Owner) → IsSafe s → Ensures IsSafe (step e s)
unfolding step
step-IsSafe (input_round r w) s h =
    Ensures-guard IsSafe _ _
      λ may. SameOutput-IsSafe s (input_reads r w s) (input_reads-SameOutput r w s) h
step-IsSafe input_stops s h = Ensures-guard IsSafe _ _ λ may. h
step-IsSafe (output_read bytes) s h = Ensures-guard IsSafe _ _ λ may. output_reads-IsSafe bytes s h
step-IsSafe (output_write n) s h = output_write-IsSafe n s h
step-IsSafe output_fails s h =
    Ensures-guard IsSafe _ _
      λ may. (h.0, Stdout-stop s.phase s.out s.acknowledged s.output_alive h.1)
step-IsSafe signal s h = h
step-IsSafe e s h = main_step-IsSafe s.phase e s refl h

start-IsSafe : (subreaper identity spawned : Bool) → IsSafe (start subreaper identity spawned)
unfolding start
start-IsSafe true true true = (refl, refl)
start-IsSafe true true false = (refl, ([], refl, refl, refl, tt))
start-IsSafe true false spawned = (refl, ([], refl, refl, refl, tt))
start-IsSafe false identity spawned = (refl, ([], refl, refl, refl, tt))

-- After any interleaving of the threads, signals and child output: while the helper has not
-- acknowledged, no NUL byte has reached its stdout. Once it has, stdout is a text with no NUL and then
-- exactly one NUL, the output thread has ended and `main` has returned: nothing follows the mark.
pub acknowledge_is_last :
    (subreaper identity spawned : Bool) (events : List Event) (s : Owner)
    → run events (start subreaper identity spawned) ≡ some s
    → Stdout s.acknowledged s.output_alive s.phase s.out
acknowledge_is_last subreaper identity spawned events s e =
    (run_induction IsSafe step-IsSafe events (start subreaper identity spawned) s e
      (start-IsSafe subreaper identity spawned)).1
