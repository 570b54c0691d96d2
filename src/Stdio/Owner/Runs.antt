-- ===== src/Stdio/Owner/Runs.antt =====
-- How a property of every state is carried over the events of a run of stdio_owner.py.
use mathlib.Core.Path.{subst}
use samgita.Prelude.{
  ◌≡◌, refl, Bool, true, false, Option, none, some, List, [], ◌∷◌, if◌then◌else◌, Option-cases, inl,
  inr,
}
use samgita.Stdio.Owner.{Owner, Event, step, run}

-- A state that may not be there, and what holds of it.
abbrev pub Ensures : (Owner → Type 0) → Option Owner → Type 0
Ensures P none = Unit
Ensures P (some t) = P t

pub Ensures-guard :
    (P : Owner → Type 0) (b : Bool) (t : Owner)
    → (b ≡ true → P t)
    → Ensures P (if b then some t else none)
Ensures-guard P true t h = h refl
Ensures-guard P false t h = tt

run-Ensures :
    (P : Owner → Type 0)
    → ((e : Event) (s : Owner) → P s → Ensures P (step e s))
    → (events : List Event) (s : Owner) → P s
    → Ensures P (run events s)
unfolding run
run-Ensures P keep [] s h = h
run-Ensures P keep (e ∷ events) s h = elim (Option-cases (step e s)) [
  | inl stuck ↦ rw (stuck, Ensures) tt
  | inr (t, now) ↦
      rw (now, Ensures) (run-Ensures P keep events t (subst (Ensures P) now (keep e s h)))
]

-- What each event keeps holds in the state that a run ends in.
pub run_induction :
    (P : Owner → Type 0)
    → ((e : Event) (s : Owner) → P s → Ensures P (step e s))
    → (events : List Event) (s t : Owner) → run events s ≡ some t
    → P s
    → P t
run_induction P keep events s t e h = subst (Ensures P) e (run-Ensures P keep events s h)
