-- ===== src/Stdio/Reaping.antt =====
-- `reap_descendants` of stdio_owner.py. What the system answers comes as a list, one entry for each
-- round of the loop; `none` means that the answers end before the loop does.
use samgita.Prelude.{
  ℕ, suc, ◌+◌, ◌≤◌, ◌<◌, ◌≡◌, refl, Bool, true, false, Option, none, some, List, [], ◌∷◌, ◌↔◌, leb,
  if◌then◌else◌, Bool-cases, inl, inr, arith,
}

-- os.waitpid(-1, os.WNOHANG): ChildProcessError, a reaped process, or pid 0, with the time that
-- time.monotonic() gives then, in hundredths of a second.
pub data Answer : Type 0 where
  no_children : Answer
  reaped : (pid : ℕ) → Answer
  running : (now : ℕ) → Answer

reap_until : ℕ → List Answer → Option Bool
reap_until deadline [] = none
reap_until deadline (no_children ∷ rest) = some true
reap_until deadline (reaped pid ∷ rest) = reap_until deadline rest
reap_until deadline (running now ∷ rest) =
    let again = reap_until deadline rest in if leb deadline now then some false else again

-- `start` is the clock when the call begins; the deadline is one second later.
unfoldable pub reap_descendants : ℕ → List Answer → Option Bool
unfolding reap_until
reap_descendants start answers = reap_until (start + 100) answers

-- The answers end in ChildProcessError, and no earlier one was a live process at the deadline.
pub data Emptied (deadline : ℕ) : List Answer → Type 0 where
  now_empty : (rest : List Answer) → Emptied deadline (no_children ∷ rest)
  after_child :
      (pid : ℕ) (rest : List Answer) → Emptied deadline rest → Emptied deadline (reaped pid ∷ rest)
  after_wait :
      (now : ℕ) (rest : List Answer)
      → now < deadline
      → Emptied deadline rest
      → Emptied deadline (running now ∷ rest)

reap_until→Emptied :
    (deadline : ℕ) (answers : List Answer)
    → reap_until deadline answers ≡ some true
    → Emptied deadline answers
unfolding reap_until
reap_until→Emptied deadline [] h = ground arith
reap_until→Emptied deadline (no_children ∷ rest) h = now_empty rest
reap_until→Emptied deadline (reaped pid ∷ rest) h =
    after_child pid rest (reap_until→Emptied deadline rest h)
reap_until→Emptied deadline (running now ∷ rest) h = elim (Bool-cases (leb deadline now)) [
  | inl late ↦ ground arith
  | inr early ↦ after_wait now rest (ground arith) (reap_until→Emptied deadline rest (ground arith))
]

Emptied→reap_until :
    (deadline : ℕ) (answers : List Answer)
    → Emptied deadline answers
    → reap_until deadline answers ≡ some true
unfolding reap_until
Emptied→reap_until deadline _ (now_empty rest) = refl
Emptied→reap_until deadline _ (after_child pid rest e) = Emptied→reap_until deadline rest e
Emptied→reap_until deadline _ (after_wait now rest early e) =
    ground (arith, Emptied→reap_until deadline rest e)

-- The call returns True exactly when the system reports that no child is left before it reports a
-- live one at or past the deadline, one second after the start.
pub reap_descendants-true :
    (start : ℕ) (answers : List Answer)
    → (reap_descendants start answers ≡ some true) ↔ Emptied (start + 100) answers
unfolding reap_descendants
reap_descendants-true start answers =
    (reap_until→Emptied (start + 100) answers, Emptied→reap_until (start + 100) answers)

-- Each round that finds a live process sleeps for a hundredth of a second.
abbrev pub Paced : ℕ → List Answer → Type 0
Paced clock [] = Unit
Paced clock (running now ∷ rest) = (clock ≤ now) × Paced (now + 1) rest
Paced clock (_ ∷ rest) = Paced clock rest

abbrev pub waits : List Answer → ℕ
waits [] = 0
waits (running now ∷ rest) = suc (waits rest)
waits (_ ∷ rest) = waits rest

reap_until-total :
    (deadline clock : ℕ) (answers : List Answer)
    → Paced clock answers
    → clock ≤ deadline
    → deadline < clock + waits answers
    → (b : Bool) × (reap_until deadline answers ≡ some b)
unfolding reap_until
reap_until-total deadline clock [] p c h = absurd (omega arith)
reap_until-total deadline clock (no_children ∷ rest) p c h = (true, refl)
reap_until-total deadline clock (reaped pid ∷ rest) p c h =
    reap_until-total deadline clock rest p c h
reap_until-total deadline clock (running now ∷ rest) p c h = elim (Bool-cases (leb deadline now)) [
  | inl late ↦ (false, ground arith)
  | inr early ↦
      let before : now + 1 ≤ deadline = ground arith in
      let (b, e) = reap_until-total deadline (now + 1) rest p.1 before (omega (arith, p.0)) in
      (b, ground arith)
]

-- The loop ends: with a clock that moves on by each sleep, 101 rounds that find a live process are
-- enough for a result, however many processes are reaped between them.
pub reap_descendants-total :
    (start : ℕ) (answers : List Answer)
    → Paced start answers
    → 100 < waits answers
    → (b : Bool) × (reap_descendants start answers ≡ some b)
unfolding reap_descendants
reap_descendants-total start answers p h =
    reap_until-total (start + 100) start answers p (omega arith) (omega arith)
