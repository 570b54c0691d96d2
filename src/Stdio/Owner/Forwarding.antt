-- ===== src/Stdio/Owner/Forwarding.antt =====
-- What `copy_input` of stdio_owner.py forwards to the child.
use samgita.Prelude.{
  ◌⊎◌, inl, inr, append-nil, ℕ, ◌≤◌, ◌≡◌, refl, sym, ap, Bool, true, false, some, List, [], ◌∷◌,
  ◌++◌, ◌∙◌, ltb, min, take, drop, length, has, take-append-drop, length-drop, if◌then◌else◌,
  append_assoc, arith,
}
use samgita.Stdio.Bytes.{nul, NoNul, NoNul-append}
use samgita.Stdio.Owner.Runs.{Ensures, Ensures-guard, run_induction}
use samgita.Stdio.Owner.{
  end_input, Owner, Phase, watching, cleaned, Read, got, idle, failed, Write, accepts, broken,
  chunk, Event, input_round, input_stops, output_read, output_write, output_fails, signal,
  main_cleans, main_returns, input_reads, input_writes, output_reads, main_step, main_ends, step,
  run, start, ReturnCode, max_pending,
}

-- What was read is what was forwarded, then what is pending, then a chunk that was refused; what was
-- forwarded or is pending has no NUL, and a refused chunk has one; while the thread lives, nothing was
-- refused and at most `max_pending` bytes are pending.
abbrev pub Forwards : Owner → Type 0
Forwards s =
    (s.received ≡ (s.forwarded ++ s.pending) ++ s.refused)
    × NoNul (s.forwarded ++ s.pending)
    × ((s.refused ≡ []) ⊎ (has nul s.refused ≡ true))
    × (s.input_alive ≡ true → (s.refused ≡ []) × (length s.pending ≤ max_pending))

end_input-Forwards :
    (s : Owner)
    → s.received ≡ (s.forwarded ++ s.pending) ++ s.refused
    → NoNul (s.forwarded ++ s.pending)
    → (s.refused ≡ []) ⊎ (has nul s.refused ≡ true)
    → Forwards (end_input s)
unfolding end_input
end_input-Forwards s order clean refused = (order, clean, refused, λ alive. absurd (cc))

input_writes-Forwards :
    (offered : Bool) (w : Write) (s : Owner) → Forwards s → Forwards (input_writes offered w s)
unfolding input_writes
input_writes-Forwards true (accepts n) s h =
    let count = min n (min chunk (length s.pending)) in
    let same : (s.forwarded ++ take count s.pending) ++ drop count s.pending
        ≡ s.forwarded ++ s.pending =
      append_assoc s.forwarded (take count s.pending) (drop count s.pending)
      ∙ ap (λ rest. s.forwarded ++ rest) (take-append-drop count s.pending) in
    (
      h.0 ∙ ap (λ taken. taken ++ s.refused) (sym same),
      ap (has nul) same ∙ h.1,
      h.2,
      λ alive. ((h.3 alive).0, omega (arith, length-drop count s.pending, (h.3 alive).1)),
    )
input_writes-Forwards true broken s h = end_input-Forwards s h.0 h.1 h.2
input_writes-Forwards offered w s h = h

Forwards-if :
    (b : Bool) (s t : Owner)
    → (b ≡ true → Forwards s)
    → (b ≡ false → Forwards t)
    → Forwards (if b then s else t)
Forwards-if true s t h k = h refl
Forwards-if false s t h k = k refl

-- While the thread lives, all that was read was taken.
all_taken : (s : Owner) → Forwards s → s.refused ≡ [] → s.received ≡ s.forwarded ++ s.pending
all_taken s h none_refused =
    h.0
    ∙ ap (λ rest. (s.forwarded ++ s.pending) ++ rest) none_refused
    ∙ append-nil (s.forwarded ++ s.pending)

-- A chunk is appended on both sides.
accepts-chunk :
    (bytes : List ℕ) (s : Owner)
    → Forwards s
    → s.refused ≡ []
    → s.received ++ bytes ≡ (s.forwarded ++ (s.pending ++ bytes)) ++ s.refused
accepts-chunk bytes s h none_refused =
    ap (λ l. l ++ bytes) (all_taken s h none_refused)
    ∙ append_assoc s.forwarded s.pending bytes
    ∙ sym (append-nil (s.forwarded ++ (s.pending ++ bytes)))
    ∙ ap (λ rest. (s.forwarded ++ (s.pending ++ bytes)) ++ rest) (sym none_refused)

chunk-NoNul :
    (bytes : List ℕ) (s : Owner)
    → Forwards s
    → NoNul bytes
    → NoNul (s.forwarded ++ (s.pending ++ bytes))
chunk-NoNul bytes s h clean =
    ap (has nul) (sym (append_assoc s.forwarded s.pending bytes))
    ∙ NoNul-append (s.forwarded ++ s.pending) bytes h.1 clean

input_reads-Forwards :
    (r : Read) (w : Write) (s : Owner)
    → s.input_alive ≡ true
    → Forwards s
    → Forwards (input_reads r w s)
unfolding input_reads
input_reads-Forwards failed w s alive h = end_input-Forwards s h.0 h.1 h.2
input_reads-Forwards idle w s alive h = input_writes-Forwards _ w s h
input_reads-Forwards (got []) w s alive h = end_input-Forwards s h.0 h.1 h.2
input_reads-Forwards (got (b ∷ bs)) w s alive h =
    let t = record s { pending = s.pending ++ b ∷ bs; received = s.received ++ b ∷ bs } in
    let bad_state = record s { received = s.received ++ b ∷ bs; refused = b ∷ bs } in
    let none_refused = (h.3 alive).0 in
    let order = accepts-chunk (b ∷ bs) s h none_refused in
    Forwards-if (has nul (b ∷ bs)) _ _
      (λ bad.
        end_input-Forwards bad_state (ap (λ l. l ++ b ∷ bs) (all_taken s h none_refused)) h.1
          (inr bad))
      λ clean.
        let taken = chunk-NoNul (b ∷ bs) s h clean in
        Forwards-if (ltb max_pending (length t.pending)) _ _
          (λ over. end_input-Forwards t order taken h.2)
          λ fits.
            input_writes-Forwards _ w t (order, taken, h.2, λ on. (none_refused, ground arith))

output_reads-Forwards : (bytes : List ℕ) (s : Owner) → Forwards s → Forwards (output_reads bytes s)
unfolding output_reads
output_reads-Forwards [] s h = h
output_reads-Forwards (b ∷ bs) s h = Forwards-if (has nul (b ∷ bs)) _ _ (λ _. h) (λ _. h)

main_ends-Forwards :
    (reaped drained : Bool) (code : ReturnCode) (s : Owner)
    → Forwards s
    → Forwards (main_ends reaped drained code s)
unfolding main_ends
main_ends-Forwards true true code s h = h
main_ends-Forwards true false code s h = h
main_ends-Forwards false true code s h = h
main_ends-Forwards false false code s h = h

main_step-Forwards :
    (phase : Phase) (e : Event) (s : Owner) → Forwards s → Ensures Forwards (main_step phase e s)
unfolding main_step
main_step-Forwards watching (main_cleans exited d code) s h = Ensures-guard Forwards _ _ λ may. h
main_step-Forwards (cleaned d code) main_returns s h = main_ends-Forwards d _ code s h
main_step-Forwards phase e s h = tt

step-Forwards : (e : Event) (s : Owner) → Forwards s → Ensures Forwards (step e s)
unfolding step
step-Forwards (input_round r w) s h =
    Ensures-guard Forwards _ _ λ may. input_reads-Forwards r w s (ground (arith, may)) h
step-Forwards input_stops s h = Ensures-guard Forwards _ _ λ may. end_input-Forwards s h.0 h.1 h.2
step-Forwards (output_read bytes) s h =
    Ensures-guard Forwards _ _ λ may. output_reads-Forwards bytes s h
step-Forwards (output_write n) s h = Ensures-guard Forwards _ _ λ may. h
step-Forwards output_fails s h = Ensures-guard Forwards _ _ λ may. h
step-Forwards signal s h = h
step-Forwards e s h = main_step-Forwards s.phase e s h

-- After any interleaving, all that was read from stdin is what the child got, followed by what is pending
-- and by a chunk that was refused, if one was. What the child got and what is pending has no NUL; a refused
-- chunk has one, and the thread has ended; while it lives, the buffer stays within its bound.
pub forwarding :
    (events : List Event) (s : Owner) → run events (start true true true) ≡ some s → Forwards s
forwarding events s e =
    run_induction Forwards step-Forwards events (start true true true) s e
      (unfold start in (refl, refl, inl refl, λ alive. (refl, omega arith)))
