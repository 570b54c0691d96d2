-- ===== src/Stdio/Examples.antt =====
-- Runs of the stdio owner on small inputs, and its theorems there.
use samgita.Prelude.{
  ℕ, zero, suc, ◌-◌, ◌≡◌, refl, Bool, true, false, some, List, [], ◌∷◌, arith, ◌≢◌,
}
use samgita.Stdio.Bytes.{nul}
use samgita.Stdio.Reaping.{
  Answer, no_children, reaped, running, reap_descendants, Emptied, reap_descendants-true,
  reap_descendants-total,
}
use samgita.Stdio.Group
use samgita.Stdio.Group.{
  Group, Round, Outcome, done, Cleaned, sigterm, sigkill, terminate_child_group,
  terminate_child_group-Cleaned, terminate_child_group-total,
}
use samgita.Stdio.Owner.{
  Owner, exited, finished, got, idle, closed, accepts, Event, input_round, input_stops, output_read,
  output_write, signal, main_cleans, main_returns, run, start,
}
use samgita.Stdio.Owner.Safety.{Stdout, acknowledge_is_last}
use samgita.Stdio.Owner.Forwarding.{Forwards, forwarding}

-- Two bytes go in and one of them reaches the child, one byte comes out, and the child exits with 3.
abbrev events : List Event
events =
    input_round (got (65 ∷ 66 ∷ [])) closed
    ∷ output_read (67 ∷ [])
    ∷ input_round idle (accepts 1)
    ∷ output_write 1
    ∷ signal
    ∷ output_read []
    ∷ main_cleans true true (exited 3)
    ∷ input_stops
    ∷ main_returns
    ∷ []

abbrev ended : Owner
ended = record {
  stopping = true;
  input_alive = false;
  pending = 66 ∷ [];
  received = 65 ∷ 66 ∷ [];
  forwarded = 65 ∷ [];
  refused = [];
  output_alive = false;
  view = [];
  out = 67 ∷ nul ∷ [];
  acknowledged = true;
  descendants_reaped = some true;
  returncode = some (exited 3);
  phase = finished 3;
}

run-events : run events (start true true true) ≡ some ended
unfolding run start
run-events = refl

acknowledge_is_last_example : Stdout true false (finished 3) (67 ∷ nul ∷ [])
acknowledge_is_last_example = acknowledge_is_last true true true events ended run-events

forwarding_example : Forwards ended
forwarding_example = forwarding events ended run-events

-- A child that holds stdout open past the join gives no acknowledgement, and the status 85.
held_open :
    run (signal ∷ main_cleans false true (exited 0) ∷ main_returns ∷ []) (start true true true)
    ≡ some (record {
      stopping = true;
      input_alive = true;
      pending = [];
      received = [];
      forwarded = [];
      refused = [];
      output_alive = true;
      view = [];
      out = [];
      acknowledged = false;
      descendants_reaped = some true;
      returncode = some (exited 0);
      phase = finished 85;
    })
unfolding run start
held_open = refl

abbrev group : Group
group = record { leader = Group.alive; signals = [] }

abbrev rounds : List Round
rounds = record { exited = false; now = 20 } ∷ record { exited = false; now = 130 } ∷ []

alive-ne-reaped : ◌≢◌ {A = Group.Leader} Group.alive Group.reaped
alive-ne-reaped h = cc

terminate_child_group-Cleaned_example :
    Cleaned [] (terminate_child_group true 25 rounds false false group)
terminate_child_group-Cleaned_example =
    terminate_child_group-Cleaned 25 rounds false false group alive-ne-reaped

terminate_child_group-total_example :
    (g : Group) × (terminate_child_group true 25 rounds false false group ≡ done g)
    × (g.leader ≡ Group.reaped)
terminate_child_group-total_example =
    terminate_child_group-total true 25 rounds false false group alive-ne-reaped refl

abbrev answers : List Answer
answers = running 5 ∷ reaped 42 ∷ running 6 ∷ no_children ∷ []

reap-answers : reap_descendants 4 answers ≡ some true
unfolding reap_descendants
reap-answers = refl

reap_descendants-true_example :
    (reap_descendants 4 answers ≡ some true → Emptied 104 answers)
    × (Emptied 104 answers → reap_descendants 4 answers ≡ some true)
reap_descendants-true_example = reap_descendants-true 4 answers

-- A descendant that never exits.
abbrev stubborn : ℕ → List Answer
stubborn n = elim n [ zero ↦ [] | suc (m → rest) ↦ running (1000 - m) ∷ rest ]

reap_descendants-total_example : (b : Bool) × (reap_descendants 899 (stubborn 102) ≡ some b)
reap_descendants-total_example =
    reap_descendants-total 899 (stubborn 102) (omega arith) (omega arith)
