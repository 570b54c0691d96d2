-- ===== src/Stdio/Owner.antt =====
-- `main` of stdio_owner.py with its threads, as a function of events: one step of `copy_input`, of
-- `copy_output`, of the main thread, or a signal. A list of events is an interleaving.
pub mod Runs
pub mod Safety
pub mod Forwarding
pub mod Status
use samgita.Prelude.{
  ℕ, ◌+◌, Bool, true, false, Option, none, some, List, [], ◌∷◌, ◌++◌, ◌&&◌, ◌||◌, not, ltb, leb,
  min, length, take, drop, has, if◌then◌else◌,
}
use samgita.Stdio.Bytes.{nul}

-- `child.returncode`: an exit status, or minus a signal's number.
pub data ReturnCode : Type 0 where
  exited : ℕ → ReturnCode
  killed : ℕ → ReturnCode

pub data Phase : Type 0 where
  watching : Phase
  cleaned : (descendants_reaped : Bool) → ReturnCode → Phase
  finished : (status : ℕ) → Phase

pub record Owner : Type 0 where
  pub stopping : Bool
  -- `copy_input`: is its thread alive, what is pending, all that it read, what the child got, and a chunk
  -- that it read and did not take since it holds NUL.
  pub input_alive : Bool
  pub pending : List ℕ
  pub received : List ℕ
  pub forwarded : List ℕ
  pub refused : List ℕ
  -- `copy_output`: is its thread alive, the rest of `view`, and what stdout got.
  pub output_alive : Bool
  pub view : List ℕ
  pub out : List ℕ
  pub acknowledged : Bool
  -- Of `main`, once it has cleaned: descendants_reaped and child.returncode.
  pub descendants_reaped : Option Bool
  pub returncode : Option ReturnCode
  pub phase : Phase

-- What `select` and `os.read` give a round of `copy_input`; `failed` is OSError or ValueError.
pub data Read : Type 0 where
  idle : Read
  got : List ℕ → Read
  failed : Read

-- Whether the child's stdin is writable, and how much a write accepts at most.
pub data Write : Type 0 where
  closed : Write
  accepts : ℕ → Write
  would_block : Write
  broken : Write

pub data Event : Type 0 where
  input_round : Read → Write → Event
  input_stops : Event
  output_read : List ℕ → Event
  output_write : ℕ → Event
  output_fails : Event
  signal : Event
  main_cleans : (child_exited descendants_reaped : Bool) → ReturnCode → Event
  main_returns : Event

-- acknowledge_cleanup
acknowledge : Owner → Owner
acknowledge s = record s { out = s.out ++ nul ∷ []; acknowledged = true }

abbrev pub is_empty : List ℕ → Bool
is_empty [] = true
is_empty (b ∷ bs) = false

abbrev pub max_pending : ℕ
max_pending = 16_777_216

abbrev pub chunk : ℕ
chunk = 65536

-- The `finally` of `copy_input`.
end_input : Owner → Owner
end_input s = record s { input_alive = false; stopping = true }

-- The destination is offered to `select` only if something was pending before the read.
input_writes : (offered : Bool) → Write → Owner → Owner
unfolding end_input
input_writes true (accepts n) s =
    let count = min n (min chunk (length s.pending)) in
    record s { pending = drop count s.pending; forwarded = s.forwarded ++ take count s.pending }
input_writes true broken s = end_input s
input_writes _ _ s = s

input_reads : Read → Write → Owner → Owner
unfolding end_input input_writes
input_reads failed w s = end_input s
input_reads idle w s = input_writes (not (is_empty s.pending)) w s
input_reads (got bytes) w s =
    if is_empty bytes
    then end_input s
    else if has nul bytes
    then end_input (record s { received = s.received ++ bytes; refused = bytes })
    else (let offered = not (is_empty s.pending) in
        let s' = record s { pending = s.pending ++ bytes; received = s.received ++ bytes } in
        if ltb max_pending (length s'.pending) then end_input s' else input_writes offered w s')

-- A read of `copy_output`: end of file, a chunk that holds NUL, or a chunk to write.
output_reads : List ℕ → Owner → Owner
output_reads bytes s =
    if is_empty bytes
    then record s { output_alive = false }
    else if has nul bytes
    then record s { output_alive = false; stopping = true }
    else record s { view = bytes }

unfoldable pub exit_status : ReturnCode → ℕ
exit_status (exited code) = code
exit_status (killed number) = 128 + number

-- The end of the `finally` block of `main`, and its return statements.
main_ends : (descendants_reaped output_drained : Bool) → ReturnCode → Owner → Owner
unfolding acknowledge exit_status
main_ends true true code s = record (acknowledge s) { phase = finished (exit_status code) }
main_ends true false code s = record s { phase = finished 85 }
main_ends false true code s = record s { phase = finished 84 }
main_ends false false code s = record s { phase = finished 86 }

main_step : Phase → Event → Owner → Option Owner
unfolding main_ends
main_step watching (main_cleans child_exited descendants_reaped code) s =
    if child_exited || s.stopping
    then some (record s {
      stopping = true;
      descendants_reaped = some descendants_reaped;
      returncode = some code;
      phase = cleaned descendants_reaped code;
    })
    else none
main_step (cleaned descendants_reaped code) main_returns s =
    some (main_ends descendants_reaped (not s.output_alive) code s)
main_step _ _ s = none

-- `none`: the event cannot happen in this state.
unfoldable pub step : Event → Owner → Option Owner
unfolding input_reads end_input output_reads main_step
step (input_round r w) s =
    if s.input_alive && not s.stopping then some (input_reads r w s) else none
step input_stops s = if s.input_alive && s.stopping then some (end_input s) else none
step (output_read bytes) s =
    if s.output_alive && is_empty s.view then some (output_reads bytes s) else none
step (output_write n) s =
    if s.output_alive && not (is_empty s.view) && leb n (length s.view)
    then some (record s { view = drop n s.view; out = s.out ++ take n s.view })
    else none
step output_fails s =
    if s.output_alive then some (record s { output_alive = false; stopping = true }) else none
step signal s = some (record s { stopping = true })
step event s = main_step s.phase event s

unfoldable pub run : List Event → Owner → Option Owner
unfolding step
run [] s = some s
run (event ∷ events) s = elim (step event s) [ none ↦ none | some s' ↦ run events s' ]

-- The start of `main`: without the subreaper, the identity of the group or the child, it
-- acknowledges and returns 127.
unfoldable pub start : (subreaper identity spawned : Bool) → Owner
unfolding acknowledge
start subreaper identity spawned =
    let fresh : Owner = record {
      stopping = false;
      input_alive = true;
      pending = [];
      received = [];
      forwarded = [];
      refused = [];
      output_alive = true;
      view = [];
      out = [];
      acknowledged = false;
      descendants_reaped = none;
      returncode = none;
      phase = watching;
    } in
    if subreaper && identity && spawned
    then fresh
    else acknowledge
        (record fresh { input_alive = false; output_alive = false; phase = finished 127 })
