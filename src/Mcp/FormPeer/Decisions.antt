-- ===== src/Mcp/FormPeer/Decisions.antt =====
-- The forms that the peer sends, and the decisions that it observes.
use samgita.Prelude.{
  ℕ, ◌+◌, ◌≤◌, ◌≡◌, refl, ap, Bool, true, false, String, List, [], ◌∷◌, ◌++◌, not, ◌&&◌, ◌==◌,
  arith, Text,
}
use samgita.Json.{Value, boolean, number, text, get, get_in, is_null}
use samgita.Json.Build.{object}
use samgita.Json.Equality.{equal}
use samgita.Actions.{Outcome, ok, raise, lift, assert, modify, ◌>>=◌, ◌>>◌}
use samgita.Actions.Maintains.{Maintains, bind-Maintains, maintains}
use samgita.Actions.Safe.{Safe, Safe-assert, Safe-gets, Maintains-Safe}
use samgita.Mcp.Http.{Python}
use samgita.Mcp.FormPeer.Printed.{Mirrors, form_peer-Mirrors}
use samgita.Mcp.FormPeer.{
  Peer, Call, append, note, send, result, form, initialize, asks, call, called, decides, decision,
  dispatch, read, loop, form_peer, idle, row_out, assert_at,
}

abbrev pub one_if : Bool → ℕ
one_if true = 1
one_if false = 0

-- A row that tells of a form that was sent.
unfoldable pub is_form : Value → Bool
is_form row =
    equal (get_in "direction" row) (text "out")
    && equal (get_in "method" (get_in "message" row)) (text "openai/form")

-- A row that tells of a decision.
unfoldable pub is_decision : Value → Bool
is_decision row = equal (get_in "decision_observed" row) (text "accept")

unfoldable pub count : (Value → Bool) → List Value → ℕ
count p [] = 0
count p (row ∷ rows) = one_if (p row) + count p rows

count-snoc :
    (p : Value → Bool) (rows : List Value) (row : Value)
    → count p (rows ++ row ∷ []) ≡ count p rows + one_if (p row)
unfolding count
count-snoc p [] row = omega arith
count-snoc p (r ∷ rows) row = omega (arith, count-snoc p rows row)

-- One form at most, sent by the first call; a decision for each form at most, and a call that waits for
-- its decision has none yet.
abbrev pub InTurn : Peer → Type 0
InTurn s =
    (count is_form s.rows ≤ s.calls)
    × (count is_form s.rows ≤ 1)
    × (count is_decision s.rows + one_if (not (is_null s.pending)) ≤ count is_form s.rows)

note-InTurn :
    (row : List (String × Value))
    → is_form (object row) ≡ false
    → is_decision (object row) ≡ false
    → Maintains InTurn (note row)
unfolding note modify append
note-InTurn row form decision = record {
  at = λ s h.
      rw (count-snoc, count-snoc is_decision, form, decision)
        (omega (arith, h.0), omega (arith, h.1), omega (arith, h.2));
}

sends-InTurn :
    (messages : List Value)
    → Maintains InTurn (modify (λ s. record s { sent = s.sent ++ messages }))
unfolding modify
sends-InTurn messages = record { at = λ s h. h }

result-InTurn : (identity v : Value) → Maintains InTurn (result identity v)
unfolding result send is_form is_decision get get_in equal
result-InTurn identity v =
    bind-Maintains _ _
      (note-InTurn (row_out (("id", identity) ∷ ("result", v) ∷ []))
        (unfold is_form get_in get equal in refl) (unfold is_decision get_in get equal in refl))
      (λ _. sends-InTurn _)

-- A check of a message does not change the state.
module _ {P : Peer → Type 0} {s : Peer} where
  Safe-checked :
      (r : Outcome Value) (b : Value → Bool) (k : Call Unit)
      → Safe P s k
      → Safe P s ((lift r >>= λ v. assert (b v)) >>= λ _. k)
  unfolding ◌>>=◌ lift
  Safe-checked (raise e) b k h = record { at = λ p. p }
  Safe-checked (ok v) b k h = Safe-assert (b v) k (λ _. h)

is_one : (b : Bool) → one_if b ≤ 1
is_one true = omega arith
is_one false = omega arith

asks-Safe :
    (identity : Value) (s : Peer)
    → count is_form s.rows + 1 ≤ s.calls
    → (s.calls == 1 && is_null s.pending) ≡ true
    → Safe InTurn s (asks identity)
unfolding asks send note append modify ◌>>=◌
asks-Safe identity s fresh checked =
    let row : Value = object (row_out form) in
    let at_form : is_form row ≡ true = unfold is_form form get_in get equal in refl in
    let at_decision : is_decision row ≡ false = unfold is_decision form get_in get equal in refl in
    let first : s.calls ≡ 1 = ground arith in
    let free : is_null s.pending ≡ true = ground arith in
    record {
      at = λ h.
          let waiting : count is_decision s.rows ≤ count is_form s.rows = omega (arith, h.2) in
          rw (count-snoc, count-snoc is_decision, at_form, at_decision)
            (
              omega (arith, fresh),
              omega (arith, fresh, first),
              omega (arith, waiting, is_one (not (is_null identity))),
            );
    }

call-InTurn : (message identity : Value) → Maintains InTurn (call message identity)
unfolding call
call-InTurn message identity = record {
  at = λ s h.
      let t = record s { calls = s.calls + 1 } in
      let asked : Safe InTurn t (called message identity) =
        unfold called assert_at in
        Safe-gets _ _ (
          Safe-assert _ _ λ checked.
            Safe-checked _ _ _
              (Safe-checked _ _ _ (asks-Safe identity t (omega (arith, h.0)) checked))) in
      unfold ◌>>=◌ modify in asked.at (omega (arith, h.0), h.1, h.2);
}

count-twice :
    (p : Value → Bool) (rows : List Value) (first second : Value)
    → count p ((rows ++ first ∷ []) ++ second ∷ [])
      ≡ count p rows + one_if (p first) + one_if (p second)
count-twice p rows first second = rw (count-snoc, count-snoc) refl

-- After the row of a decision and the result of the call, with no call that waits.
decided :
    (s : Peer) (first second : Value)
    → is_form first ≡ false
    → is_form second ≡ false
    → is_decision first ≡ true
    → is_decision second ≡ false
    → not (is_null s.pending) ≡ true
    → InTurn s
    → (count is_form ((s.rows ++ first ∷ []) ++ second ∷ []) ≤ s.calls)
      × (count is_form ((s.rows ++ first ∷ []) ++ second ∷ []) ≤ 1)
      × (count is_decision ((s.rows ++ first ∷ []) ++ second ∷ []) + 0
          ≤ count is_form ((s.rows ++ first ∷ []) ++ second ∷ []))
decided s first second f1 f2 d1 d2 waiting h =
    let forms = count-twice is_form s.rows first second in
    let decisions = count-twice is_decision s.rows first second in
    let open' : one_if (not (is_null s.pending)) ≡ 1 = ap one_if waiting in
    rw (forms, decisions, f1, f2, d1, d2)
      (omega (arith, h.0), omega (arith, h.1), omega (arith, h.2, open'))

decides-Safe : (s : Peer) → not (is_null s.pending) ≡ true → Safe InTurn s (decides s.pending)
unfolding decides result send note append modify ◌>>=◌ is_null
decides-Safe s waiting = record {
  at = λ h.
      decided s _ _ (unfold is_form get_in get equal in refl)
        (unfold is_form get_in get equal in refl) (unfold is_decision get_in get equal in refl)
        (unfold is_decision get_in get equal in refl) waiting h;
}

decision-InTurn : (message : Value) → Maintains InTurn (decision message)
unfolding decision assert_at
decision-InTurn message = Maintains-Safe _ λ s.
    Safe-gets _ _ (Safe-assert _ _ λ checked. Safe-checked _ _ _ (decides-Safe s (ground arith)))

assert_at-InTurn :
    (message : Value) (keys : List String) (v : Value) → Maintains InTurn (assert_at message keys v)
unfolding assert_at
assert_at-InTurn message keys v = search maintains

dispatch-InTurn :
    (message method identity : Value) → Maintains InTurn (dispatch message method identity)
unfolding dispatch initialize is_form is_decision get_in get equal
dispatch-InTurn message method identity =
    search (maintains, assert_at-InTurn, result-InTurn, call-InTurn, decision-InTurn, note-InTurn)
      depth 16 fits 4000

module _ (py : Python) where
  read-InTurn : (line : Text) → Maintains InTurn (read py line)
  unfolding read is_form is_decision get_in get equal
  read-InTurn line = search (maintains, dispatch-InTurn, note-InTurn) depth 12 fits 3000

  loop-InTurn : (lines : List Text) → Maintains InTurn (loop py lines)
  unfolding loop
  loop-InTurn [] = search maintains
  loop-InTurn (line ∷ lines) = bind-Maintains _ _ (read-InTurn line) (λ _. loop-InTurn lines)

started-InTurn :
    (py : Python) (pid : ℕ) (lines : List Text) → InTurn (form_peer py pid lines idle).1
unfolding form_peer note modify is_form is_decision get_in get equal count is_null
started-InTurn py pid lines =
    let started : Maintains InTurn (note (("peer_started", number pid) ∷ []) >> loop py lines) =
      bind-Maintains _ _ (note-InTurn (("peer_started", number pid) ∷ []) refl refl)
        (λ _. loop-InTurn py lines) in
    (note-InTurn (("peer_closed", boolean true) ∷ []) refl refl).at
      ((note (("peer_started", number pid) ∷ []) >> loop py lines) idle).1
      (started.at idle (omega arith, omega arith, omega arith))

-- Whatever the lines, valid or not, up to the end or an exception: the peer has printed exactly the messages
-- of its outgoing rows, in their order. By the rows it has sent one form at most, and none before a call;
-- it observes no more decisions than it has sent forms, and one less while a call waits.
pub form_peer-InTurn :
    (py : Python) (pid : ℕ) (lines : List Text)
    → Mirrors (form_peer py pid lines idle).1 × InTurn (form_peer py pid lines idle).1
form_peer-InTurn py pid lines = (form_peer-Mirrors py pid lines, started-InTurn py pid lines)
