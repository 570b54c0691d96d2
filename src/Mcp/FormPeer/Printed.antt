-- ===== src/Mcp/FormPeer/Printed.antt =====
-- What the form peer prints, against the rows of its journal.
use samgita.Prelude.{
  ℕ, ◌≡◌, refl, ap, ◌∙◌, sym, true, String, List, [], ◌∷◌, ◌++◌, append-nil, ◌+◌, Bool-cases, inl,
  inr, if◌then◌else◌, Text,
}
use samgita.Json.{Value, boolean, number, text, get, get_in}
use samgita.Json.Build.{object}
use samgita.Json.Equality.{equal}
use samgita.Actions.{modify, ◌>>=◌, ◌>>◌}
use samgita.Actions.Maintains.{Maintains, bind-Maintains, maintains}
use samgita.Mcp.Http.{Python}
use samgita.Mcp.FormPeer.{
  Peer, append, note, send, result, message_of, row_out, asks, call, called, decides, decision,
  dispatch, initialize, read, loop, form_peer, idle, assert_at,
}

-- The messages that the rows say went out.
unfoldable pub outgoing : List Value → List Value
outgoing [] = []
outgoing (row ∷ rows) =
    let rest = outgoing rows in
    if equal (get_in "direction" row) (text "out") then get_in "message" row ∷ rest else rest

outgoing-snoc :
    (rows : List Value) (row : Value)
    → outgoing (rows ++ row ∷ []) ≡ outgoing rows ++ outgoing (row ∷ [])
unfolding outgoing
outgoing-snoc [] row = refl
outgoing-snoc (r ∷ rows) row = elim (Bool-cases (equal (get_in "direction" r) (text "out"))) [
  | inl out ↦ rw (out, outgoing-snoc rows row) refl
  | inr other ↦ rw (other, outgoing-snoc rows row) refl
]

-- The peer has printed what its rows say, in that order, and nothing else.
abbrev pub Mirrors : Peer → Type 0
Mirrors s = s.sent ≡ outgoing s.rows

note-Mirrors :
    (row : List (String × Value)) → outgoing (object row ∷ []) ≡ [] → Maintains Mirrors (note row)
unfolding note modify append
note-Mirrors row silent = record {
  at = λ s h. rw (outgoing-snoc, silent) (rw (append-nil (outgoing s.rows)) h);
}

send-Mirrors : (message : List (String × Value)) → Maintains Mirrors (send message)
unfolding send note modify append ◌>>=◌ outgoing get_in get equal
send-Mirrors message = record {
  at = λ s h.
      ap (λ sent. sent ++ message_of message ∷ []) h
      ∙ sym (outgoing-snoc s.rows (object (row_out message)));
}

result-Mirrors : (identity v : Value) → Maintains Mirrors (result identity v)
unfolding result
result-Mirrors identity v = send-Mirrors (("id", identity) ∷ ("result", v) ∷ [])

pending-Mirrors : (v : Value) → Maintains Mirrors (modify (λ s. record s { pending = v }))
unfolding modify
pending-Mirrors v = record { at = λ s h. h }

counts-Mirrors : Maintains Mirrors (modify (λ s. record s { calls = s.calls + 1 }))
unfolding modify
counts-Mirrors = record { at = λ s h. h }

assert_at-Mirrors :
    (message : Value) (keys : List String) (v : Value)
    → Maintains Mirrors (assert_at message keys v)
unfolding assert_at
assert_at-Mirrors message keys v = search maintains

call-Mirrors : (message identity : Value) → Maintains Mirrors (call message identity)
unfolding call called asks
call-Mirrors message identity =
    search (maintains, assert_at-Mirrors, send-Mirrors, pending-Mirrors, counts-Mirrors) depth 14
      fits 3000

decides-Mirrors : (pending : Value) → Maintains Mirrors (decides pending)
unfolding decides outgoing get_in get equal
decides-Mirrors pending =
    search (maintains, note-Mirrors, result-Mirrors, pending-Mirrors) depth 12 fits 3000

decision-Mirrors : (message : Value) → Maintains Mirrors (decision message)
unfolding decision
decision-Mirrors message = search (maintains, assert_at-Mirrors, decides-Mirrors) depth 12 fits 3000

dispatch-Mirrors :
    (message method identity : Value) → Maintains Mirrors (dispatch message method identity)
unfolding dispatch initialize outgoing get_in get equal
dispatch-Mirrors message method identity =
    search
      (maintains, assert_at-Mirrors, result-Mirrors, call-Mirrors, decision-Mirrors, note-Mirrors)
      depth 16 fits 4000

module _ (py : Python) where
  read-Mirrors : (line : Text) → Maintains Mirrors (read py line)
  unfolding read outgoing get_in get equal
  read-Mirrors line = search (maintains, dispatch-Mirrors, note-Mirrors) depth 12 fits 3000

  loop-Mirrors : (lines : List Text) → Maintains Mirrors (loop py lines)
  unfolding loop
  loop-Mirrors [] = search maintains
  loop-Mirrors (line ∷ lines) = bind-Maintains _ _ (read-Mirrors line) (λ _. loop-Mirrors lines)

pub form_peer-Mirrors :
    (py : Python) (pid : ℕ) (lines : List Text) → Mirrors (form_peer py pid lines idle).1
unfolding form_peer note modify outgoing get_in get equal
form_peer-Mirrors py pid lines =
    let started : Maintains Mirrors (note (("peer_started", number pid) ∷ []) >> loop py lines) =
      bind-Maintains _ _ (note-Mirrors (("peer_started", number pid) ∷ []) refl)
        (λ _. loop-Mirrors py lines) in
    (note-Mirrors (("peer_closed", boolean true) ∷ []) refl).at
      ((note (("peer_started", number pid) ∷ []) >> loop py lines) idle).1 (started.at idle refl)
