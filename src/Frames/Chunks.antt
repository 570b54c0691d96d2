-- ===== src/Frames/Chunks.antt =====
-- What `read_exact` gives of bytes that arrive in pieces.
use samgita.Prelude.{
  ℕ, ◌+◌, ◌-◌, ◌≤◌, ◌<◌, ◌≡◌, refl, sym, ap, ◌∙◌, inl, inr, Bool, true, false, some, List, [], ◌∷◌,
  ◌++◌, append-nil, append_assoc, ltb, leb, length, take, drop, length-append, Bool-cases, arith,
  Text,
}
use mathlib.Core.Path.{subst}
use samgita.Frames.{Signal, arrives, times_out, closes, exact, read_exact}

-- The peer stays: nothing of an open connection closes it, and every piece has bytes.
unfoldable pub is_steady : List Signal → Bool
is_steady [] = true
is_steady (arrives [] ∷ later) = false
is_steady (arrives (byte ∷ bytes) ∷ later) = is_steady later
is_steady (times_out ∷ later) = is_steady later
is_steady (closes ∷ later) = false

-- The bytes that arrive, whatever the pieces.
unfoldable pub arriving : List Signal → Text
arriving [] = []
arriving (arrives chunk ∷ later) = chunk ++ arriving later
arriving (times_out ∷ later) = arriving later
arriving (closes ∷ later) = arriving later

exact_lem : (size : ℕ) (data' : Text) → length data' ≡ size → exact size data' ≡ some data'
unfolding exact
exact_lem size data' h = ground arith

-- Enough was read: nothing more is taken.
read_exact-full :
    (peer : List Signal) (size : ℕ) (data' : Text)
    → length data' ≡ size
    → read_exact peer size data' ≡ (some data', peer)
unfolding read_exact
read_exact-full [] size data' h = rw (exact_lem size data' h)
read_exact-full (closes ∷ later) size data' h = rw (exact_lem size data' h)
read_exact-full (times_out ∷ later) size data' h =
    let over : ltb (length data') size ≡ false = ground arith in rw (over, exact_lem size data' h)
read_exact-full (arrives [] ∷ later) size data' h = rw (exact_lem size data' h)
read_exact-full (arrives (byte ∷ bytes) ∷ later) size data' h =
    let over : ltb (length data') size ≡ false = ground arith in rw (over, exact_lem size data' h)

-- Two ways to cut a text, by the shorter first part.
cut_longer :
    (xs ys bs cs : Text)
    → xs ++ ys ≡ bs ++ cs
    → length xs ≤ length bs
    → (more : Text) × (bs ≡ xs ++ more) × (ys ≡ more ++ cs)
cut_longer [] ys bs cs h le = (bs, refl, h)
cut_longer (x ∷ xs) ys [] cs h le = absurd (omega arith)
cut_longer (x ∷ xs) ys (b ∷ bs) cs h le =
    let inner = cut_longer xs ys bs cs (cc) (omega arith) in (inner.0, cc, inner.2)

take-length-append : (xs ys : Text) → take (length xs) (xs ++ ys) ≡ xs
take-length-append [] ys = refl
take-length-append (x ∷ xs) ys = rw (take-length-append xs ys)

drop-length-append : (xs ys : Text) → drop (length xs) (xs ++ ys) ≡ ys
drop-length-append [] ys = refl
drop-length-append (x ∷ xs) ys = drop-length-append xs ys

-- A call that has what was wanted, and leaves the rest to a steady peer.
abbrev pub Reads : List Signal → ℕ → Text → Text → Text → Type 0
Reads peer size before wanted rest =
    (left : List Signal) × (read_exact peer size before ≡ (some (before ++ wanted), left))
    × (is_steady left ≡ true)
    × (arriving left ≡ rest)

-- A piece that is all asked for or less, and one that has more.
read_exact-fits :
    (byte : ℕ) (bytes : Text) (later : List Signal) (size : ℕ) (before : Text)
    → length before < size
    → length (byte ∷ bytes) ≤ size - length before
    → read_exact (arrives (byte ∷ bytes) ∷ later) size before
      ≡ read_exact later size (before ++ byte ∷ bytes)
unfolding read_exact
read_exact-fits byte bytes later size before less le =
    let under : ltb (length before) size ≡ true = ground arith in
    let fits : leb (length (byte ∷ bytes)) (size - length before) ≡ true = ground arith in
    rw (under, fits)

read_exact-over :
    (byte : ℕ) (bytes : Text) (later : List Signal) (size : ℕ) (before : Text)
    → length before < size
    → size - length before < length (byte ∷ bytes)
    → read_exact (arrives (byte ∷ bytes) ∷ later) size before ≡ (
      exact size (before ++ take (size - length before) (byte ∷ bytes)),
      arrives (drop (size - length before) (byte ∷ bytes)) ∷ later,
    )
unfolding read_exact
read_exact-over byte bytes later size before less more =
    let under : ltb (length before) size ≡ true = ground arith in
    let over : leb (length (byte ∷ bytes)) (size - length before) ≡ false = ground arith in
    rw (under, over)

steady_piece :
    (piece : Text) (later : List Signal)
    → 0 < length piece
    → is_steady later ≡ true
    → is_steady (arrives piece ∷ later) ≡ true
unfolding is_steady
steady_piece [] later has_some steady = absurd (omega arith)
steady_piece (byte ∷ bytes) later has_some steady = steady

Reads-fits :
    (byte : ℕ) (bytes : Text) (later : List Signal) (size : ℕ) (before more rest : Text)
    → length before < size
    → length (byte ∷ bytes) ≤ size - length before
    → Reads later size (before ++ byte ∷ bytes) more rest
    → Reads (arrives (byte ∷ bytes) ∷ later) size before ((byte ∷ bytes) ++ more) rest
Reads-fits byte bytes later size before more rest less le inner = (
  inner.0,
  read_exact-fits byte bytes later size before less le
      ∙ inner.1
      ∙ ap (λ t. (some t, inner.0)) (append_assoc before (byte ∷ bytes) more),
  inner.2,
  inner.3,
)

Reads-over :
    (byte : ℕ) (bytes : Text) (later : List Signal) (size : ℕ) (before wanted piece : Text)
    → length before + length wanted ≡ size
    → 0 < length wanted
    → 0 < length piece
    → byte ∷ bytes ≡ wanted ++ piece
    → is_steady later ≡ true
    → Reads (arrives (byte ∷ bytes) ∷ later) size before wanted (piece ++ arriving later)
unfolding arriving
Reads-over byte bytes later size before wanted piece measured some_wanted some_left cut steady =
    let longer : length wanted < length (byte ∷ bytes) =
      omega (arith, ap length cut, length-append wanted piece) in
    let asked : size - length before ≡ length wanted = omega arith in
    let taken : take (size - length before) (byte ∷ bytes) ≡ wanted =
      rw (asked, cut) (take-length-append wanted piece) in
    let dropped : drop (size - length before) (byte ∷ bytes) ≡ piece =
      rw (asked, cut) (drop-length-append wanted piece) in
    let filled : length (before ++ wanted) ≡ size = omega (arith, length-append before wanted) in
    (
      arrives piece ∷ later,
      read_exact-over byte bytes later size before (omega arith) (omega arith)
          ∙ ap
              (λ t. (
                exact size (before ++ t),
                arrives (drop (size - length before) (byte ∷ bytes)) ∷ later,
              ))
              taken
          ∙ ap (λ t. (exact size (before ++ wanted), arrives t ∷ later)) dropped
          ∙ ap (λ o. (o, arrives piece ∷ later)) (exact_lem size (before ++ wanted) filled),
      steady_piece piece later some_left steady,
      refl,
    )

-- The bytes that are wanted come first: they are read, whatever the pieces and the timeouts.
pub read_exact-Reads :
    (peer : List Signal) (size : ℕ) (before wanted rest : Text)
    → is_steady peer ≡ true
    → arriving peer ≡ wanted ++ rest
    → length before + length wanted ≡ size
    → Reads peer size before wanted rest
unfolding is_steady arriving read_exact
read_exact-Reads peer size before [] rest steady all_of measured = (
  peer,
  read_exact-full peer size before (omega arith)
      ∙ ap (λ t. (some t, peer)) (sym (append-nil before)),
  steady,
  all_of,
)
read_exact-Reads [] size before (w ∷ ws) rest steady all_of measured = absurd cc
read_exact-Reads (closes ∷ later) size before (w ∷ ws) rest steady all_of measured = absurd cc
read_exact-Reads (times_out ∷ later) size before (w ∷ ws) rest steady all_of measured =
    let inner = read_exact-Reads later size before (w ∷ ws) rest steady all_of measured in
    let under : ltb (length before) size ≡ true = ground arith in
    (inner.0, rw under (inner.1), inner.2, inner.3)
read_exact-Reads (arrives [] ∷ later) size before (w ∷ ws) rest steady all_of measured = absurd cc
read_exact-Reads (arrives (b ∷ bs) ∷ later) size before (w ∷ ws) rest steady all_of measured =
    elim (Bool-cases (leb (length (b ∷ bs)) (length (w ∷ ws)))) [
      | inl fits ↦
          let cut = cut_longer (b ∷ bs) (arriving later) (w ∷ ws) rest all_of (ground arith) in
          let left : length before + length (b ∷ bs) + length (cut.0) ≡ size =
            omega (arith, ap length (cut.1), length-append (b ∷ bs) (cut.0)) in
          let inner =
            read_exact-Reads later size (before ++ b ∷ bs) (cut.0) rest steady (cut.2)
              (omega (arith, length-append before (b ∷ bs))) in
          subst (λ t. Reads (arrives (b ∷ bs) ∷ later) size before t rest) (sym (cut.1))
            (Reads-fits b bs later size before (cut.0) rest (omega arith) (ground arith) inner)
      | inr over ↦
          let cut =
            cut_longer (w ∷ ws) rest (b ∷ bs) (arriving later) (sym all_of) (ground arith) in
          let longer : length (w ∷ ws) < length (b ∷ bs) = ground arith in
          let some_left : 0 < length (cut.0) =
            omega (arith, ap length (cut.1), length-append (w ∷ ws) (cut.0)) in
          subst (Reads (arrives (b ∷ bs) ∷ later) size before (w ∷ ws)) (sym (cut.2)) (
            Reads-over b bs later size before (w ∷ ws) (cut.0) measured (omega arith) some_left
              (cut.1) steady)
    ]
