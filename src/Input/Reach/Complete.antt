-- ===== src/Input/Reach/Complete.antt =====
-- request_methods: what the search for references has seen when it returns.
use mathlib.Core.Path.{subst}
use samgita.Prelude.{
  ℕ, zero, suc, ◌+◌, true, some, Text, text_eq, text_eq→eq, Result, ok, raise, List, [], ◌∷◌, All,
  ◌≡◌, ◌↔◌, refl, sym, ◌∙◌, arith, Bool-cases, inl, inr,
}
use samgita.Json.{Value, Fields}
use samgita.Input.Reach.{
  Fault, is_seen, definition_of, Search, visit, search, references_of, size, size_values,
}
use samgita.Input.Reach.Sound.{
  Refers, direct, by_field, by_item, through, found-injective, references_of-Refers,
}
use samgita.Input.Reach.Rounds.{Names, own, in_field, in_item, Known, visit-names, visit-Advances}

-- Every name in the definition of a name that is seen is known.
abbrev IsClosed : Fields → Search → Type 0
IsClosed defs s =
    (r : Text) (d : Value) (q : Text)
    → is_seen r s.seen ≡ true
    → definition_of r defs ≡ some d
    → Names d q
    → Known q s

-- A result has every name that was known, and every name in the definition of a name that it has.
abbrev Covers : Fields → Search → List Text → Type 0
Covers defs s found =
    ((q : Text) → Known q s → is_seen q found ≡ true)
    × ((r : Text) (d : Value) (q : Text)
        → is_seen r found ≡ true
        → definition_of r defs ≡ some d
        → Names d q
        → is_seen q found ≡ true)

module _ (defs : Fields) (v : Value) (rest : List Value) (seen : List Text) (t : Search) where
  abbrev before : Search
  before = record { pending = v ∷ rest; seen = seen }

  abbrev popped : Search
  popped = record { pending = rest; seen = seen }

  round-Known : visit defs v popped ≡ ok t → (q : Text) → Known q before → Known q t
  round-Known h q (inl old) = (visit-Advances defs v popped t h).0 q (inl old)
  round-Known h q (inr (inl names)) = visit-names defs v popped t q h names
  round-Known h q (inr (inr pends)) = (visit-Advances defs v popped t h).0 q (inr pends)

  round-IsClosed : visit defs v popped ≡ ok t → IsClosed defs before → IsClosed defs t
  round-IsClosed h closed r d q seen' defined names =
      elim ((visit-Advances defs v popped t h).1 r d q seen' defined names) [
        | inl old ↦ round-Known h q (closed r d q old defined names)
        | inr known ↦ known
      ]

search-Covers :
    (fuel : ℕ) (defs : Fields) (pending : List Value) (seen found : List Text)
    → search fuel defs (record { pending = pending; seen = seen }) ≡ some (ok found)
    → IsClosed defs (record { pending = pending; seen = seen })
    → Covers defs (record { pending = pending; seen = seen }) found
unfolding search
search-Covers zero defs pending seen found h closed = cc
search-Covers (suc fuel) defs [] seen found h closed =
    let same : seen ≡ found = found-injective h in
    subst (Covers defs (record { pending = []; seen = seen })) same (all_seen, all_closed)
  where
    all_seen : (q : Text) → Known q (record { pending = []; seen = seen }) → is_seen q seen ≡ true
    all_seen q (inl old) = old
    all_seen q (inr pends) = absurd pends

    all_closed :
        (r : Text) (d : Value) (q : Text)
        → is_seen r seen ≡ true
        → definition_of r defs ≡ some d
        → Names d q
        → is_seen q seen ≡ true
    all_closed r d q old defined names = all_seen q (closed r d q old defined names)
search-Covers (suc fuel) defs (v ∷ rest) seen found h closed =
    go (visit defs v (record { pending = rest; seen = seen })) refl
      (λ t k c. search-Covers fuel defs t.pending t.seen found k c)
  where
    go :
        (next : Result Fault Search)
        → visit defs v (record { pending = rest; seen = seen }) ≡ next
        → ((t : Search)
            → search fuel defs t ≡ some (ok found)
            → IsClosed defs t
            → Covers defs t found)
        → Covers defs (record { pending = v ∷ rest; seen = seen }) found
    go (raise e) visited rec =
        let red : search (suc fuel) defs (record { pending = v ∷ rest; seen = seen })
            ≡ some (raise e) =
          rw (search, visited) refl in
        absurd (cc (red, h))
    go (ok t) visited rec =
        let red : search (suc fuel) defs (record { pending = v ∷ rest; seen = seen })
            ≡ search fuel defs t =
          rw (search, visited) refl in
        let (has, covered) =
          rec t (sym red ∙ h) (round-IsClosed defs v rest seen t visited closed) in
        ((λ q known. has q (round-Known defs v rest seen t visited q known)), covered)

-- Names that cover those of a value, and those in the definitions of names they have, cover what it refers to.
covers-Refers :
    (defs : Fields) (found : List Text)
    → ((r : Text) (d : Value) (q : Text)
        → is_seen r found ≡ true
        → definition_of r defs ≡ some d
        → Names d q
        → is_seen q found ≡ true)
    → (v : Value) (q : Text) → ((n : Text) → Names v n → is_seen n found ≡ true)
    → Refers defs v q
    → is_seen q found ≡ true
covers-Refers defs found closed v q named (direct read) = named _ (own read)
covers-Refers defs found closed v q named (by_field {v = w} i refers) =
    covers-Refers defs found closed w q (λ n names. named n (in_field i names)) refers
covers-Refers defs found closed v q named (by_item {v = w} i refers) =
    covers-Refers defs found closed w q (λ n names. named n (in_item i names)) refers
covers-Refers defs found closed v q named (through {d = d} {r = r} refers defined rest) =
    let middle = covers-Refers defs found closed v r named refers in
    covers-Refers defs found closed d q (λ n names. closed r d n middle defined names) rest

-- When the search from the parameters of a request returns, it has seen every name they refer to.
references_of_complete :
    (defs : Fields) (params : Value) (found : List Text) (q : Text)
    → references_of defs params ≡ some (ok found)
    → Refers defs params q
    → is_seen q found ≡ true
unfolding references_of
references_of_complete defs params found q h refers =
    let (has, closed) =
      search-Covers (suc (size params + size_values defs)) defs (params ∷ []) [] found h
        (λ r d n seen defined names. absurd (nothing_seen r seen)) in
    covers-Refers defs found closed params q (λ n names. has n (inr (inl names))) refers
  where
    nothing_seen : (r : Text) → is_seen r [] ≡ true → ⊥
    nothing_seen r seen = unfold is_seen in cc

All-Refers :
    (defs : Fields) (params : Value) (q : Text) (seen : List Text)
    → All (Refers defs params) seen
    → is_seen q seen ≡ true
    → Refers defs params q
unfolding is_seen
All-Refers defs params q [] h k = cc
All-Refers defs params q (r ∷ seen) (h, hs) k = elim (Bool-cases (text_eq r q)) [
  | inl same ↦ subst (Refers defs params) (text_eq→eq r q same) h
  | inr other ↦ All-Refers defs params q seen hs (ground (arith, other, k))
]

-- When the search from the parameters of a request returns, the names that it has seen are those that the
-- parameters refer to.
pub references_of_iff :
    (defs : Fields) (params : Value) (found : List Text) (q : Text)
    → references_of defs params ≡ some (ok found)
    → (is_seen q found ≡ true) ↔ Refers defs params q
references_of_iff defs params found q h = (
  All-Refers defs params q found (references_of-Refers defs params found h),
  λ refers. references_of_complete defs params found q h refers,
)
