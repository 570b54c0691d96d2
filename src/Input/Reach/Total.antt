-- ===== src/Input/Reach/Total.antt =====
-- request_methods: the size of a search, which a round makes smaller.
use mathlib.Core.Path.{subst}
use samgita.Prelude.{
  ℕ, zero, suc, ◌+◌, ◌≤◌, ◌<◌, true, false, Option, none, some, String, Text, codes, text_eq,
  text_eq→eq, text_eq_refl, if◌then◌else◌, Result, ok, raise, >>=-eq-ok, ◌>>=◌, List, [], ◌∷◌, ◌≡◌,
  refl, sym, ap, ◌∙◌, arith, Bool-cases, Option-cases, inl, inr,
}
use samgita.Json.{Value, list, dict, Items, nil, cons, Fields, end, field}
use samgita.Input.Reach.{
  Fault, key_error, is_seen, definition_of, push_items, push_values, reference, Search, follow,
  visit, search, size, size_values, size_list, references_of, parts, branch_methods, reachable,
  branches_of, definitions_in, request_methods, methods_if, append_items, sorted,
}

abbrev total : List Value → ℕ
total [] = 0
total (v ∷ vs) = size v + total vs

-- The sizes of the definitions that are not seen.
abbrev unseen : Fields → List Text → ℕ
unseen end seen = 0
unseen (field k v rest) seen = (if is_seen (codes k) seen then 0 else size v) + unseen rest seen

total-push_values :
    (fs : Fields) (p : List Value) → total (push_values fs p) ≡ size_values fs + total p
unfolding push_values size_values
total-push_values end p = omega arith
total-push_values (field k v fs) p = omega (arith, total-push_values fs (v ∷ p))

total-push_items : (vs : Items) (p : List Value) → total (push_items vs p) ≡ size_list vs + total p
unfolding push_items size_list
total-push_items nil p = omega arith
total-push_items (cons v vs) p = omega (arith, total-push_items vs (v ∷ p))

unseen-cons :
    (defs : Fields) (r : Text) (seen : List Text) → unseen defs (r ∷ seen) ≤ unseen defs seen
unfolding is_seen
unseen-cons end r seen = omega arith
unseen-cons (field k v rest) r seen = ground (arith, unseen-cons rest r seen)

some-injective : {v d : Value} → ◌≡◌ {A = Option Value} (some v) (some d) → v ≡ d
some-injective h = cc

-- A definition that becomes seen is not counted any more.
unseen-definition_of :
    (defs : Fields) (r : Text) (seen : List Text) (d : Value)
    → is_seen r seen ≡ false
    → definition_of r defs ≡ some d
    → size d + unseen defs (r ∷ seen) ≤ unseen defs seen
unfolding definition_of is_seen
unseen-definition_of end r seen d h k = cc
unseen-definition_of (field key v rest) r seen d h k = elim (Bool-cases (text_eq (codes key) r)) [
  | inl same ↦
      let spelled : codes key ≡ r = text_eq→eq (codes key) r same in
      let self : text_eq r (codes key) ≡ true = cc (spelled, text_eq_refl r) in
      let fresh : is_seen (codes key) seen ≡ false = cc (spelled, h) in
      let found : ◌≡◌ {A = Option Value} (some v) (some d) =
        sym (rw (definition_of, same) refl) ∙ k in
      let sizes : size v ≡ size d = ap size (some-injective found) in
      rw (self, fresh) (omega (arith, sizes, unseen-cons rest r seen))
  | inr other ↦
      let later : definition_of r rest ≡ some d = sym (rw (definition_of, other) refl) ∙ k in
      ground (arith, unseen-definition_of rest r seen d h later)
]

abbrev measure : Fields → Search → ℕ
measure defs s = total s.pending + unseen defs s.seen

ok-injective : {s t : Search} → ◌≡◌ {A = Result Fault Search} (ok s) (ok t) → s ≡ t
ok-injective h = cc

-- A call that gave s gave t.
gives :
    (defs : Fields) (n : ℕ) {call : Result Fault Search} {s t : Search}
    → call ≡ ok s
    → call ≡ ok t
    → measure defs s ≤ n
    → measure defs t ≤ n
gives defs n h k = subst (λ x. measure defs x ≤ n) (ok-injective (sym h ∙ k))

follow-measure :
    (defs : Fields) (r : Text) (s t : Search)
    → follow defs r s ≡ ok t
    → measure defs t ≤ measure defs s
unfolding follow
follow-measure defs [] s t h = gives defs (measure defs s) refl h (omega arith)
follow-measure defs (c ∷ r) s t h = elim (Bool-cases (is_seen (c ∷ r) s.seen)) [
  | inl old ↦ gives defs (measure defs s) {s = s} (rw (follow, old) refl) h (omega arith)
  | inr new ↦ elim (Option-cases (definition_of (c ∷ r) defs)) [
    | inl missing ↦ absurd (failed new missing)
    | inr (d, found) ↦
        gives defs (measure defs s)
          {s = record { pending = d ∷ s.pending; seen = (c ∷ r) ∷ s.seen }}
          (rw (follow, new, found) refl) h
          (omega (arith, unseen-definition_of defs (c ∷ r) s.seen d new found))
  ]
]
  where
    failed : is_seen (c ∷ r) s.seen ≡ false → definition_of (c ∷ r) defs ≡ none → ⊥
    failed new missing =
        let red : follow defs (c ∷ r) s ≡ raise key_error = rw (follow, new, missing) refl in
        cc (red, h)

visit-measure :
    (defs : Fields) (v : Value) (s t : Search)
    → visit defs v s ≡ ok t
    → suc (measure defs t) ≤ size v + measure defs s
unfolding visit size
visit-measure defs (dict fields) s t h =
    let (r, read, h1) = >>=-eq-ok (reference fields) _ h in
    let (u, followed, h2) = >>=-eq-ok (follow defs r s) _ h1 in
    let same : record { pending = push_values fields u.pending; seen = u.seen } ≡ t =
      ok-injective h2 in
    subst (λ x. suc (measure defs x) ≤ suc (size_values fields) + measure defs s) same
      (omega (arith, total-push_values fields u.pending, follow-measure defs r s u followed))
visit-measure defs (list items) s t h =
    subst (λ x. suc (measure defs x) ≤ suc (size_list items) + measure defs s) (ok-injective h)
      (omega (arith, total-push_items items s.pending))
visit-measure defs v s t h =
    subst (λ x. suc (measure defs x) ≤ 1 + measure defs s) (ok-injective h) (omega arith)

search-total :
    (fuel : ℕ) (defs : Fields) (s : Search)
    → measure defs s < fuel
    → (result : Result Fault (List Text)) × (search fuel defs s ≡ some result)
unfolding search
search-total zero defs s h = absurd (omega arith)
search-total (suc fuel) defs s h = go s.pending refl (λ t less. search-total fuel defs t less)
  where
    go :
        (pending : List Value)
        → s.pending ≡ pending
        → ((t : Search)
            → measure defs t < fuel
            → (result : Result Fault (List Text)) × (search fuel defs t ≡ some result))
        → (result : Result Fault (List Text)) × (search (suc fuel) defs s ≡ some result)
    go [] stack rec = (ok s.seen, rw (search, stack) refl)
    go (v ∷ rest) stack rec = after (visit defs v popped) refl
      where
        popped : Search
        popped = record { pending = rest; seen = s.seen }

        sum : total s.pending ≡ size v + total rest
        sum = ap total stack

        after :
            (next : Result Fault Search)
            → visit defs v popped ≡ next
            → (result : Result Fault (List Text)) × (search (suc fuel) defs s ≡ some result)
        after (raise e) visited = (raise e, rw (search, stack, visited) refl)
        after (ok t) visited =
            let (result, found) =
              rec t (omega (arith, visit-measure defs v popped t visited, sum)) in
            (result, rw (search, stack, visited, found) refl)

unseen-start : (defs : Fields) → unseen defs [] ≡ size_values defs
unfolding size_values is_seen
unseen-start end = refl
unseen-start (field k v rest) = omega (arith, unseen-start rest)

references_of-total :
    (defs : Fields) (params : Value)
    → (result : Result Fault (List Text)) × (references_of defs params ≡ some result)
unfolding references_of
references_of-total defs params =
    search-total (suc (size params + size_values defs)) defs
      (record { pending = params ∷ []; seen = [] }) (omega (arith, unseen-start defs))

branch_methods-total :
    (defs : Fields) (definition : Text) (branch : Value)
    → (result : Result Fault Items) × (branch_methods defs definition branch ≡ some result)
unfolding branch_methods
branch_methods-total defs definition branch = go (parts branch) refl
  where
    go :
        (both : Result Fault (Value × Value))
        → parts branch ≡ both
        → (result : Result Fault Items) × (branch_methods defs definition branch ≡ some result)
    go (raise e) read = (raise e, rw (branch_methods, read) refl)
    go (ok both) read =
        let (found, ended) = references_of-total defs both.1 in
        (found >>= λ seen. methods_if definition both.0 seen, rw (branch_methods, read, ended) refl)

reachable-total :
    (defs : Fields) (definition : Text) (branches : Items)
    → (result : Result Fault Items) × (reachable defs definition branches ≡ some result)
unfolding reachable
reachable-total defs definition nil = (ok nil, refl)
reachable-total defs definition (cons branch rest) =
    go (branch_methods-total defs definition branch) (reachable-total defs definition rest)
  where
    go :
        ((first : Result Fault Items) × (branch_methods defs definition branch ≡ some first))
        → ((others : Result Fault Items) × (reachable defs definition rest ≡ some others))
        → (result : Result Fault Items) × (reachable defs definition (cons branch rest)
            ≡ some result)
    go (raise e, first) (others, later) = (raise e, rw (reachable, first) refl)
    go (ok methods, first) (others, later) =
        (others >>= λ more. ok (append_items methods more), rw (reachable, first, later) refl)

-- The call ends on every document, whether or not its definitions refer to each other.
pub request_methods-total :
    (document : Value) (definition : Text)
    → (result : Result Fault (List String)) × (request_methods document definition ≡ some result)
unfolding request_methods
request_methods-total document definition = go (branches_of document) refl
  where
    go :
        (branches : Result Fault Items)
        → branches_of document ≡ branches
        → (result : Result Fault (List String)) × (request_methods document definition
            ≡ some result)
    go (raise e) read = (raise e, rw (request_methods, read) refl)
    go (ok branches) read =
        let (found, ended) = reachable-total (definitions_in document) definition branches in
        (found >>= λ methods. sorted methods, rw (request_methods, read, ended) refl)
