-- ===== src/Input/Reach/Sound.antt =====
-- request_methods: what a value refers to, and the names that the search collects.
use mathlib.Core.Path.{subst}
use samgita.Prelude.{
  ℕ, zero, suc, ◌+◌, false, Option, none, some, String, Text, Result, ok, raise, >>=-eq-ok, List,
  [], ◌∷◌, All, ◌≡◌, refl, sym, ◌∙◌, Bool-cases, Option-cases, inl, inr,
}
use samgita.Json.{Value, list, dict, Items, nil, cons, Fields, end, field}
use samgita.Input.Reach.{
  Fault, key_error, is_seen, definition_of, push_items, push_values, reference, Search, follow,
  visit, search, references_of, size, size_values,
}

-- A value stands directly in a dict or in a list.
pub data InFields (v : Value) : Fields → Type 0 where
  this_field : {k : String} {fs : Fields} → InFields v (field k v fs)
  next_field : {k : String} {w : Value} {fs : Fields} → InFields v fs → InFields v (field k w fs)

pub data InItems (v : Value) : Items → Type 0 where
  this_item : {vs : Items} → InItems v (cons v vs)
  next_item : {w : Value} {vs : Items} → InItems v vs → InItems v (cons w vs)

-- A value refers to a name: by a $ref of its own, in a value inside of it, or through a definition.
pub data Refers (defs : Fields) : Value → Text → Type 0 where
  direct :
      {fs : Fields} {c : ℕ} {r : Text} → reference fs ≡ ok (c ∷ r) → Refers defs (dict fs) (c ∷ r)
  by_field :
      {fs : Fields} {v : Value} {r : Text}
      → InFields v fs
      → Refers defs v r
      → Refers defs (dict fs) r
  by_item :
      {vs : Items} {v : Value} {r : Text} → InItems v vs → Refers defs v r → Refers defs (list vs) r
  through :
      {v d : Value} {r q : Text}
      → Refers defs v r
      → definition_of r defs ≡ some d
      → Refers defs d q
      → Refers defs v q

pub ok-injective : {s t : Search} → ◌≡◌ {A = Result Fault Search} (ok s) (ok t) → s ≡ t
ok-injective h = cc

pub found-injective :
    {a b : List Text}
    → ◌≡◌ {A = Option (Result Fault (List Text))} (some (ok a)) (some (ok b))
    → a ≡ b
found-injective h = cc

-- A new reference without a definition is an error.
pub follow_fails :
    (defs : Fields) (c : ℕ) (r : Text) (s t : Search)
    → is_seen (c ∷ r) s.seen ≡ false
    → definition_of (c ∷ r) defs ≡ none
    → follow defs (c ∷ r) s ≡ ok t
    → ⊥
unfolding follow
follow_fails defs c r s t new missing h =
    let red : follow defs (c ∷ r) s ≡ raise key_error = rw (follow, new, missing) refl in
    cc (red, h)

module _ (defs : Fields) (start : Value) where
  -- Whatever the value refers to, the start does.
  abbrev Below : Value → Type 0
  Below v = (q : Text) → Refers defs v q → Refers defs start q

  abbrev IsSound : Search → Type 0
  IsSound s = All (Refers defs start) s.seen × All Below s.pending

  push_values-Below :
      (fs : Fields) (p : List Value)
      → ((v : Value) → InFields v fs → Below v)
      → All Below p
      → All Below (push_values fs p)
  unfolding push_values
  push_values-Below end p g h = h
  push_values-Below (field k v fs) p g h =
      push_values-Below fs (v ∷ p) (λ w i. g w (next_field i)) (g v this_field, h)

  push_items-Below :
      (vs : Items) (p : List Value)
      → ((v : Value) → InItems v vs → Below v)
      → All Below p
      → All Below (push_items vs p)
  unfolding push_items
  push_items-Below nil p g h = h
  push_items-Below (cons v vs) p g h =
      push_items-Below vs (v ∷ p) (λ w i. g w (next_item i)) (g v this_item, h)

  result-IsSound :
      {call : Result Fault Search} {s t : Search}
      → call ≡ ok s
      → call ≡ ok t
      → IsSound s
      → IsSound t
  result-IsSound h k sound = subst IsSound (ok-injective (sym h ∙ k)) sound

  follow-IsSound :
      (fields : Fields) (r : Text) (s t : Search)
      → reference fields ≡ ok r
      → Below (dict fields)
      → follow defs r s ≡ ok t
      → IsSound s
      → IsSound t
  unfolding follow
  follow-IsSound fields [] s t read below h sound = result-IsSound {s = s} refl h sound
  follow-IsSound fields (c ∷ r) s t read below h (seen, pending) =
      elim (Bool-cases (is_seen (c ∷ r) s.seen)) [
        | inl old ↦ result-IsSound {s = s} (rw (follow, old) refl) h (seen, pending)
        | inr new ↦ elim (Option-cases (definition_of (c ∷ r) defs)) [
          | inl missing ↦ absurd (follow_fails defs c r s t new missing h)
          | inr (d, found) ↦
              result-IsSound {s = record { pending = d ∷ s.pending; seen = (c ∷ r) ∷ s.seen }}
                (rw (follow, new, found) refl) h
                (
                  (below (c ∷ r) (direct read), seen),
                  (λ q refers. below q (through (direct read) found refers), pending),
                )
        ]
      ]

  visit-IsSound :
      (v : Value) (s t : Search) → Below v → visit defs v s ≡ ok t → IsSound s → IsSound t
  unfolding visit
  visit-IsSound (dict fields) s t below h sound =
      let (r, read, h1) = >>=-eq-ok (reference fields) _ h in
      let (u, followed, h2) = >>=-eq-ok (follow defs r s) _ h1 in
      let (seen, pending) = follow-IsSound fields r s u read below followed sound in
      result-IsSound refl h2 (
        seen,
        push_values-Below fields u.pending (λ w i. λ q refers. below q (by_field i refers)) pending,
      )
  visit-IsSound (list items) s t below h (seen, pending) = result-IsSound refl h (
    seen,
    push_items-Below items s.pending (λ w i. λ q refers. below q (by_item i refers)) pending,
  )
  visit-IsSound v s t below h sound = result-IsSound {s = s} refl h sound

  search-IsSound :
      (fuel : ℕ) (s : Search) (found : List Text)
      → search fuel defs s ≡ some (ok found)
      → IsSound s
      → All (Refers defs start) found
  unfolding search
  search-IsSound zero s found h sound = cc
  search-IsSound (suc fuel) s found h sound =
      go s.pending refl (λ t k below. search-IsSound fuel t found k below)
    where
      go :
          (pending : List Value)
          → s.pending ≡ pending
          → ((t : Search)
              → search fuel defs t ≡ some (ok found)
              → IsSound t
              → All (Refers defs start) found)
          → All (Refers defs start) found
      go [] stack rec =
          let red : search (suc fuel) defs s ≡ some (ok s.seen) = rw (search, stack) refl in
          subst (All (Refers defs start)) (found-injective (sym red ∙ h)) sound.0
      go (v ∷ rest) stack rec =
          let below : All Below (v ∷ rest) = subst (All Below) stack sound.1 in
          after below (visit defs v popped) refl
        where
          popped : Search
          popped = record { pending = rest; seen = s.seen }

          after :
              All Below (v ∷ rest)
              → (next : Result Fault Search) → visit defs v popped ≡ next
              → All (Refers defs start) found
          after below (raise e) visited =
              let red : search (suc fuel) defs s ≡ some (raise e) =
                rw (search, stack, visited) refl in
              absurd (cc (red, h))
          after below (ok t) visited =
              let red : search (suc fuel) defs s ≡ search fuel defs t =
                rw (search, stack, visited) refl in
              rec t (sym red ∙ h) (visit-IsSound v popped t below.0 visited (sound.0, below.1))

-- Every name that the search collects is one that the parameters refer to.
pub references_of-Refers :
    (defs : Fields) (params : Value) (found : List Text)
    → references_of defs params ≡ some (ok found)
    → All (Refers defs params) found
unfolding references_of
references_of-Refers defs params found h =
    search-IsSound defs params (suc (size params + size_values defs))
      (record { pending = params ∷ []; seen = [] }) found h (tt, (λ q refers. refers, tt))
