-- ===== src/Input/Reach/Rounds.antt =====
-- request_methods: what a round of its search does to the names that are known.
use mathlib.Core.Path.{subst}
use samgita.Prelude.{
  ℕ, true, some, Text, text_eq, text_eq→eq, text_eq_refl, Result, ok, >>=-eq-ok, List, [], ◌∷◌, ◌≡◌,
  ◌⊎◌, refl, sym, ◌∙◌, arith, Bool-cases, Option-cases, inl, inr,
}
use samgita.Json.{Value, dict, list, Items, nil, cons, Fields, end, field}
use samgita.Input.Reach.{
  Fault, is_seen, definition_of, push_items, push_values, reference, Search, follow, visit,
}
use samgita.Input.Reach.Sound.{
  InFields, this_field, next_field, InItems, this_item, next_item, ok-injective, follow_fails,
}

-- A value has the name in a $ref of its own or in a value inside of it.
pub data Names : Value → Text → Type 0 where
  own : {fs : Fields} {c : ℕ} {r : Text} → reference fs ≡ ok (c ∷ r) → Names (dict fs) (c ∷ r)
  in_field : {fs : Fields} {v : Value} {q : Text} → InFields v fs → Names v q → Names (dict fs) q
  in_item : {vs : Items} {v : Value} {q : Text} → InItems v vs → Names v q → Names (list vs) q

abbrev pub Pends : Text → List Value → Type 0
Pends q [] = ⊥
Pends q (v ∷ vs) = Names v q ⊎ Pends q vs

-- A name is seen, or a pending value has it.
abbrev pub Known : Text → Search → Type 0
Known q s = (is_seen q s.seen ≡ true) ⊎ Pends q s.pending

push_values-keeps :
    (fs : Fields) (p : List Value) (q : Text) → Pends q p → Pends q (push_values fs p)
unfolding push_values
push_values-keeps end p q h = h
push_values-keeps (field k v fs) p q h = push_values-keeps fs (v ∷ p) q (inr h)

push_values-Pends :
    (fs : Fields) (p : List Value) (q : Text) (v : Value)
    → InFields v fs
    → Names v q
    → Pends q (push_values fs p)
unfolding push_values
push_values-Pends end p q v i h = elim i [ ]
push_values-Pends (field k _ fs) p q v this_field h = push_values-keeps fs (v ∷ p) q (inl h)
push_values-Pends (field k w fs) p q v (next_field i) h = push_values-Pends fs (w ∷ p) q v i h

push_items-keeps : (vs : Items) (p : List Value) (q : Text) → Pends q p → Pends q (push_items vs p)
unfolding push_items
push_items-keeps nil p q h = h
push_items-keeps (cons v vs) p q h = push_items-keeps vs (v ∷ p) q (inr h)

push_items-Pends :
    (vs : Items) (p : List Value) (q : Text) (v : Value)
    → InItems v vs
    → Names v q
    → Pends q (push_items vs p)
unfolding push_items
push_items-Pends nil p q v i h = elim i [ ]
push_items-Pends (cons _ vs) p q v this_item h = push_items-keeps vs (v ∷ p) q (inl h)
push_items-Pends (cons w vs) p q v (next_item i) h = push_items-Pends vs (w ∷ p) q v i h

-- Following a reference changes nothing, or makes a name seen and its definition pending.
follow-cases :
    (defs : Fields) (c : ℕ) (r : Text) (s t : Search)
    → follow defs (c ∷ r) s ≡ ok t
    → ((is_seen (c ∷ r) s.seen ≡ true) × (s ≡ t))
      ⊎ ((d : Value) × (definition_of (c ∷ r) defs ≡ some d)
          × (record { pending = d ∷ s.pending; seen = (c ∷ r) ∷ s.seen } ≡ t))
unfolding follow
follow-cases defs c r s t h = elim (Bool-cases (is_seen (c ∷ r) s.seen)) [
  | inl old ↦ inl (old, ok-injective (sym (rw (follow, old) refl) ∙ h))
  | inr new ↦ elim (Option-cases (definition_of (c ∷ r) defs)) [
    | inl missing ↦ absurd (follow_fails defs c r s t new missing h)
    | inr (d, found) ↦ inr (d, found, ok-injective (sym (rw (follow, new, found) refl) ∙ h))
  ]
]

-- What a step does to a search: known names stay known, and for a name that becomes seen the names in its
-- definition are known.
abbrev pub Advances : Fields → Search → Search → Type 0
Advances defs s t =
    ((q : Text) → Known q s → Known q t)
    × ((r : Text) (d : Value) (q : Text)
        → is_seen r t.seen ≡ true
        → definition_of r defs ≡ some d
        → Names d q
        → (is_seen r s.seen ≡ true) ⊎ Known q t)

stays-Advances : (defs : Fields) (s : Search) → Advances defs s s
stays-Advances defs s = ((λ q known. known), (λ r d q seen defined names. inl seen))

grows-Advances :
    (defs : Fields) (seen : List Text) (p p' : List Value)
    → ((q : Text) → Pends q p → Pends q p')
    → Advances defs (record { pending = p; seen = seen }) (record { pending = p'; seen = seen })
grows-Advances defs seen p p' keeps = (
  (λ q known. elim known [ inl h ↦ inl h | inr h ↦ inr (keeps q h) ]),
  (λ r d q h defined names. inl h),
)

Advances-trans :
    (defs : Fields) (s t u : Search) → Advances defs s t → Advances defs t u → Advances defs s u
Advances-trans defs s t u (more, fresh) (more', fresh') = (
  (λ q known. more' q (more q known)),
  (λ r d q seen defined names. elim (fresh' r d q seen defined names) [
    | inl old ↦ elim (fresh r d q old defined names) [
      | inl older ↦ inl older
      | inr known ↦ inr (more' q known)
    ]
    | inr known ↦ inr known
  ]),
)

seen-cons : (q r : Text) (seen : List Text) → is_seen q seen ≡ true → is_seen q (r ∷ seen) ≡ true
unfolding is_seen
seen-cons q r seen h = elim (Bool-cases (text_eq r q)) [
  | inl same ↦ rw same refl
  | inr other ↦ rw (other, h) refl
]

seen-first : (r : Text) (seen : List Text) → is_seen r (r ∷ seen) ≡ true
unfolding is_seen
seen-first r seen = rw (text_eq_refl r) refl

seen-or :
    (q r : Text) (seen : List Text)
    → is_seen q (r ∷ seen) ≡ true
    → (r ≡ q) ⊎ (is_seen q seen ≡ true)
unfolding is_seen
seen-or q r seen h = elim (Bool-cases (text_eq r q)) [
  | inl same ↦ inl (text_eq→eq r q same)
  | inr other ↦ inr (ground (arith, other, h))
]

define-Advances :
    (defs : Fields) (r : Text) (d : Value) (s : Search)
    → definition_of r defs ≡ some d
    → Advances defs s (record { pending = d ∷ s.pending; seen = r ∷ s.seen })
define-Advances defs r d s found = (more, fresh)
  where
    t : Search
    t = record { pending = d ∷ s.pending; seen = r ∷ s.seen }

    more : (q : Text) → Known q s → Known q t
    more q (inl seen) = inl (seen-cons q r s.seen seen)
    more q (inr pends) = inr (inr pends)

    fresh :
        (p : Text) (e : Value) (q : Text)
        → is_seen p t.seen ≡ true
        → definition_of p defs ≡ some e
        → Names e q
        → (is_seen p s.seen ≡ true) ⊎ Known q t
    fresh p e q seen defined names = elim (seen-or p r s.seen seen) [
      | inl same ↦
          let once : e ≡ d = cc (same, defined, found) in
          inr (inr (inl (subst (λ v. Names v q) once names)))
      | inr old ↦ inl old
    ]

follow-Advances :
    (defs : Fields) (r : Text) (s t : Search) → follow defs r s ≡ ok t → Advances defs s t
unfolding follow
follow-Advances defs [] s t h = subst (Advances defs s) (ok-injective h) (stays-Advances defs s)
follow-Advances defs (c ∷ r) s t h = elim (follow-cases defs c r s t h) [
  | inl (old, same) ↦ subst (Advances defs s) same (stays-Advances defs s)
  | inr (d, found, same) ↦ subst (Advances defs s) same (define-Advances defs (c ∷ r) d s found)
]

-- The reference that was followed is seen.
follow-seen :
    (defs : Fields) (c : ℕ) (r : Text) (s t : Search)
    → follow defs (c ∷ r) s ≡ ok t
    → is_seen (c ∷ r) t.seen ≡ true
follow-seen defs c r s t h = elim (follow-cases defs c r s t h) [
  | inl (old, same) ↦ subst (λ x. is_seen (c ∷ r) x.seen ≡ true) same old
  | inr (d, found, same) ↦
      subst (λ x. is_seen (c ∷ r) x.seen ≡ true) same (seen-first (c ∷ r) s.seen)
]

reference-injective : {a b : Text} → ◌≡◌ {A = Result Fault Text} (ok a) (ok b) → a ≡ b
reference-injective h = cc

dict-names :
    (defs : Fields) (fields : Fields) (s : Search) (q r : Text) (u : Search)
    → reference fields ≡ ok r
    → follow defs r s ≡ ok u
    → Names (dict fields) q
    → Known q (record { pending = push_values fields u.pending; seen = u.seen })
dict-names defs fields s q r u read followed (own {c = c} {r = r'} mine) =
    let same : r ≡ c ∷ r' = reference-injective (sym read ∙ mine) in
    inl (follow-seen defs c r' s u (subst (λ x. follow defs x s ≡ ok u) same followed))
dict-names defs fields s q r u read followed (in_field {v = v} i inside) =
    inr (push_values-Pends fields u.pending q v i inside)

-- A round loses no name of the value that it pops.
pub visit-names :
    (defs : Fields) (v : Value) (s t : Search) (q : Text)
    → visit defs v s ≡ ok t
    → Names v q
    → Known q t
unfolding visit
visit-names defs (dict fields) s t q h names =
    let (r, read, h1) = >>=-eq-ok (reference fields) _ h in
    let (u, followed, h2) = >>=-eq-ok (follow defs r s) _ h1 in
    subst (Known q) (ok-injective h2) (dict-names defs fields s q r u read followed names)
visit-names defs (list items) s t q h (in_item {v = v} i inside) =
    subst (Known q) (ok-injective h) (inr (push_items-Pends items s.pending q v i inside))
visit-names defs v s t q h names = elim names [ ]

pub visit-Advances :
    (defs : Fields) (v : Value) (s t : Search) → visit defs v s ≡ ok t → Advances defs s t
unfolding visit
visit-Advances defs (dict fields) s t h =
    let (r, read, h1) = >>=-eq-ok (reference fields) _ h in
    let (u, followed, h2) = >>=-eq-ok (follow defs r s) _ h1 in
    subst (Advances defs s) (ok-injective h2) (
      Advances-trans defs s u (record { pending = push_values fields u.pending; seen = u.seen })
        (follow-Advances defs r s u followed)
        (grows-Advances defs u.seen u.pending (push_values fields u.pending)
          (λ q pends. push_values-keeps fields u.pending q pends)))
visit-Advances defs (list items) s t h = subst (Advances defs s) (ok-injective h) (
    grows-Advances defs s.seen s.pending (push_items items s.pending)
      (λ q pends. push_items-keeps items s.pending q pends))
visit-Advances defs v s t h = subst (Advances defs s) (ok-injective h) (stays-Advances defs s)
