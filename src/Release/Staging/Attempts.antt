-- ===== src/Release/Staging/Attempts.antt =====
-- Effects attempted one after the other, of release.py's prepare.
use samgita.Prelude.{
  ℕ, Bool, true, false, none, some, String, List, [], ◌∷◌, ◌++◌, ◌≡◌, ◌⊎◌, inl, inr, refl, All,
  All-append, append_assoc, append-nil, map, Bool-cases, length, sym, ◌∙◌, ap,
}
use mathlib.Core.Path.{subst}
use samgita.Release.Version.{Fault, os_error}
use samgita.Release.Staging.{
  Effect, write_manifest, write_asset, Run, Disk, attempt, attempt_all, refuse, copy,
}

-- An effect on the output directory, and none on the checkout.
abbrev pub is_staging : Effect → Bool
is_staging (write_manifest path source) = false
is_staging (write_asset name metadata) = false
is_staging _ = true

abbrev pub Stages : List Effect → Type 0
Stages log = All (λ e. is_staging e ≡ true) log

-- Everything planned was done, or something was raised; and nothing else than staging was attempted.
abbrev pub IsStaged : List Effect → Run → Type 0
IsStaged planned r =
    Stages r.log
    × (((r.raised ≡ none) × (r.log ≡ planned)) ⊎ ((fault : Fault) × (r.raised ≡ some fault)))

pub attempt-IsStaged :
    (fails : ℕ → Bool) (e : Effect) (planned : List Effect) (r : Run)
    → is_staging e ≡ true
    → IsStaged planned r
    → IsStaged (planned ++ e ∷ []) (attempt fails e r)
unfolding attempt
attempt-IsStaged fails e planned r staging (stages, inr (fault, raised)) =
    rw raised (stages, inr (fault, refl))
attempt-IsStaged fails e planned r staging (stages, inl (going, same)) = rw going (
  All-append (λ x. is_staging x ≡ true) r.log (e ∷ []) stages (staging, tt),
  elim (Bool-cases (fails (length r.log))) [
    | inl failed ↦ inr (os_error, rw failed refl)
    | inr fine ↦ inl (rw fine refl, rw same refl)
  ],
)

pub attempt_all-IsStaged :
    (fails : ℕ → Bool) (es planned : List Effect) (r : Run)
    → Stages es
    → IsStaged planned r
    → IsStaged (planned ++ es) (attempt_all fails es r)
unfolding attempt_all
attempt_all-IsStaged fails [] planned r h k = rw (append-nil planned) k
attempt_all-IsStaged fails (e ∷ es) planned r (h, hs) k =
    subst (λ p. IsStaged p (attempt_all fails es (attempt fails e r)))
      (append_assoc planned (e ∷ []) es)
      (attempt_all-IsStaged fails es (planned ++ e ∷ []) (attempt fails e r) hs
        (attempt-IsStaged fails e planned r h k))

pub refuse-IsStaged :
    (fault : Fault) (planned other : List Effect) (r : Run)
    → IsStaged planned r
    → IsStaged other (refuse fault r)
unfolding refuse
refuse-IsStaged fault planned other r (stages, inl (going, same)) =
    rw going (stages, inr (fault, refl))
refuse-IsStaged fault planned other r (stages, inr (earlier, raised)) =
    rw raised (stages, inr (earlier, refl))

pub copies-Stages :
    (disk : Disk) (name : String) (files : List String) → Stages (map (copy disk name) files)
unfolding copy
copies-Stages disk name [] = tt
copies-Stages disk name (item ∷ files) = (
  elim (Bool-cases (disk.is_dir name item)) [ inl d ↦ rw d refl | inr f ↦ rw f refl ],
  copies-Stages disk name files,
)

-- What attempting a list of effects adds: the first of them, up to one that fails; all if none does.
abbrev pub Attempted : List Effect → List Effect → Run → Type 0
Attempted before es r =
    (tried : List Effect) × (left : List Effect) × (es ≡ tried ++ left)
    × (r.log ≡ before ++ tried)
    × ((left ≡ []) ⊎ ((fault : Fault) × (r.raised ≡ some fault)))

attempt-raised :
    (fails : ℕ → Bool) (e : Effect) (r : Run) (fault : Fault)
    → r.raised ≡ some fault
    → attempt fails e r ≡ r
unfolding attempt
attempt-raised fails e r fault h = rw h refl

pub attempt_all-raised :
    (fails : ℕ → Bool) (es : List Effect) (r : Run) (fault : Fault)
    → r.raised ≡ some fault
    → attempt_all fails es r ≡ r
unfolding attempt_all
attempt_all-raised fails [] r fault h = refl
attempt_all-raised fails (e ∷ es) r fault h =
    ap (λ x. attempt_all fails es x) (attempt-raised fails e r fault h)
    ∙ attempt_all-raised fails es r fault h

attempt-going :
    (fails : ℕ → Bool) (e : Effect) (r : Run)
    → r.raised ≡ none
    → ((attempt fails e r).log ≡ r.log ++ e ∷ [])
      × (((attempt fails e r).raised ≡ some os_error) ⊎ ((attempt fails e r).raised ≡ none))
unfolding attempt
attempt-going fails e r h = rw h (
  refl,
  elim (Bool-cases (fails (length r.log))) [
    | inl failed ↦ inl (rw failed refl)
    | inr fine ↦ inr (rw fine refl)
  ],
)

pub attempt_all-Attempted :
    (fails : ℕ → Bool) (es : List Effect) (r : Run)
    → r.raised ≡ none
    → Attempted r.log es (attempt_all fails es r)
unfolding attempt_all
attempt_all-Attempted fails [] r h = ([], [], refl, sym (append-nil r.log), inl refl)
attempt_all-Attempted fails (e ∷ es) r h =
    let (logged, outcome) = attempt-going fails e r h in
    elim outcome [
      | inl failed ↦
          let stopped = attempt_all-raised fails es (attempt fails e r) os_error failed in
          (
            e ∷ [],
            es,
            refl,
            ap (λ x. x.log) stopped ∙ logged,
            inr (os_error, ap (λ x. x.raised) stopped ∙ failed),
          )
      | inr fine ↦
          let (tried, left, form, last, all_done) =
            attempt_all-Attempted fails es (attempt fails e r) fine in
          (
            e ∷ tried,
            left,
            ap (λ x. e ∷ x) form,
            last ∙ ap (λ x. x ++ tried) logged ∙ append_assoc r.log (e ∷ []) tried,
            all_done,
          )
    ]
