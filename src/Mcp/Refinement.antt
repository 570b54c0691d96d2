-- ===== src/Mcp/Refinement.antt =====
-- The fixture against the abstract machine of its journal: what a row has to do.
mod Rows
pub mod Runs
use samgita.Prelude.{
  ℕ, suc, ◌+◌, ◌≡◌, refl, sym, ap, ◌∙◌, Bool, true, false, Option, none, some, String, List, [],
  ◌∷◌, ◌++◌, any, length, length-append, ◌||◌, ◌==◌, arith, str_eq, Bool-cases, inl, inr,
}
use samgita.Json.{Value, text, dict, Fields}
use samgita.Mcp.Fixture.{Fixture, Event, append}
use samgita.Mcp.Operations.{is_primed_apps, is_primed_oauth}
use samgita.Mcp.Replay.{
  View, blank, kind_of, next_view, allows, allowed, replay, accepts, replay-append, accepts-append,
}

-- What the state tells of the abstract machine.
registration_view : Option Fields → Option Value
registration_view none = none
registration_view (some request) = some (dict request)

unfoldable pub view_of : Fixture → View
unfolding registration_view
view_of s = record {
  count = length s.journal;
  primed_oauth = any is_primed_oauth s.journal;
  primed_apps = any is_primed_apps s.journal;
  generation = s.generation;
  discovery = text s.oauth_discovery;
  revocation = s.oauth_access_revoked;
  recovery = s.oauth_recovery_issued;
  registration = registration_view s.registration;
  is_held = s.initialize_held;
  is_finished = s.initialize_finished;
  unfinished = length s.initialize_waiting;
  is_armed = s.apps_hold_enabled;
  is_apps_held = s.apps_initialize_held;
  is_apps_finished = s.apps_initialize_finished;
  apps_unfinished = length s.apps_initialize_waiting;
  is_closed = s.closed;
}

-- The replay of the journal is the view of the state, and each row may stand where it stands.
abbrev pub Agrees : Fixture → Type 0
Agrees s = (replay s.journal blank ≡ view_of s) × (accepts s.journal blank ≡ true)

any-snoc : (p : Event → Bool) (es : List Event) (e : Event) → any p (es ++ e ∷ []) ≡ any p es || p e
any-snoc p [] e = ground arith
any-snoc p (d ∷ es) e = ground (arith, any-snoc p es e)

length-snoc {ℓ} : {A : Type ℓ} (es : List A) (e : A) → length (es ++ e ∷ []) ≡ suc (length es)
length-snoc es e = omega (arith, length-append es (e ∷ []))

or-false : (b : Bool) → (b || false) ≡ b
or-false b = ground arith

-- A row that the state and the machine agree on keeps the two in step.
refines-step :
    (s t : Fixture) (e : Event)
    → Agrees s
    → t.journal ≡ s.journal ++ e ∷ []
    → view_of t ≡ next_view e (view_of s)
    → allows e (view_of s) ≡ true
    → Agrees t
refines-step s t e h journal view ok = (
  ap (λ es. replay es blank) journal
      ∙ replay-append s.journal e blank
      ∙ ap (next_view e) h.0
      ∙ sym view,
  ap (λ es. accepts es blank) journal
      ∙ accepts-append s.journal e blank h.1 (ap (allows e) h.0 ∙ ok),
)

view-row :
    (s : Fixture) (e : Event)
    → is_primed_oauth e ≡ false
    → is_primed_apps e ≡ false
    → view_of (record s { journal = s.journal ++ e ∷ [] })
      ≡ record (view_of s) { count = suc (length s.journal) }
unfolding view_of
view-row s e oauth apps =
    rw (length-snoc, any-snoc is_primed_oauth, any-snoc is_primed_apps, oauth, apps)
      (rw (or-false (any is_primed_oauth s.journal), or-false (any is_primed_apps s.journal)) refl)

same-count : (n : ℕ) → (n == n) ≡ true
same-count n = ground arith

not-mcp : (name : String) → kind_of name ≡ none → (str_eq name "mcp") ≡ false
unfolding kind_of
not-mcp name h = elim (Bool-cases (str_eq name "mcp")) [
  | inl same ↦ absurd (ground (arith, (rw same at h)))
  | inr other ↦ other
]

notes-Agrees :
    (s : Fixture) (name : String) (details : Fields)
    → kind_of name ≡ none
    → Agrees s
    → Agrees (append name details s)
unfolding append view_of
notes-Agrees s name details neutral h =
    let e : Event = record { seq = length s.journal; name = name; details = details } in
    let other = not-mcp name neutral in
    refines-step s (append name details s) e h refl
      (view-row s e (unfold is_primed_oauth in rw other refl)
          (unfold is_primed_apps in rw other refl)
        ∙ sym (unfold next_view view_of in rw neutral refl))
      (unfold allows in rw (same-count (length s.journal), neutral) refl)

-- The new state, up to the fields that the row changes, has the view of the old one and one row more.
row-view :
    (s : Fixture) (name : String) (details : Fields)
    → (str_eq name "mcp") ≡ false
    → view_of (append name details s) ≡ record (view_of s) { count = suc (length s.journal) }
unfolding append is_primed_oauth is_primed_apps
row-view s name details other =
    view-row s (record { seq = length s.journal; name = name; details = details }) (rw other refl)
      (rw other refl)

-- The same for a row that changes a flag: `f` is its change of the view.
row-Agrees :
    (s t : Fixture) (name : String) (details : Fields) (f : View → View)
    → (str_eq name "mcp") ≡ false
    → Agrees s
    → t.journal ≡ (append name details s).journal
    → view_of t ≡ f (view_of (append name details s))
    → next_view (record { seq = length s.journal; name = name; details = details }) (view_of s)
      ≡ f (record (view_of s) { count = suc (length s.journal) })
    → allowed
        (kind_of name)
        (record { seq = length s.journal; name = name; details = details })
        (view_of s)
      ≡ true
    → Agrees t
unfolding append view_of
row-Agrees s t name details f other h journal view stepped ok =
    let e : Event = record { seq = length s.journal; name = name; details = details } in
    refines-step s t e h journal (view ∙ ap f (row-view s name details other) ∙ sym stepped)
      (unfold allows in rw (same-count (length s.journal)) ok)
