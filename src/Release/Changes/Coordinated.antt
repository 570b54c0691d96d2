-- ===== src/Release/Changes/Coordinated.antt =====
-- version_changes of release.py, when it returns.
use samgita.Prelude.{
  Bool, true, false, String, Text, codes, text_eq→eq, if◌then◌else◌, ◌==◌, Result, ok, raise,
  >>=-eq-ok, List, [], ◌∷◌, ◌≡◌, refl, sym, ap, ◌∙◌, All, arith,
}
use mathlib.Core.Path.{subst}
use samgita.Json.{Fields}
use samgita.Release.Version.{Fault, Parts, version_parts, precedes}
use samgita.Release.Declarations.{pieces, versions_of, substitute, substitute-same}
use samgita.Release.Replace.{count, replace, replace-same}
use samgita.Release.Changes.{
  Manifest, Sources, Checkout, sources, siblings, canonical_of, expected, texts_eq,
  change_manifests, change_assets, requirement, source_of, put_source, change_sibling,
  change_siblings, Updates, version_changes,
}

texts_eq→eq : (ss ts : List Text) → texts_eq ss ts ≡ true → ss ≡ ts
unfolding texts_eq
texts_eq→eq [] [] h = refl
texts_eq→eq [] (t ∷ ts) h = ground arith
texts_eq→eq (s ∷ ss) [] h = ground arith
texts_eq→eq (s ∷ ss) (t ∷ ts) h = ground (arith, text_eq→eq s t, texts_eq→eq ss ts)

-- Every declaration of a manifest is the version given, as many times as that manifest has it.
abbrev pub Declares : Text → Manifest × Text → Type 0
Declares canonical (path, source) = versions_of (pieces source) ≡ expected path canonical

-- A check that passed, and the call behind it.
guarded-ok {ℓ} :
    {A : Type ℓ} (b : Bool) (call : Result Fault A) (e : Fault) {y : A}
    → ◌≡◌ {A = Result Fault A} (if b then call else raise e) (ok y)
    → (b ≡ true) × (call ≡ ok y)
guarded-ok true call e h = (refl, h)
guarded-ok false call e h = cc

unless-ok {ℓ} :
    {A : Type ℓ} (b : Bool) (call : Result Fault A) (e : Fault) {y : A}
    → ◌≡◌ {A = Result Fault A} (if b then raise e else call) (ok y)
    → (b ≡ false) × (call ≡ ok y)
unless-ok false call e h = (refl, h)
unless-ok true call e h = cc

change_manifests-first :
    (version canonical : Text) (path : Manifest) (source : Text) (rest new : Sources)
    → change_manifests version canonical ((path, source) ∷ rest) ≡ ok new
    → Declares canonical (path, source)
      × ((changed : Sources) × (change_manifests version canonical rest ≡ ok changed)
          × (new ≡ (path, substitute version source) ∷ changed))
unfolding change_manifests
change_manifests-first version canonical path source rest new h =
    let (same, call) =
      guarded-ok (texts_eq (versions_of (pieces source)) (expected path canonical)) _ _ h in
    let (changed, others, last) = >>=-eq-ok (change_manifests version canonical rest) _ call in
    (
      texts_eq→eq (versions_of (pieces source)) (expected path canonical) same,
      (changed, others, cc),
    )

change_manifests-Declares :
    (version canonical : Text) (old new : Sources)
    → change_manifests version canonical old ≡ ok new
    → All (Declares canonical) old
change_manifests-Declares version canonical [] new h = tt
change_manifests-Declares version canonical ((path, source) ∷ rest) new h =
    let (declares, (changed, others, form)) =
      change_manifests-first version canonical path source rest new h in
    (declares, change_manifests-Declares version canonical rest changed others)

All-expected :
    (path : Manifest) (canonical : Text) → All (λ v. v ≡ canonical) (expected path canonical)
unfolding expected
All-expected Manifest.umbrella canonical = (refl, (refl, tt))
All-expected (Manifest.app name) canonical = (refl, tt)

change_manifests-same :
    (canonical : Text) (old new : Sources)
    → change_manifests canonical canonical old ≡ ok new
    → new ≡ old
change_manifests-same canonical [] new h = unfold change_manifests in cc
change_manifests-same canonical ((path, source) ∷ rest) new h =
    let (declares, (changed, others, form)) =
      change_manifests-first canonical canonical path source rest new h in
    let kept : substitute canonical source ≡ source =
      substitute-same canonical source
        (subst (λ vs. All (λ v. v ≡ canonical) vs) (sym declares) (All-expected path canonical)) in
    cc (form, kept, change_manifests-same canonical rest changed others)

put_source-same :
    (path : Manifest) (source : Text) (updated : Sources)
    → source_of path updated ≡ ok source
    → put_source path source updated ≡ updated
unfolding put_source source_of
put_source-same path source [] h = refl
put_source-same path source ((p, old) ∷ rest) h = ground (arith, put_source-same path source rest)

change_sibling-same :
    (canonical : Text) (name dependency : String) (updated changed : Sources)
    → change_sibling canonical canonical name dependency updated ≡ ok changed
    → changed ≡ updated
unfolding change_sibling
change_sibling-same canonical name dependency updated changed h =
    let (source, read, call) = >>=-eq-ok (source_of (Manifest.app name) updated) _ h in
    let (once, last) = guarded-ok (count (requirement dependency canonical) source == 1) _ _ call in
    let kept : replace (requirement dependency canonical) (requirement dependency canonical) source
        ≡ source =
      replace-same (requirement dependency canonical) source (unfold requirement in omega arith) in
    cc (last, kept, put_source-same (Manifest.app name) source updated read)

change_siblings-same :
    (canonical : Text) (pairs : List (String × String)) (updated changed : Sources)
    → change_siblings canonical canonical pairs updated ≡ ok changed
    → changed ≡ updated
unfolding change_siblings
change_siblings-same canonical [] updated changed h = cc
change_siblings-same canonical ((name, dependency) ∷ rest) updated changed h =
    let (next, first, call) =
      >>=-eq-ok (change_sibling canonical canonical name dependency updated) _ h in
    change_siblings-same canonical rest next changed call
    ∙ change_sibling-same canonical name dependency updated next first

-- The parts of a call that returned.
abbrev Returned : Checkout → String → Updates → Text → Type 0
Returned checkout version updates canonical =
    (requested : Parts) × (current : Parts) × (changed : Sources) × (version_parts (codes version)
      ≡ ok requested)
    × (version_parts canonical ≡ ok current)
    × (precedes requested current ≡ false)
    × (change_manifests (codes version) canonical (sources checkout) ≡ ok changed)
    × (change_siblings (codes version) canonical siblings changed ≡ ok updates.manifests)

returned_manifests :
    {manifests : Sources} {assets : List (String × Fields)} {updates : Updates}
    → ◌≡◌ {A = Result Fault Updates}
        (ok (record { manifests = manifests; assets = assets }))
        (ok updates)
    → ◌≡◌ {A = Result Fault Sources} (ok manifests) (ok updates.manifests)
returned_manifests h = ap (λ result. elim result [ ok u ↦ ok u.manifests | raise e ↦ raise e ]) h

version_changes-Returned :
    (checkout : Checkout) (version : String) (updates : Updates)
    → version_changes checkout version ≡ ok updates
    → (canonical : Text) × (canonical_of checkout ≡ ok canonical)
      × Returned checkout version updates canonical
unfolding version_changes
version_changes-Returned checkout version updates h =
    let (requested, r, h1) = >>=-eq-ok (version_parts (codes version)) _ h in
    let (canonical, c, h2) = >>=-eq-ok (canonical_of checkout) _ h1 in
    let (current, p, h3) = >>=-eq-ok (version_parts canonical) _ h2 in
    let (order, h4) = unless-ok (precedes requested current) _ _ h3 in
    let (changed, m, h5) =
      >>=-eq-ok (change_manifests (codes version) canonical (sources checkout)) _ h4 in
    let (assets, a, h6) =
      >>=-eq-ok (change_assets version canonical checkout.package_json checkout.apps) _ h5 in
    let (manifests, s, h7) =
      >>=-eq-ok (change_siblings (codes version) canonical siblings changed) _ h6 in
    (canonical, c, (requested, current, changed, r, p, order, m, s ∙ returned_manifests h7))

-- When version_changes returns, both versions are of the form M.N.P, the requested one does not precede
-- the current one, and each manifest declares the current one, the root twice and each app once.
pub version_changes-IsCoordinated :
    (checkout : Checkout) (version : String) (updates : Updates)
    → version_changes checkout version ≡ ok updates
    → (canonical : Text) × (requested : Parts) × (current : Parts) × (version_parts (codes version)
        ≡ ok requested)
      × (version_parts canonical ≡ ok current)
      × (precedes requested current ≡ false)
      × All (Declares canonical) (sources checkout)
version_changes-IsCoordinated checkout version updates h =
    let (canonical, c, (requested, current, changed, r, p, order, m, s)) =
      version_changes-Returned checkout version updates h in
    (
      canonical,
      requested,
      current,
      r,
      p,
      order,
      change_manifests-Declares (codes version) canonical (sources checkout) changed m,
    )

-- When version_changes returns for the version that mix.exs declares first, every manifest is to be written
-- back as it was read.
pub version_changes-same :
    (checkout : Checkout) (version : String) (updates : Updates)
    → version_changes checkout version ≡ ok updates
    → canonical_of checkout ≡ ok (codes version)
    → updates.manifests ≡ sources checkout
version_changes-same checkout version updates h k =
    let (canonical, c, (requested, current, changed, r, p, order, m, s)) =
      version_changes-Returned checkout version updates h in
    let same : canonical ≡ codes version = cc (c, k) in
    let m' : change_manifests (codes version) (codes version) (sources checkout) ≡ ok changed =
      cc (m, same) in
    let s' : change_siblings (codes version) (codes version) siblings changed
        ≡ ok updates.manifests =
      cc (s, same) in
    change_siblings-same (codes version) siblings changed updates.manifests s'
    ∙ change_manifests-same (codes version) (sources checkout) changed m'
