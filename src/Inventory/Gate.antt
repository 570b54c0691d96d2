-- ===== src/Inventory/Gate.antt =====
-- The checks that `main` of inventory.py makes of both sections of the manifest.
use samgita.Prelude.{
  Bool, true, false, none, some, String, str_eq, member, if◌then◌else◌, ◌&&◌, not, ◌≡◌, refl, List,
  [], ◌∷◌, map, arith, eq_iff, All, Result, ok, raise, ◌>>=◌, ◌>>◌, >>=-eq-ok, ap, sym, ◌∙◌,
}
use samgita.Json.{Value, null, boolean, number, negative, text, list, dict, Fields, get, truthy}
use samgita.Inventory.Progress.{Row}

pub data Refusal : Type 0 where
  duplicate_ids : (section : String) → Refusal
  unknown_state : (id : String) → Refusal
  lacks_evidence : (id : String) → Refusal
  unverified : (section : String) → Refusal
  key_error : (key : String) → Refusal
  type_error : Refusal

-- value[key]
index : String → Value → Result Refusal Value
index key (dict fields) = elim (get key fields) [ none ↦ raise (key_error key) | some v ↦ ok v ]
index key _ = raise type_error

-- len(ids) == len(set(ids))
abbrev pub distinct : List String → Bool
distinct [] = true
distinct (id ∷ ids) = not (member id ids) && distinct ids

abbrev states : List String
states = "missing" ∷ "implemented" ∷ "verified" ∷ "blocked" ∷ []

-- A list or a dict has no hash, so it cannot be looked up in a set.
known_state : Value → Result Refusal Bool
known_state (text s) = ok (member s states)
known_state (list xs) = raise type_error
known_state (dict fields) = raise type_error
known_state _ = ok false

is_verified : Value → Bool
is_verified (text s) = str_eq s "verified"
is_verified _ = false

require : Bool → Refusal → Result Refusal (Unit {0})
require true e = ok tt
require false e = raise e

-- `not row["evidence"] or not row["tests"]["verified"]`, negated.
has_evidence : Fields → Result Refusal Bool
unfolding index
has_evidence fields = do
  evidence ← index "evidence" (dict fields)
  if truthy evidence
      then (do tests ← index "tests" (dict fields); done ← index "verified" tests; ok (truthy done))
      else ok false

check_row : Row → Result Refusal (Unit {0})
unfolding index known_state require is_verified has_evidence
check_row row = do
  state ← index "state" (dict row.fields)
  known ← known_state state
  require known (unknown_state row.id)
  if is_verified state
      then (do evidence ← has_evidence row.fields; require evidence (lacks_evidence row.id))
      else ok tt

check_rows : List Row → Result Refusal (Unit {0})
unfolding check_row
check_rows [] = ok tt
check_rows (row ∷ rows) = do check_row row; check_rows rows

-- `all(row["state"] == "verified" for row in rows)`
all_verified : List Row → Result Refusal Bool
unfolding index is_verified
all_verified [] = ok true
all_verified (row ∷ rows) = do
  let rest = all_verified rows
  state ← index "state" (dict row.fields)
  if is_verified state then rest else ok false

check_section : (require_verified : Bool) → String → List Row → Result Refusal (Unit {0})
unfolding check_rows all_verified require
check_section require_verified section rows = do
  require (distinct (map (λ r. r.id) rows)) (duplicate_ids section)
  check_rows rows
  if require_verified
      then (do done ← all_verified rows; require done (unverified section))
      else ok tt

unfoldable pub gate :
    (require_verified : Bool) → List (String × List Row) → Result Refusal (Unit {0})
unfolding check_section
gate require_verified [] = ok tt
gate require_verified ((section, rows) ∷ sections) = do
  check_section require_verified section rows
  gate require_verified sections

-- What a verified row shows: its state, and something under "evidence" and under "tests"/"verified".
pub record IsVerified (row : Row) : Type 0 where
  pub evidence : Value
  pub tests : Fields
  pub verified_tests : Value
  pub state_verified : get "state" row.fields ≡ some (text "verified")
  pub has_evidence_value : get "evidence" row.fields ≡ some evidence
  pub evidence_truthy : truthy evidence ≡ true
  pub has_tests : get "tests" row.fields ≡ some (dict tests)
  pub has_verified : get "verified" tests ≡ some verified_tests
  pub verified_truthy : truthy verified_tests ≡ true

ok-injective {ℓ} : {A : Type ℓ} {a b : A} → ◌≡◌ {A = Result Refusal A} (ok a) (ok b) → a ≡ b
ok-injective h = cc

index-ok :
    (key : String) (fields : Fields) (v : Value)
    → index key (dict fields) ≡ ok v
    → get key fields ≡ some v
unfolding index
index-ok key fields v h = ground arith

index-dict :
    (key : String) (value v : Value)
    → index key value ≡ ok v
    → (fields : Fields) × (value ≡ dict fields) × (get key fields ≡ some v)
index-dict key (dict fields) v h = (fields, refl, index-ok key fields v h)
index-dict key null v h = unfold index in cc
index-dict key (boolean b) v h = unfold index in cc
index-dict key (number n) v h = unfold index in cc
index-dict key (negative n) v h = unfold index in cc
index-dict key (text s) v h = unfold index in cc
index-dict key (list xs) v h = unfold index in cc

require-ok : (b : Bool) (e : Refusal) → require b e ≡ ok tt → b ≡ true
unfolding require
require-ok b e h = ground arith

is_verified-text : (v : Value) → is_verified v ≡ true → v ≡ text "verified"
unfolding is_verified
is_verified-text (text s) h = ap text ((eq_iff s "verified").0 h)
is_verified-text null h = cc
is_verified-text (boolean b) h = cc
is_verified-text (number n) h = cc
is_verified-text (negative n) h = cc
is_verified-text (list xs) h = cc
is_verified-text (dict fs) h = cc

if-ok :
    (b : Bool) (m : Result Refusal Bool)
    → (if b then m else ok false) ≡ ok true
    → (b ≡ true) × (m ≡ ok true)
if-ok true m h = (refl, h)
if-ok false m h = cc

has_evidence-true :
    (row : Row)
    → get "state" row.fields ≡ some (text "verified")
    → has_evidence row.fields ≡ ok true
    → IsVerified row
unfolding has_evidence
has_evidence-true row s h =
    let (evidence, e, k) = >>=-eq-ok (index "evidence" (dict row.fields)) _ h in
    let (t, k') = if-ok (truthy evidence) _ k in
    let (tests, e', k'') = >>=-eq-ok (index "tests" (dict row.fields)) _ k' in
    let (done, e'', d) = >>=-eq-ok (index "verified" tests) _ k'' in
    let (fields, is_dict, found) = index-dict "verified" tests done e'' in
    record {
      evidence = evidence;
      tests = fields;
      verified_tests = done;
      state_verified = s;
      has_evidence_value = index-ok "evidence" row.fields evidence e;
      evidence_truthy = t;
      has_tests = index-ok "tests" row.fields tests e' ∙ ap some is_dict;
      has_verified = found;
      verified_truthy = ok-injective d;
    }

row-IsVerified :
    (row : Row) (state : Value)
    → index "state" (dict row.fields) ≡ ok state
    → is_verified state ≡ true
    → check_row row ≡ ok tt
    → IsVerified row
unfolding check_row
row-IsVerified row state i v h =
    let s = index-ok "state" row.fields state i ∙ ap some (is_verified-text state v) in
    let (st, e, k) = >>=-eq-ok (index "state" (dict row.fields)) _ h in
    let (known, e', k') = >>=-eq-ok (known_state st) _ k in
    let (u, e'', k'') = >>=-eq-ok (require known (unknown_state row.id)) _ k' in
    let same : st ≡ state = ok-injective (sym e ∙ i) in
    let body = rw (same, v) at k'' in
    let (b, e3, r) = >>=-eq-ok (has_evidence row.fields) _ body in
    has_evidence-true row s (e3 ∙ ap ok (require-ok b _ r))

rows-IsVerified :
    (rows : List Row) → check_rows rows ≡ ok tt → all_verified rows ≡ ok true → All IsVerified rows
unfolding check_rows all_verified
rows-IsVerified [] h k = tt
rows-IsVerified (row ∷ rows) h k =
    let (u, c, more) = >>=-eq-ok (check_row row) _ h in
    let (state, e, b) = >>=-eq-ok (index "state" (dict row.fields)) _ k in
    let (v, rest) = if-ok (is_verified state) (all_verified rows) b in
    (row-IsVerified row state e v c, rows-IsVerified rows more rest)

abbrev pub IsComplete : String × List Row → Type 0
IsComplete section = (distinct (map (λ r. r.id) section.1) ≡ true) × All IsVerified section.1

check_section-IsComplete :
    (name : String) (rows : List Row)
    → check_section true name rows ≡ ok tt
    → IsComplete (name, rows)
unfolding check_section
check_section-IsComplete name rows h =
    let (u, d, k) =
      >>=-eq-ok (require (distinct (map (λ r. r.id) rows)) (duplicate_ids name)) _ h in
    let (u', c, k') = >>=-eq-ok (check_rows rows) _ k in
    let (b, a, r) = >>=-eq-ok (all_verified rows) _ k' in
    (require-ok _ _ d, rows-IsVerified rows c (a ∙ ap ok (require-ok b _ r)))

-- When the full-compatibility gate passes, in every section the ids differ, and every row is in the
-- state "verified" with something under "evidence" and under "tests"/"verified".
pub gate-IsComplete :
    (sections : List (String × List Row)) → gate true sections ≡ ok tt → All IsComplete sections
unfolding gate
gate-IsComplete [] h = tt
gate-IsComplete ((name, rows) ∷ sections) h =
    let (u, s, more) = >>=-eq-ok (check_section true name rows) _ h in
    (check_section-IsComplete name rows s, gate-IsComplete sections more)
