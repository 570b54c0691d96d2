-- ===== src/Inventory/Progress.antt =====
-- `merge_progress` of inventory.py: which fields of a generated row the recorded one keeps.
use samgita.Prelude.{
  Bool, true, false, Option, none, some, String, str_eq, member, if◌then◌else◌, ◌&&◌, ◌≡◌, refl,
  List, [], ◌∷◌, map, arith, eq_iff, Option-cases, inl, inr, ◌∙◌, All,
}
use samgita.Json.{Value, null, text, Fields, end, field, get, get_or}
use samgita.Json.Equality.{equal}

-- A row of the manifest: its id, and its other keys.
pub record Row : Type 0 where
  pub id : String
  pub fields : Fields

abbrev pub progress : List String
progress =
    "state" ∷ "evidence" ∷ "limitations" ∷ "implementation_module" ∷ "tests" ∷ "transport_coverage"
    ∷ []

-- row[key] = value
unfoldable pub assign : String → Value → Fields → Fields
assign key v end = field key v end
assign key v (field k w rest) =
    if str_eq k key then field key v rest else field k w (assign key v rest)

-- The dict of the recorded rows by id: of two rows with one id the later counts.
find_row : String → List Row → Option Fields
find_row id [] = none
find_row id (row ∷ rows) = elim (find_row id rows) [
  | none ↦ if str_eq row.id id then some row.fields else none
  | some found ↦ some found
]

-- old.get(row["id"], {})
previous_of : String → List Row → Fields
unfolding find_row
previous_of id rows = elim (find_row id rows) [ none ↦ end | some fields ↦ fields ]

-- row.update({key: previous[key] for key in PROGRESS if key in previous})
update_progress : List String → Fields → Fields → Fields
unfolding assign
update_progress [] previous fields = fields
update_progress (key ∷ keys) previous fields =
    update_progress keys previous
      (elim (get key previous) [ none ↦ fields | some v ↦ assign key v fields ])

same_under : String → Fields → Fields → Bool
same_under key previous fields = equal (get_or null key fields) (get_or null key previous)

same_contract : Fields → Fields → Bool
unfolding same_under
same_contract previous fields =
    same_under "schema_sha256" previous fields
    && same_under "native_output_sha256" previous fields
    && same_under "native_wire_name" previous fields

is_text : List String → Value → Bool
is_text names (text s) = member s names
is_text names _ = false

-- The names that a later layout of the repository gives to three modules.
new_module : Fields → String
unfolding is_text
new_module fields =
    let direction = get_or null "direction" fields in
    if is_text ("lifecycle_rule" ∷ "client_notification" ∷ "server_notification" ∷ []) direction
    then "SamgitaCodexDriver.Session"
    else if is_text ("response_error_envelope" ∷ []) direction
    then "SamgitaProtocolCodex.Wire"
    else "SamgitaProtocolCodex.Schema"

abbrev old_modules : List String
old_modules =
    "SamgitaProtocolCodex.Native" ∷ "SamgitaProtocolCodex.Native.Schema"
    ∷ "SamgitaProtocolCodex.Session" ∷ []

rename_module : Fields → Fields
unfolding is_text assign new_module
rename_module fields =
    if is_text old_modules (get_or null "implementation_module" fields)
    then assign "implementation_module" (text (new_module fields)) fields
    else fields

unfoldable pub merge_row : List Row → Row → Row
unfolding previous_of update_progress same_contract rename_module
merge_row recorded row =
    let previous = previous_of row.id recorded in
    if same_contract previous row.fields
    then record row { fields = rename_module (update_progress progress previous row.fields) }
    else row

-- One section of the manifest.
unfoldable pub merge_progress : List Row → List Row → List Row
unfolding merge_row
merge_progress recorded expected = map (merge_row recorded) expected

get-assign :
    (key j : String) (v : Value) (fields : Fields)
    → get j (assign key v fields) ≡ (if str_eq key j then some v else get j fields)
unfolding get assign
get-assign key j v end = refl
get-assign key j v (field k w rest) =
    ground (arith, eq_iff key j, eq_iff k key, eq_iff k j, get-assign key j v rest)

get-update_progress :
    (keys : List String) (j : String) (previous fields : Fields)
    → member j keys ≡ false
    → get j (update_progress keys previous fields) ≡ get j fields
unfolding update_progress
get-update_progress [] j previous fields h = refl
get-update_progress (key ∷ keys) j previous fields h = elim (Option-cases (get key previous)) [
  | inl missing ↦ rw missing (get-update_progress keys j previous fields (ground arith))
  | inr (v, found) ↦ rw found (
      get-update_progress keys j previous (assign key v fields) (ground arith)
      ∙ ground (arith, get-assign key j v fields, eq_iff j key, eq_iff key j))
]

get-if :
    (b : Bool) (j : String) (x y z : Fields)
    → get j x ≡ get j z
    → get j y ≡ get j z
    → get j (if b then x else y) ≡ get j z
get-if true j x y z h k = h
get-if false j x y z h k = k

get-rename_module :
    (j : String) (fields : Fields)
    → str_eq "implementation_module" j ≡ false
    → get j (rename_module fields) ≡ get j fields
unfolding rename_module
get-rename_module j fields h =
    get-if (is_text old_modules (get_or null "implementation_module" fields)) j _ fields fields
      (get-assign "implementation_module" j _ fields ∙ rw h) refl

not_progress : (j : String) → member j progress ≡ false → str_eq "implementation_module" j ≡ false
not_progress j h =
    ground (arith, eq_iff "implementation_module" j, eq_iff j "implementation_module")

get-merged_row :
    (b : Bool) (row : Row) (fields : Fields) (j : String)
    → get j fields ≡ get j row.fields
    → get j (if b then record row { fields = fields } else row).fields ≡ get j row.fields
get-merged_row true row fields j h = h
get-merged_row false row fields j h = refl

-- Outside the progress fields a row stays what the schema gives, whatever is recorded.
pub get-merge_row :
    (recorded : List Row) (row : Row) (j : String)
    → member j progress ≡ false
    → get j (merge_row recorded row).fields ≡ get j row.fields
unfolding merge_row
get-merge_row recorded row j h =
    get-merged_row (same_contract (previous_of row.id recorded) row.fields) row
      (rename_module (update_progress progress (previous_of row.id recorded) row.fields)) j
      (get-rename_module j _ (not_progress j h)
        ∙ get-update_progress progress j (previous_of row.id recorded) row.fields h)

abbrev OnFound : (Fields → Type 0) → Option Fields → Type 0
OnFound P none = Unit
OnFound P (some fields) = P fields

find_row-found :
    (P : Fields → Type 0) (id : String) (rows : List Row)
    → All (λ r. str_eq r.id id ≡ true → P r.fields) rows
    → OnFound P (find_row id rows)
unfolding find_row
find_row-found P id [] h = tt
find_row-found P id (row ∷ rows) h = later (find_row id rows) (find_row-found P id rows h.1)
  where
    here : (b : Bool) → str_eq row.id id ≡ b → OnFound P (if b then some row.fields else none)
    here true e = h.0 e
    here false e = tt

    later :
        (found : Option Fields)
        → OnFound P found
        → OnFound P (elim found [
          | none ↦ if str_eq row.id id then some row.fields else none
          | some fields ↦ some fields
        ])
    later none k = here (str_eq row.id id) refl
    later (some fields) k = k

previous_of-found :
    (P : Fields → Type 0) (id : String) (rows : List Row)
    → P end
    → All (λ r. str_eq r.id id ≡ true → P r.fields) rows
    → P (previous_of id rows)
unfolding previous_of
previous_of-found P id rows e h = pick (find_row id rows) (find_row-found P id rows h)
  where
    pick :
        (found : Option Fields)
        → OnFound P found
        → P (elim found [ none ↦ end | some fields ↦ fields ])
    pick none k = e
    pick (some fields) k = k

abbrev pub sha_of : Fields → Value
sha_of fields = get_or null "schema_sha256" fields

-- A row whose schema is new, or differs from every recorded row of that id, keeps its fresh fields:
-- it inherits no state and no evidence.
pub merge_row-fresh :
    (recorded : List Row) (row : Row) (sha : String)
    → sha_of row.fields ≡ text sha
    → All (λ r. str_eq r.id row.id ≡ true → equal (text sha) (sha_of r.fields) ≡ false) recorded
    → merge_row recorded row ≡ row
unfolding merge_row
merge_row-fresh recorded row sha e h =
    let differs =
      previous_of-found (λ previous. equal (text sha) (sha_of previous) ≡ false) row.id recorded
        (unfold get equal in refl) h in
    rw (e, differs)
