-- ===== src/Inventory/Alternatives.antt =====
-- What matching_variant finds for the alternative null.
use samgita.Prelude.{Bool-cases, inl, inr, ok, ◌≡◌, refl}
use samgita.Json.{null, list, Items}
use samgita.Inventory.Access.{member_of, contains}
use samgita.Inventory.Variants.{matching_variant}

-- The alternative null has no match, whether the older schema lists it or not.
pub matching_variant-null : (older : Items) → matching_variant null (list older) ≡ ok null
unfolding matching_variant contains
matching_variant-null older = elim (Bool-cases (member_of null older)) [
  | inl known ↦ rw (matching_variant, known) refl
  | inr new ↦ rw (matching_variant, new) refl
]
