-- ===== src/Prelude.antt =====
-- The names that the other modules share: the libraries', passed on, and those of the children.
mod Tests
mod Lists
mod Strings
mod Returns
mod Decimal
mod Splits
pub use Tests.*
pub use Lists.*
pub use Strings.{
  Text, codes, str_eq, member, text_eq, strip_prefix, strip_prefix-append, text_eq_refl, text_eq→eq,
}
unfoldable pub use Strings.{is_space, is_digit, join, starts_with, ends_with, last_segment}
pub use Returns.*
pub use Splits.{split-append, split-last, split-has}
unfoldable pub use Splits.{split}
pub use Decimal.{int-str, str-is_numeral, str-has}
unfoldable pub use Decimal.{int, str, is_numeral}
pub use Prim.Native.Nat.{ℕ, zero, suc, ◌+◌, ◌-◌, ◌*◌, ◌/◌, ◌%◌, ◌^◌, ◌≤◌, ◌<◌, min}
pub use Prim.Native.String.{String}
pub use mathlib.Core.Path.{◌≡◌, refl, sym, ap, ◌∙◌}
pub use mathlib.Core.Logic.{◌≢◌, ◌↔◌, ◌⊎◌, inl, inr}
pub use mathlib.Core.Bool.{Bool, true, false, not, ◌&&◌, ◌||◌}
pub use mathlib.Core.Option.{Option, none, some}
pub use mathlib.Core.List.{List, [], ◌∷◌, ◌++◌, map, append-nil, append_assoc}
pub use native.Mathlib.Omega.{arith}
pub use text.Mathlib.TextEquality.{eq_iff}
