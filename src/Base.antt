-- ===== src/Base.antt =====
-- The names that the modules of the worker share: the libraries', passed on, and those of the
-- children below (tests, lists, signed 64-bit integers, equality, Go maps).
mod Tests
mod Lists
mod Equality
mod Int
mod Word
mod GoMap
mod Bytes
mod Sums
pub use Tests.*
pub use Lists.*
pub use Equality.{
  elem, Eq, ◌==◌, nat_eq, bool_eq, list_eq, unit_eq, list_beq, list_beq_iff, ==_refl, eq_of_==,
  ==_of_ne, ne_of_==,
}
unfoldable pub use Equality.{count}
unfoldable pub use Sums.{total}
pub use Sums.{total-append, total-around}
pub use Int.{
  ℤ, pos, negsuc, pos_part, neg_part, sub_ℕ, ◌≤ℤ◌, ◌<ℤ◌, ltb_ℤ, leb_ℤ, int_eq, int_beq, int_beq_iff,
  ltb_ℤ_iff, leb_ℤ_iff, lt_suc_cases, leb_ℤ-false, +ℤ_parts, -ℤ_parts, eq_of_parts, int_laws,
}
unfoldable pub use Int.{◌+ℤ◌, ◌-ℤ◌}
unfoldable pub use Word.{add64, sub64, wrap64}
pub use Word.{InInt64, min_int64, max_int64, add64-eq, sub64-eq, add64-suc, sub64-pred}
unfoldable pub use GoMap.{lookup, insert, delete, contains, remap}
pub use GoMap.{
  Map, lookup-insert, lookup-delete, contains-insert, contains-delete, length-delete-lt,
  contains-eq-false, IsKeyed, insert-IsKeyed, delete-IsKeyed, lookup-insert_self,
  lookup-delete_self, lookup-remap, map_laws,
}
pub use Bytes.{Text, text, lower, to_lower, has_suffix-append, is_empty}
unfoldable pub use Bytes.{has_suffix, decimal, digits}
pub use Prim.Native.Nat.{ℕ, zero, suc, ◌+◌, ◌-◌, ◌*◌, ◌/◌, ◌%◌, ◌^◌, ◌≤◌, ◌<◌}
pub use mathlib.Core.Path.{◌≡◌, refl, sym, ap, subst, ◌∙◌}
pub use mathlib.Core.Logic.{◌≢◌, ◌↔◌, ◌⊎◌, inl, inr}
pub use mathlib.Core.Bool.{Bool, true, false, not, ◌&&◌, ◌||◌}
pub use mathlib.Core.Option.{Option, none, some}
pub use mathlib.Core.List.{List, [], ◌∷◌, ◌++◌, map}
pub use native.Mathlib.Omega.{arith}
