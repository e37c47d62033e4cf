-- ===== src/Common.antt =====
-- The names that the other modules share: the libraries', passed on, and those of the children.
mod Tests
mod Lists
mod Int
mod Outcome
mod Text
pub mod Decimal
pub use Tests.*
pub use Lists.*
unfoldable pub use Int.{◌+ℤ◌, ◌-ℤ◌, ◌*ℤ◌, mul64, quot, fdiv, wrap64, add64, sub64}
pub use Int.{
  ℤ, pos, negsuc, pos_part, neg_part, sub_ℕ, ◌≤ℤ◌, ◌<ℤ◌, ltb_ℤ, leb_ℤ, eq_ℤ, InI64, -ℤ_zero,
  +ℤ_parts, -ℤ_parts, eq_of_parts, int_laws, wrap64-id, add64-eq, sub64-eq, parts_normal,
  pos_part-eq,
}
pub use Outcome.*
unfoldable pub use Text.{bytes_eq, has_prefix, has_suffix, cut}
pub use Text.{
  Bytes, codes, bytes_eq_iff, bytes_eq_refl, cut-append, cut-some, cut-none, Lacks,
  has_suffix-append, All, All-append, All-drop_prefix,
}
pub use Prim.Native.Nat.{ℕ, zero, suc, ◌+◌, ◌-◌, ◌*◌, ◌/◌, ◌%◌, ◌^◌, ◌≤◌, ◌<◌}
pub use Prim.Native.String.{String}
pub use mathlib.Core.Path.{◌≡◌, refl, sym, ap, ap₂, ◌∙◌, subst}
pub use mathlib.Core.Logic.{◌≢◌, ◌↔◌, ◌⊎◌, inl, inr}
pub use mathlib.Core.Bool.{Bool, true, false, not, ◌&&◌, ◌||◌}
pub use mathlib.Core.Option.{Option, none, some}
pub use mathlib.Core.List.{List, [], ◌∷◌, ◌++◌, map, append-nil, append_assoc}
pub use native.Mathlib.Omega.{arith}
unfoldable pub use native.Mathlib.Decide.{dec_lt, ℕ_discrete}
