-- ===== src/Base.antt =====
-- The names that the other modules share: the libraries', passed on, and those of the children.
mod Tests
mod Int
mod Lists
mod Strings
mod Hash
mod Sort
mod Members
mod Order
pub use Tests.*
pub use Int.*
pub use Lists.*
pub use Strings.*
pub use Hash.*
pub use Sort.*
pub use Members.*
pub use Order.*
unfoldable pub use Strings.{
  text_beq, is_whitespace, trim_start_by, trim_end_by, trim_end, trim, trim_end_slashes,
  ascii_upper, ascii_lower, to_ascii_uppercase, to_ascii_lowercase, eq_ignore_ascii_case, text_ltb,
  contains_text,
}
unfoldable pub use Hash.{insert, retain, remove, extend, put, retain_keys, remove_key}
unfoldable pub use Sort.{insert_sorted, sort_by}
unfoldable pub use Int.{
  add_i64, sub_i64, saturating_sub, saturating_mul, div_euclid, rem_euclid, as_u8, mul_i64,
}
pub use Prim.Native.Nat.{
  ℕ, zero, suc, ◌+◌, ◌-◌, ◌*◌, ◌/◌, ◌%◌, ◌^◌, ◌≤◌, ◌<◌, min, max, compare, Ordering,
}
pub use mathlib.Core.Path.{◌≡◌, refl, sym, ap, ap₂, ◌∙◌, subst, fun_ext, ◌≡⟨◌⟩◌, ◌∎}
pub use mathlib.Core.Logic.{◌≢◌, ◌↔◌, ◌⊎◌, inl, inr}
pub use mathlib.Core.Bool.{Bool, true, false, not, ◌&&◌, ◌||◌}
pub use mathlib.Core.Option.{Option, none, some}
pub use mathlib.Core.List.{List, [], ◌∷◌, ◌++◌, map, reverse, map-append, append-nil, append_assoc}
pub use native.Mathlib.Omega.{arith}
