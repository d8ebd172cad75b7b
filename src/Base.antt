-- ===== src/Base.antt =====
-- Names that the other modules share: the libraries', passed on, and those of the child modules.
mod Tests
mod Lists
mod ByteStrings
mod Assoc
mod Text
mod Decimal
mod Int
mod Sort
mod FilePath
pub use Tests.*
pub use Lists.*
pub use ByteStrings.*
pub use Assoc.*
pub use Text.*
pub use Decimal.*
pub use Int.*
pub use Sort.*
pub use FilePath.*
unfoldable pub use Int.{int32, atoi, itoa}
unfoldable pub use Sort.{leb_bytes, insert_sorted, sort_strings}
unfoldable pub use FilePath.{is_abs, clean, join_path, ext_from, ext}
unfoldable pub use Text.{
  trim_left, trim_space, has_prefix, contains, cut_prefix, trim_prefix, split, join, after_last,
  fields, rune_text,
}
unfoldable pub use Decimal.{format_uint, scan_digits, parse_uint, parse_magnitude}
unfoldable pub use ByteStrings.{beq}
unfoldable pub use Assoc.{lookup, insert, delete}
pub use Prim.Native.Nat.{ℕ, zero, suc, ◌+◌, ◌-◌, ◌*◌, ◌/◌, ◌%◌, ◌^◌, ◌≤◌, ◌<◌}
pub use mathlib.Core.Path.{◌≡◌, refl, sym, ap, ◌∙◌}
pub use mathlib.Core.Logic.{◌≢◌, ◌↔◌, ◌⊎◌, inl, inr}
pub use mathlib.Core.Bool.{Bool, true, false, not, ◌&&◌, ◌||◌}
pub use mathlib.Core.Option.{Option, none, some}
pub use mathlib.Core.List.{List, [], ◌∷◌, ◌++◌, map, append-nil, append_assoc}
pub use native.Mathlib.Omega.{arith}
