-- ===== src/Text.antt =====
-- The functions of Go's package strings that the program calls, over texts as lists of bytes.
mod Space
mod Search
mod Decimal
pub mod FilePaths
pub mod Numerals
pub mod Lacks
unfoldable pub use Decimal.{itoa, itoa_int}
unfoldable pub use FilePaths.{is_abs, clean, join_paths, dir, base}
unfoldable pub use Numerals.{negative, parse_int, parse_bool}
unfoldable pub use Space.{trim_space}
unfoldable pub use Search.{
  Text, codes, cut_prefix, has_prefix, trim_prefix, contains, contains_byte, contains_any,
  replace_byte, extend, split, join, trim_right,
}
