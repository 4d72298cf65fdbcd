-- ===== src/Cache/Error.antt =====
-- crates/unixd-cache/src/error.rs: why a cache operation failed.
pub mod Texts
use unixd.Prelude.{ℕ, Bytes}

-- The `io::ErrorKind`s that the source tells apart, and the rest by a number.
pub data ErrorKind : Type 0 where
  not_found already_exists : ErrorKind
  other : ℕ → ErrorKind

pub data Error : Type 0 where
  unsafe_root : Error
  io : ErrorKind → Error
  lock : Error
  duplicate_key_part : Bytes → Error
  encode : Error
