-- ===== src/PathBuf.antt =====
-- `Path::join`, `Path::is_absolute` and `Path::parent` of the standard library on Unix, on a path's bytes, as
-- crates/unixd/src/install.rs and crates/unixd-cache/src/cache.rs use them.
use unixd.Prelude.{
  Option, none, some, Bool, false, [], ◌∷◌, ◌++◌, Bytes, nat_eq, ◌==◌, if◌then◌else◌,
}

-- The path with one `/` behind it, unless it is empty or ends with one.
unfoldable pub separated : Bytes → Bytes
separated [] = []
separated (c ∷ []) = if c == b'/' then c ∷ [] else c ∷ b'/' ∷ []
separated (c ∷ d ∷ path) = c ∷ separated (d ∷ path)

unfoldable pub is_absolute : Bytes → Bool
is_absolute [] = false
is_absolute (c ∷ path) = c == b'/'

-- A name that is absolute replaces the path.
unfoldable pub join : Bytes → Bytes → Bytes
unfolding separated is_absolute
join base name = if is_absolute name then name else separated base ++ name

-- What is before the last `/`, if there is one. For a file with one `/` behind its directory's name, and
-- a directory that is not the root, this is `Path::parent`.
unfoldable pub parent : Bytes → Option Bytes
parent [] = none
parent (c ∷ path) = elim (parent path) [
  | some dir ↦ some (c ∷ dir)
  | none ↦ if c == b'/' then some [] else none
]
