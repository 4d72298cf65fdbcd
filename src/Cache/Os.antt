-- ===== src/Cache/Os.antt =====
-- What the cache sees of the operating system: the calls of `std::fs` over a table of nodes, the
-- locks that other processes hold, the caller's clock, and a list of faults. Each call takes one
-- entry of that list and fails with the kind that stands there, if one does, so that every call can
-- fail at any time; a list that has run out means that no more calls fail. Other processes change
-- the nodes between two operations of this crate and not in the middle of one, except that a wait
-- for a lock ends with what its holder does.
use unixd.Prelude.{ℕ, suc, Bool, true, false, List, [], ◌∷◌, ◌++◌, Option, Result, ok, err, Bytes}
use unixd.Cache.Error.{Error, ErrorKind, io}

-- The components of an absolute path, the root first.
abbrev pub FilePath : Type 0
FilePath = List Bytes

abbrev pub join : FilePath → Bytes → FilePath
join path name = path ++ name ∷ []

pub data FileType : Type 0 where
  file directory symlink special : FileType

-- A node and its metadata. `modified` is in nanoseconds since the epoch; `none` is a time before it.
pub record Node : Type 0 where
  pub file_type : FileType
  pub uid : ℕ
  pub dev : ℕ
  pub ino : ℕ
  pub mode : ℕ
  pub content : Bytes
  pub modified : Option ℕ

abbrev pub is_file : FileType → Bool
is_file file = true
is_file _ = false

abbrev pub is_dir : FileType → Bool
is_dir directory = true
is_dir _ = false

pub record World : Type 0 where
  pub nodes : List (FilePath × Node)
  pub held : List FilePath  -- the lock files that another process or thread has locked
  pub faults : List (Option ErrorKind)
  pub clock : ℕ → ℕ  -- the readings of the caller's clock that are still to come
  pub euid : ℕ
  pub next_ino : ℕ

-- An open file: the path it was opened at, and its metadata.
pub record Handle : Type 0 where
  pub path : FilePath
  pub node : Node

-- Effects stay when an error is returned, so the world comes back beside the error too.
abbrev pub M : Type 0 → Type 0 → Type 0
M E A = World → Result E A × World

module _ {E A : Type 0} where
  abbrev pub pure : A → M E A
  pure a w = (ok a, w)

  abbrev pub fail : E → M E A
  fail e w = (err e, w)

module _ {E A B : Type 0} where
  abbrev pub continue : Result E A → (A → M E B) → M E B
  continue (ok a) f w = f a w
  continue (err e) f w = (err e, w)

  infixl 10 ◌>>=◌ ◌>>◌
  unfoldable pub ◌>>=◌ : M E A → (A → M E B) → M E B
  ◌>>=◌ m f w = let (r, w') = m w in continue r f w'

  abbrev pub ◌>>◌ : M E A → M E B → M E B
  m >> n = m >>= λ _. n

module _ {E F A : Type 0} where
  -- The result as a value, for a `match` on it.
  unfoldable pub attempt : M E A → M F (Result E A)
  attempt m w = let (r, w') = m w in (ok r, w')

-- `.map_err(|error| Error::io(&error))`
abbrev pub as_io : {A : Type 0} → Result ErrorKind A → Result Error A
as_io (ok a) = ok a
as_io (err kind) = err (io kind)

-- `?` behind that: an I/O call in a function that returns `Error`.
unfoldable pub lift_io : {A : Type 0} → M ErrorKind A → M Error A
lift_io m w = let (r, w') = m w in (as_io r, w')

-- `map_err(|_| …)`
abbrev pub replace_error : {E F A : Type 0} → F → Result E A → Result F A
replace_error f (ok a) = ok a
replace_error f (err _) = err f

unfoldable pub or_error : {E F A : Type 0} → F → M E A → M F A
or_error f m w = let (r, w') = m w in (replace_error f r, w')

-- `let _ = …`
unfoldable pub ignore : {E F A : Type 0} → M E A → M F (Unit {0})
ignore m w = let (_, w') = m w in (ok tt, w')

-- The next reading of the clock.
unfoldable pub now_ms : {E : Type 0} → M E ℕ
now_ms w = (ok (w.clock 0), record w { clock = λ n. w.clock (suc n) })
