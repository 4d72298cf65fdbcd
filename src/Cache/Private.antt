-- ===== src/Cache/Private.antt =====
-- crates/unixd-cache/src/private.rs: private directories, private lock files, and reads that never
-- follow a symlink.
pub mod Locks
pub mod Files
pub mod Footprint
pub mod FileFootprint
pub mod ReadResult
pub mod Fuel
pub mod Honest
pub mod LockRounds
pub mod LockFuel
pub mod Protocol
use unixd.Prelude.{
  ℕ, zero, suc, ◌+◌, Bool, true, false, not, ◌&&◌, ◌||◌, List, [], ◌∷◌, Option, none, some, Result,
  ok, err, Bytes, nat_eq, ◌==◌, if◌then◌else◌, ltb, length, take, saturating_add,
}
use unixd.Cache.Error.{Error, ErrorKind, not_found, already_exists, other, io, unsafe_root, lock}
use unixd.Cache.Os.{
  FilePath, Node, Handle, World, M, file, directory, is_file, is_dir, pure, fail, ◌>>=◌, ◌>>◌,
  attempt, lift_io, or_error, ignore, join,
}
use unixd.Cache.Fs.{
  External, OpenFlags, read_write_create, read_only, symlink_metadata, create_dir, create_dir_all,
  set_permissions, set_modified, write_all, metadata, sync_all, remove_file, remove_dir_all,
  try_lock, wait_lock, TryLockError, would_block, failed,
}

-- `metadata.uid() == geteuid()`
unfoldable pub owned : Node → M Error Bool
owned node w = (ok (node.uid == w.euid), w)

unfoldable pub set_mode : FilePath → ℕ → M Error (Unit {0})
set_mode path mode = lift_io (set_permissions path mode)

unfoldable pub validate_root : FilePath → M Error (Unit {0})
unfolding owned set_mode
validate_root root = do
  node ← or_error unsafe_root (symlink_metadata root)
  mine ← owned node
  if not (is_dir node.file_type) || not mine then fail unsafe_root else set_mode root 0o700

ensure_found : FilePath → Result ErrorKind Node → M Error (Unit {0})
ensure_found root (ok _) = validate_root root
ensure_found root (err not_found) = do lift_io (create_dir_all root); validate_root root
ensure_found root (err kind) = fail (io kind)

unfoldable pub ensure_root : FilePath → M Error (Unit {0})
unfolding ensure_found
ensure_root root = do r ← attempt (symlink_metadata root); ensure_found root r

-- The `match` of `ensure_dir`; its recursive call, for a directory that another caller made first,
-- is the last argument.
pub ensure_created :
    FilePath → M Error (Unit {0}) → Result ErrorKind (Unit {0}) → M Error (Unit {0})
ensure_created path again (ok _) = set_mode path 0o700
ensure_created path again (err already_exists) = again
ensure_created path again (err kind) = fail (io kind)

unfoldable pub ensure_dir_at :
    FilePath → M Error (Unit {0}) → Result ErrorKind Node → M Error (Unit {0})
unfolding ensure_created
ensure_dir_at path again (ok node) = do
  mine ← owned node
  if is_dir node.file_type && mine then set_mode path 0o700 else fail unsafe_root
ensure_dir_at path again (err not_found) = do
  r ← attempt (create_dir path)
  ensure_created path again r
ensure_dir_at path again (err kind) = fail (io kind)

-- What a loop answers that has used up its fuel.
abbrev pub out_of_fuel : Error
out_of_fuel = io (other 2)

unfoldable pub ensure_dir_loop : ℕ → FilePath → M Error (Unit {0})
unfolding ensure_dir_at
ensure_dir_loop zero path = fail out_of_fuel
ensure_dir_loop (suc fuel) path = do
  r ← attempt (symlink_metadata path)
  ensure_dir_at path (ensure_dir_loop fuel path) r

-- Each round that calls itself takes a fault.
unfoldable pub ensure_dir : FilePath → M Error (Unit {0})
unfolding ensure_dir_loop
ensure_dir path w = ensure_dir_loop (suc (length w.faults)) path w

-- An exclusive lock on a lock file, by its path.
pub record Held : Type 0 where
  pub path : FilePath

-- `Drop for Held`
unfoldable pub drop_held : Held → M Error (Unit {0})
drop_held held = ignore (remove_file held.path)

-- A block that owns `held`: it is dropped at the end, on an error too.
unfoldable pub with_held : {A : Type 0} → Held → M Error A → M Error A
unfolding drop_held
with_held held body w = let (r, w') = body w in let (_, w'') = drop_held held w' in (r, w'')

pub names_at : Node → Result ErrorKind Node → M Error Bool
names_at held (ok named) = pure (named.dev == held.dev && named.ino == held.ino)
names_at held (err not_found) = pure false
names_at held (err kind) = fail (io kind)

unfoldable pub names : FilePath → Handle → M Error Bool
unfolding names_at
names path handle = do
  held ← lift_io (metadata handle)
  named ← attempt (symlink_metadata path)
  names_at held named

unfoldable pub regular_at :
    FilePath → M Error (Unit {0}) → Result ErrorKind Node → M Error (Option Node)
regular_at path remove (ok node) =
    if is_file node.file_type then pure (some node) else (do remove; pure none)
regular_at path remove (err not_found) = pure none
regular_at path remove (err kind) = fail (io kind)

pub removed : Result ErrorKind (Unit {0}) → M Error (Unit {0})
removed (ok _) = pure tt
removed (err not_found) = pure tt
removed (err kind) = fail (io kind)

pub remove_found : FilePath → Result ErrorKind Node → M Error (Result ErrorKind (Unit {0}))
remove_found path (ok node) =
    if is_dir node.file_type then attempt (remove_dir_all path) else attempt (remove_file path)
remove_found path (err kind) = pure (err kind)

unfoldable pub remove : FilePath → M Error (Unit {0})
unfolding removed remove_found
remove path = do
  node ← attempt (symlink_metadata path)
  result ← remove_found path node
  removed result

unfoldable pub regular : FilePath → M Error (Option Node)
unfolding regular_at remove
regular path = do r ← attempt (symlink_metadata path); regular_at path (remove path) r

unfoldable pub sync_dir : FilePath → M Error (Unit {0})
sync_dir path = lift_io sync_all
