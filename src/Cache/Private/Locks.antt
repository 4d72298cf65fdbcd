-- ===== src/Cache/Private/Locks.antt =====
-- The lock files of crates/unixd-cache/src/private.rs.
use unixd.Prelude.{
  ℕ, zero, suc, ◌+◌, Bool, true, false, not, ◌||◌, Option, none, some, Result, ok, err,
  if◌then◌else◌, length,
}
use unixd.Cache.Error.{Error, ErrorKind, io, unsafe_root, lock}
use unixd.Cache.Os.{
  FilePath, Node, Handle, M, is_file, pure, fail, ◌>>=◌, ◌>>◌, attempt, lift_io, or_error,
}
use unixd.Cache.Fs.{
  External, read_write_create, symlink_metadata, metadata, try_lock, wait_lock, TryLockError,
  would_block, failed,
}
use unixd.Cache.Private.{Held, owned, names, out_of_fuel}

module _ (x : External) where
  open x use {open_file, fchmod}

  unfoldable pub open_lock_failed : ErrorKind → Result ErrorKind Node → M Error Handle
  open_lock_failed errno (ok node) =
      if is_file node.file_type then fail (io errno) else fail unsafe_root
  open_lock_failed errno (err _) = fail (io errno)

  unfoldable pub open_lock_opened : FilePath → Result ErrorKind Handle → M Error Handle
  unfolding open_lock_failed
  open_lock_opened path (ok handle) = do
    node ← lift_io (metadata handle)
    mine ← owned node
    if not (is_file node.file_type) || not mine
        then fail unsafe_root
        else (do lift_io (fchmod handle 0o600); pure handle)
  open_lock_opened path (err errno) = do
    r ← attempt (symlink_metadata path)
    open_lock_failed errno r

  unfoldable pub open_lock : FilePath → M Error Handle
  unfolding open_lock_opened
  open_lock path = do r ← attempt (open_file read_write_create path); open_lock_opened path r

  unfoldable pub lock_named : FilePath → M Error Held → Bool → M Error Held
  lock_named path again true = pure (record { path = path })
  lock_named path again false = again

  unfoldable pub lock_exclusive_loop : ℕ → FilePath → M Error Held
  unfolding lock_named
  lock_exclusive_loop zero path = fail out_of_fuel
  lock_exclusive_loop (suc fuel) path = do
    handle ← open_lock path
    or_error lock (wait_lock handle)
    named ← names path handle
    lock_named path (lock_exclusive_loop fuel path) named

  -- A round that calls itself found its file deleted by the holder that it waited for, or took a fault.
  unfoldable pub lock_exclusive : FilePath → M Error Held
  unfolding lock_exclusive_loop
  lock_exclusive path w = lock_exclusive_loop (suc (suc (length w.faults + length w.held))) path w

  unfoldable pub try_locked :
      FilePath → Handle → Result TryLockError (Unit {0}) → M Error (Option Held)
  try_locked path handle (ok _) = do
    named ← names path handle
    pure (if named then some (record { path = path }) else none)
  try_locked path handle (err would_block) = pure none
  try_locked path handle (err (failed kind)) = fail (io kind)

  unfoldable pub try_lock_exclusive : FilePath → M Error (Option Held)
  unfolding try_locked
  try_lock_exclusive path = do
    handle ← open_lock path
    r ← attempt (try_lock handle)
    try_locked path handle r
