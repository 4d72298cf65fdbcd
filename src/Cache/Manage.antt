-- ===== src/Cache/Manage.antt =====
-- `Cache::with_clock`, `Cache::lock` and `Cache::clear` of crates/unixd-cache/src/cache.rs. The root is
-- absolute already: `path::absolute` is the caller's side of it.
pub mod Listing
pub mod Cleared
use unixd.Prelude.{Bytes, ascii, List, [], ◌∷◌, Result, ok, err, ℕ}
use unixd.Cache.Error.{Error, ErrorKind, lock}
use unixd.Cache.Key.{Key}
use unixd.Cache.Os.{FilePath, Node, M, pure, ◌>>=◌, ◌>>◌, attempt, lift_io, or_error, now_ms, join}
use unixd.Cache.Fs.{External, symlink_metadata, read_dir, wait_lock_kept}
use unixd.Cache.Private.{ensure_root, ensure_dir, validate_root, remove, sync_dir}
use unixd.Cache.Private.Locks.{open_lock, lock_exclusive}
use unixd.Cache.Private.Files
use unixd.Cache.Entry.{
  Inner, Limits, at, entries_dir, locks_dir, lock_path, maintenance_name, prune_lock_name,
  entries_name, locks_name,
}
use unixd.Cache.Read.{KeyLock}

abbrev cachedir_tag : Bytes
cachedir_tag = ascii "CACHEDIR.TAG"

abbrev cachedir_tag_text : Bytes
cachedir_tag_text =
    ascii
      "Signature: 8a477f597d28d172789f06886806bc55\n# This file is a cache directory tag created by unixd-cache.\n# For information about cache directory tags, see https://bford.info/cachedir/\n"

-- `for item in read_dir(dir) { remove(item)?; }`
unfoldable pub remove_each : FilePath → List Bytes → M Error (Unit {0})
remove_each dir [] = pure tt
remove_each dir (name ∷ names) = do remove (join dir name); remove_each dir names

unfoldable pub empty_dir : FilePath → M Error (Unit {0})
unfolding remove_each
empty_dir dir = do
  ensure_dir dir
  names ← lift_io (read_dir dir)
  remove_each dir names
  sync_dir dir

module _ (x : External) where
  -- `prune.lock` records the first use of a new cache as its last prune.
  mark_pruned : FilePath → Result ErrorKind Node → M Error (Unit {0})
  mark_pruned pruning (ok _) = pure tt
  mark_pruned pruning (err _) = do open_lock x pruning; now ← now_ms; Files.touch x pruning (at now)

  unfoldable pub with_clock : FilePath → ℕ → Limits → M Error Inner
  unfolding mark_pruned
  with_clock root schema limits = do
    ensure_root root
    ensure_dir (join root entries_name)
    ensure_dir (join root locks_name)
    open_lock x (join root maintenance_name)
    Files.create_private x root cachedir_tag cachedir_tag_text
    r ← attempt (symlink_metadata (join root prune_lock_name))
    mark_pruned (join root prune_lock_name) r
    pure (record { root = root; schema = schema; limits = limits })

  -- `Cache::lock`; the maintenance lock is shared with every other holder but `clear`.
  unfoldable pub lock_key : Inner → Key → M Error KeyLock
  lock_key inner key = do
    validate_root inner.root
    ensure_dir (locks_dir inner)
    maintenance ← open_lock x (join inner.root maintenance_name)
    or_error lock (wait_lock_kept maintenance)
    held ← lock_exclusive x (lock_path inner key.digest)
    pure (record { key = key; lock_file = held })

  unfoldable pub clear : Inner → M Error (Unit {0})
  unfolding empty_dir
  clear inner = do
    validate_root inner.root
    maintenance ← open_lock x (join inner.root maintenance_name)
    or_error lock (wait_lock_kept maintenance)
    empty_dir (entries_dir inner)
    empty_dir (locks_dir inner)
