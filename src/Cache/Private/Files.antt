-- ===== src/Cache/Private/Files.antt =====
-- The reads and writes of crates/unixd-cache/src/private.rs.
use unixd.Prelude.{
  ℕ, not, ◌||◌, Option, none, some, Result, ok, err, Bytes, if◌then◌else◌, ltb, length, take,
  saturating_add, min, u64_max,
}
use unixd.Cache.Error.{Error, ErrorKind, not_found, already_exists, io}
use unixd.Cache.Os.{
  FilePath, Node, Handle, M, is_file, pure, fail, ◌>>=◌, ◌>>◌, attempt, lift_io, ignore, join,
}
use unixd.Cache.Fs.{
  External, read_only, syscall, symlink_metadata, metadata, set_modified, write_all,
}

-- `file.take(limit).read_to_end(…)`
unfoldable pub read_to_end : Handle → ℕ → M ErrorKind Bytes
unfolding syscall
read_to_end handle limit = syscall (pure (take limit handle.node.content))

unfoldable pub read_refused : ErrorKind → Result ErrorKind Node → M Error (Option (Bytes × Node))
read_refused errno (ok node) = if is_file node.file_type then fail (io errno) else pure none
read_refused errno (err not_found) = pure none
read_refused errno (err _) = fail (io errno)

unfoldable pub read_opened :
    FilePath → ℕ → Result ErrorKind Handle → M Error (Option (Bytes × Node))
unfolding read_to_end read_refused
read_opened path limit (ok handle) = do
  node ← lift_io (metadata handle)
  if not (is_file node.file_type) || ltb limit (length node.content) then pure none else do
    bytes ← lift_io (read_to_end handle (saturating_add limit 1))
    pure (if ltb limit (min (length bytes) u64_max) then none else some (bytes, node))
read_opened path limit (err not_found) = pure none
read_opened path limit (err errno) = do r ← attempt (symlink_metadata path); read_refused errno r

module _ (x : External) where
  open x use {open_file, tempfile_in, persist_noclobber, drop_temporary}

  unfoldable pub read : FilePath → ℕ → M Error (Option (Bytes × Node))
  unfolding read_opened
  read path limit = do r ← attempt (open_file read_only path); read_opened path limit r

  -- `?` while a temporary file is open: an error drops it, which deletes it.
  unfoldable pub or_drop : {A : Type 0} → Handle → Result ErrorKind A → M Error A
  or_drop handle (ok a) = pure a
  or_drop handle (err kind) = do ignore (drop_temporary handle); fail (io kind)

  persisted : Handle → Result ErrorKind (Unit {0}) → M Error (Unit {0})
  unfolding or_drop
  persisted handle (err already_exists) = ignore (drop_temporary handle)
  persisted handle r = or_drop handle r

  create_missing : FilePath → Bytes → Bytes → Result ErrorKind Node → M Error (Unit {0})
  unfolding persisted
  create_missing dir name bytes (ok _) = pure tt
  create_missing dir name bytes (err _) = do
    handle ← lift_io (tempfile_in none dir)
    written ← attempt (write_all handle bytes)
    or_drop handle written
    r ← attempt (persist_noclobber handle (join dir name))
    persisted handle r

  unfoldable pub create_private : FilePath → Bytes → Bytes → M Error (Unit {0})
  unfolding create_missing
  create_private dir name bytes = do
    r ← attempt (symlink_metadata (join dir name))
    create_missing dir name bytes r

  unfoldable pub touch : FilePath → ℕ → M Error (Unit {0})
  touch path time = do
    handle ← lift_io (open_file read_only path)
    lift_io (set_modified handle time)
