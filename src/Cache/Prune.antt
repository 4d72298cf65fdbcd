-- ===== src/Cache/Prune.antt =====
-- Pruning: `prune`, `usage`, `live` and `remove_unheld_locks` of crates/unixd-cache/src/cache.rs.
pub mod Entries
pub mod Targets
pub mod Run
pub mod HeldKeys
pub mod Spares
pub mod PassFootprint
pub mod SparedEntries
pub mod SparedTargets
pub mod Spared
pub mod PassRules
pub mod Passes
pub mod Removed
pub mod RemovedFiles
pub mod RemovedPasses
pub mod RemovedRun
pub mod Accounts
pub mod Frugal
use Prim.Native.Nat.{compare, Ordering}
use unixd.Prelude.{
  ℕ, ◌+◌, min, Bool, true, false, not, ◌&&◌, ◌||◌, List, [], ◌∷◌, ◌++◌, Option, none, some, Result,
  ok, err, Bytes, list_eq, nat_eq, ◌==◌, if◌then◌else◌, ltb, leb, length, saturating_add,
  saturating_sub,
}
use unixd.Cache.Error.{Error, ErrorKind, not_found, io, lock}
use unixd.Cache.Key.{compare_bytes}
use unixd.Cache.Os.{
  FilePath, Node, M, is_file, pure, fail, ◌>>=◌, ◌>>◌, attempt, lift_io, or_error, now_ms, join,
}
use unixd.Cache.Fs.{
  External, TryLockError, would_block, failed, symlink_metadata, read_dir, set_modified, try_lock,
  wait_lock_kept,
}
use unixd.Cache.Private.{Held, ensure_dir, validate_root, remove, regular, sync_dir, with_held}
use unixd.Cache.Private.Locks.{open_lock, try_lock_exclusive}
use unixd.Cache.Entry.{
  Inner, Header, Usage, remove_usage, millis, modified_ms, at, consistent, entries_dir, locks_dir,
  entry_path, lock_path, entry_digest, temporary_digest, is_temporary, maintenance_name,
  prune_lock_name,
}
use unixd.Cache.Entry.Scan.{read_header_text}

pub record Prune : Type 0 where
  pub before_entries : ℕ
  pub before_bytes : ℕ
  pub after_entries : ℕ
  pub after_bytes : ℕ
  pub expired_removed : ℕ
  pub unused_removed : ℕ
  pub capacity_removed : ℕ
  pub temporary_removed : ℕ
  pub locks_removed : ℕ

pub data Wait : Type 0 where
  block skip : Wait

-- The loop of `usage`: a file that vanished is passed over.
unfoldable pub count_node : Usage → Result ErrorKind Node → M Error Usage
count_node u (ok node) = pure (
    if is_file node.file_type
    then record { entries = u.entries + 1; bytes = saturating_add u.bytes (length node.content) }
    else u)
count_node u (err not_found) = pure u
count_node u (err kind) = fail (io kind)

unfoldable pub count_item : FilePath → Usage → Option Bytes → M Error Usage
unfolding count_node
count_item path u none = pure u
count_item path u (some _) = do r ← attempt (symlink_metadata path); count_node u r

unfoldable pub count_items : FilePath → Usage → List Bytes → M Error Usage
unfolding count_item
count_items dir u [] = pure u
count_items dir u (name ∷ names) = do
  u' ← count_item (join dir name) u (entry_digest name)
  count_items dir u' names

unfoldable pub usage : Inner → M Error Usage
unfolding count_items
usage inner = do
  ensure_dir (entries_dir inner)
  names ← lift_io (read_dir (entries_dir inner))
  count_items (entries_dir inner) (record { entries = 0; bytes = 0 }) names

-- A kept entry: when it was used last, its digest and its size; `sort` orders by these in turn.
abbrev pub Kept : Type 0
Kept = ℕ × Bytes × ℕ

unfoldable pub kept_le : Kept → Kept → Bool
unfolding compare_bytes
kept_le (used, digest, size) (used', digest', size') = elim (compare used used') [
  | Ordering.lt ↦ true
  | Ordering.gt ↦ false
  | Ordering.eq ↦ elim (compare_bytes digest digest') [
    | Ordering.lt ↦ true
    | Ordering.gt ↦ false
    | Ordering.eq ↦ leb size size'
  ]
]

unfoldable pub insert_kept : Kept → List Kept → List Kept
insert_kept k [] = k ∷ []
insert_kept k (j ∷ kept) = if kept_le k j then k ∷ j ∷ kept else j ∷ insert_kept k kept

unfoldable pub sort_kept : List Kept → List Kept
unfolding insert_kept kept_le
sort_kept [] = []
sort_kept (k ∷ kept) = insert_kept k (sort_kept kept)

-- What the loop over the entries carries.
pub record Progress : Type 0 where
  pub outcome : Prune
  pub left : Usage
  pub kept : List Kept

-- `lock_error`
unfoldable pub lock_error : TryLockError → Error
lock_error would_block = lock
lock_error (failed kind) = io kind

unfoldable pub or_lock_error : {A : Type 0} → Result TryLockError A → M Error A
or_lock_error (ok a) = pure a
or_lock_error (err e) = fail (lock_error e)

-- `read_header(…).is_some_and(…)` of `live`
is_live : (Bytes → Option Header) → Bytes → ℕ → Option Bytes → Bool
is_live header_from_slice name now none = false
is_live header_from_slice name now (some text) = elim (header_from_slice text) [
  | none ↦ false
  | some header ↦
      consistent header
      && (elim (entry_digest name) [ none ↦ false | some digest ↦ digest == header.digest ]
          && leb now header.stale_until_ms)
]

module _ (x : External) (header_from_slice : Bytes → Option Header) (inner : Inner) where
  unfoldable pub try_key : Bytes → M Error (Option Held)
  try_key digest = try_lock_exclusive x (lock_path inner digest)

  unfoldable pub live : Bytes → ℕ → M Error Bool
  unfolding is_live
  live name now = do
    text ← read_header_text (join (entries_dir inner) name) inner.limits.max_entry_bytes
    pure (is_live header_from_slice name now text)

  -- A lock file that is locked here is deleted as its guard is dropped.
  unfoldable pub free_lock : Option Held → M Error ℕ
  free_lock none = pure 0
  free_lock (some held) = with_held held (pure 1)

  unfoldable pub free_regular : FilePath → Option Node → M Error ℕ
  unfolding free_lock
  free_regular path none = pure 0
  free_regular path (some _) = do held ← try_lock_exclusive x path; free_lock held

  unfoldable pub remove_unheld_items : ℕ → List Bytes → M Error ℕ
  unfolding free_regular
  remove_unheld_items removed [] = pure removed
  remove_unheld_items removed (name ∷ names) = do
    node ← regular (join (locks_dir inner) name)
    one ← free_regular (join (locks_dir inner) name) node
    remove_unheld_items (removed + one) names

  unfoldable pub remove_unheld_locks : M Error ℕ
  unfolding remove_unheld_items
  remove_unheld_locks = do
    ensure_dir (locks_dir inner)
    names ← lift_io (read_dir (locks_dir inner))
    removed ← remove_unheld_items 0 names
    sync_dir (locks_dir inner)
    pure removed
