-- ===== src/Cache/Prune/Targets.antt =====
-- The second pass of `prune` of crates/unixd-cache/src/cache.rs, which reaches the targets.
use unixd.Prelude.{
  ℕ, not, ◌&&◌, List, [], ◌∷◌, Option, none, some, Bytes, list_eq, nat_eq, ◌==◌, if◌then◌else◌, leb,
}
use unixd.Cache.Error.{Error}
use unixd.Cache.Os.{FilePath, Node, M, pure, ◌>>=◌, ◌>>◌}
use unixd.Cache.Fs.{External}
use unixd.Cache.Private.{Held, remove, regular, with_held}
use unixd.Cache.Entry.{Inner, Header, modified_ms, entry_path}
use unixd.Cache.Prune.{Kept, Progress, try_key}
use unixd.Cache.Prune.Entries.{count_capacity}

module _ (x : External) (header_from_slice : Bytes → Option Header) (inner : Inner) where
  -- The pass that reaches the targets: an entry that was used or replaced since is passed over.
  unfoldable pub capacity_metadata : FilePath → ℕ → ℕ → Progress → Option Node → M Error Progress
  capacity_metadata path used size p none = pure p
  capacity_metadata path used size p (some metadata) =
      if not (modified_ms metadata == used)
      then pure p
      else do remove path; pure (count_capacity p size)

  unfoldable pub capacity_locked : Kept → Progress → Option Held → M Error Progress
  unfolding capacity_metadata
  capacity_locked k p none = pure p
  capacity_locked (used, digest, size) p (some held) = with_held held (do
    metadata ← regular (entry_path inner digest)
    capacity_metadata (entry_path inner digest) used size p metadata)

  unfoldable pub capacity_item : Kept → Progress → M Error Progress
  unfolding capacity_locked
  capacity_item k p = do held ← try_key x header_from_slice inner k.1; capacity_locked k p held

  unfoldable pub capacity_items : ℕ → ℕ → Progress → List Kept → M Error Progress
  unfolding capacity_item
  capacity_items target_entries target_bytes p [] = pure p
  capacity_items target_entries target_bytes p (k ∷ kept) =
      let more = (do p' ← capacity_item k p; capacity_items target_entries target_bytes p' kept) in
      if leb p.left.entries target_entries && leb p.left.bytes target_bytes then pure p else more
