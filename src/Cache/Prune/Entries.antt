-- ===== src/Cache/Prune/Entries.antt =====
-- The first pass of `prune` of crates/unixd-cache/src/cache.rs, over the files of the entries directory.
use unixd.Prelude.{
  ℕ, ◌+◌, Bool, true, not, List, [], ◌∷◌, ◌++◌, Option, none, some, Bytes, list_eq, nat_eq,
  if◌then◌else◌, ltb, length, saturating_sub,
}
use unixd.Cache.Error.{Error}
use unixd.Cache.Os.{FilePath, Node, M, pure, ◌>>=◌, ◌>>◌, join}
use unixd.Cache.Fs.{External}
use unixd.Cache.Private.{Held, remove, regular, with_held}
use unixd.Cache.Entry.{
  Inner, Header, remove_usage, millis, modified_ms, entries_dir, entry_digest, temporary_digest,
  is_temporary,
}
use unixd.Cache.Prune.{Kept, Progress, try_key, live}

-- The counters.
abbrev pub count_expired : Progress → ℕ → Progress
count_expired p size =
    let o = p.outcome in
    record p {
      outcome = record o { expired_removed = o.expired_removed + 1 };
      left = remove_usage p.left size;
    }

abbrev pub count_unused : Progress → ℕ → Progress
count_unused p size =
    let o = p.outcome in
    record p {
      outcome = record o { unused_removed = o.unused_removed + 1 };
      left = remove_usage p.left size;
    }

abbrev pub count_capacity : Progress → ℕ → Progress
count_capacity p size =
    let o = p.outcome in
    record p {
      outcome = record o { capacity_removed = o.capacity_removed + 1 };
      left = remove_usage p.left size;
    }

abbrev pub count_temporary : Progress → Progress
count_temporary p =
    let o = p.outcome in
    record p { outcome = record o { temporary_removed = o.temporary_removed + 1 } }

abbrev pub keep : Progress → Kept → Progress
keep p k = record p { kept = p.kept ++ k ∷ [] }

module _ (x : External) (header_from_slice : Bytes → Option Header) (inner : Inner) (now : ℕ) where
  unfoldable pub remove_temporary : FilePath → Progress → M Error Progress
  remove_temporary path p = do remove path; pure (count_temporary p)

  -- The guard of the temporary file's key is dropped at the end of the round.
  unfoldable pub temporary_locked : FilePath → Progress → Option Held → M Error Progress
  unfolding remove_temporary
  temporary_locked path p none = pure p
  temporary_locked path p (some held) = with_held held (remove_temporary path p)

  unfoldable pub prune_temporary : FilePath → Progress → Option Bytes → M Error Progress
  unfolding temporary_locked remove_temporary
  prune_temporary path p none = remove_temporary path p
  prune_temporary path p (some digest) = do
    held ← try_key x header_from_slice inner digest
    temporary_locked path p held

  unfoldable pub is_expired : Bytes → Node → M Error Bool
  is_expired name metadata =
      if ltb inner.limits.max_entry_bytes (length metadata.content)
      then pure true
      else do alive ← live x header_from_slice inner name now; pure (not alive)

  -- What becomes of an entry under its key's lock.
  unfoldable pub prune_metadata : Bytes → Bytes → Progress → Option Node → M Error Progress
  unfolding is_expired
  prune_metadata name digest p none = pure p
  prune_metadata name digest p (some metadata) = do
    expired ← is_expired name metadata
    if expired
        then (do
          remove (join (entries_dir inner) name)
          pure (count_expired p (length metadata.content)))
        else if ltb (millis inner.limits.unused_after) (saturating_sub now (modified_ms metadata))
        then (do
          remove (join (entries_dir inner) name)
          pure (count_unused p (length metadata.content)))
        else pure (keep p (modified_ms metadata, digest, length metadata.content))

  unfoldable pub prune_locked : Bytes → Bytes → Progress → Option Held → M Error Progress
  unfolding prune_metadata
  prune_locked name digest p none = pure p
  prune_locked name digest p (some held) =
      with_held held (do
        metadata ← regular (join (entries_dir inner) name)
        prune_metadata name digest p metadata)

  unfoldable pub prune_entry : Bytes → Progress → Option Bytes → M Error Progress
  unfolding prune_locked
  prune_entry name p none = pure p
  prune_entry name p (some digest) = do
    held ← try_key x header_from_slice inner digest
    prune_locked name digest p held

  unfoldable pub prune_item : Progress → Bytes → M Error Progress
  unfolding prune_temporary prune_entry
  prune_item p name =
      if is_temporary name
      then prune_temporary (join (entries_dir inner) name) p (temporary_digest name)
      else prune_entry name p (entry_digest name)

  unfoldable pub prune_items : Progress → List Bytes → M Error Progress
  unfolding prune_item
  prune_items p [] = pure p
  prune_items p (name ∷ names) = do p' ← prune_item p name; prune_items p' names
