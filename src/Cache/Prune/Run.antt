-- ===== src/Cache/Prune/Run.antt =====
-- `prune` of crates/unixd-cache/src/cache.rs: the locks around the two passes, and its outcome.
use unixd.Prelude.{ℕ, min, Bool, ◌||◌, [], Option, Bytes, list_eq, nat_eq, if◌then◌else◌, ltb}
use unixd.Cache.Error.{Error, lock}
use unixd.Cache.Os.{Handle, M, pure, ◌>>=◌, ◌>>◌, attempt, lift_io, or_error, now_ms, join}
use unixd.Cache.Fs.{External, read_dir, set_modified, try_lock, wait_lock_kept}
use unixd.Cache.Private.{ensure_dir, validate_root, sync_dir}
use unixd.Cache.Private.Locks.{open_lock}
use unixd.Cache.Entry.{Inner, Header, Usage, at, entries_dir, maintenance_name, prune_lock_name}
use unixd.Cache.Prune.{
  Prune, Wait, block, skip, usage, sort_kept, Progress, or_lock_error, remove_unheld_locks,
}
use unixd.Cache.Prune.Entries.{prune_items}
use unixd.Cache.Prune.Targets.{capacity_items}

abbrev pub over_hard : Inner → Usage → Bool
over_hard inner u = ltb inner.limits.hard_entries u.entries || ltb inner.limits.hard_bytes u.bytes

abbrev pub start_progress : ℕ → Usage → Progress
start_progress locks before = record {
  outcome = record {
    before_entries = before.entries;
    before_bytes = before.bytes;
    after_entries = 0;
    after_bytes = 0;
    expired_removed = 0;
    unused_removed = 0;
    capacity_removed = 0;
    temporary_removed = 0;
    locks_removed = locks;
  };
  left = before;
  kept = [];
}

abbrev pub finish_progress : Progress → Prune
finish_progress p =
    let o = p.outcome in record o { after_entries = p.left.entries; after_bytes = p.left.bytes }

module _ (x : External) (header_from_slice : Bytes → Option Header) (inner : Inner) where
  unfoldable pub take_locks : Wait → Handle → Handle → M Error (Unit {0})
  unfolding or_lock_error
  take_locks block maintenance pruning = do
    or_error lock (wait_lock_kept maintenance)
    or_error lock (wait_lock_kept pruning)
  take_locks skip maintenance pruning = do
    shared ← attempt (try_lock maintenance)
    or_lock_error shared
    exclusive ← attempt (try_lock pruning)
    or_lock_error exclusive

  unfoldable pub reach_targets : Usage → Progress → M Error Progress
  reach_targets before p =
      if over_hard inner before
      then capacity_items x header_from_slice inner
          (min inner.limits.target_entries inner.limits.hard_entries)
          (min inner.limits.target_bytes inner.limits.hard_bytes) p (sort_kept p.kept)
      else pure p

  unfoldable pub prune_pass : Handle → ℕ → Usage → M Error Prune
  unfolding reach_targets
  prune_pass pruning locks before = do
    now ← now_ms
    names ← lift_io (read_dir (entries_dir inner))
    p ← prune_items x header_from_slice inner now (start_progress locks before) names
    q ← reach_targets before p
    sync_dir (entries_dir inner)
    lift_io (set_modified pruning (at now))
    pure (finish_progress q)

  unfoldable pub prune : Wait → M Error Prune
  unfolding prune_pass take_locks
  prune wait = do
    validate_root inner.root
    maintenance ← open_lock x (join inner.root maintenance_name)
    pruning ← open_lock x (join inner.root prune_lock_name)
    take_locks wait maintenance pruning
    ensure_dir (entries_dir inner)
    locks ← remove_unheld_locks x header_from_slice inner
    before ← usage inner
    prune_pass pruning locks before
