-- ===== src/Cache/Store.antt =====
-- Storing a key: `write_atomic`, `sweep_due` and `KeyLock::store` of crates/unixd-cache/src/cache.rs.
pub mod Horizons
pub mod FillEffects
pub mod Filling
pub mod Atomic
pub mod RoundTrip
pub mod Others
pub mod Kept
use unixd.Prelude.{
  ℕ, min, Bool, true, false, ◌||◌, ◌∷◌, ◌++◌, [], Option, none, some, Result, ok, err, Bytes,
  if◌then◌else◌, ltb, length, u64_max, saturating_add, saturating_sub,
}
use unixd.Cache.Error.{Error, ErrorKind, encode}
use unixd.Cache.Policy.{Policy}
use unixd.Cache.Key.{Key, format}
use unixd.Cache.Os.{
  FilePath, Node, Handle, M, pure, fail, ◌>>=◌, ◌>>◌, attempt, lift_io, now_ms, join,
}
use unixd.Cache.Fs.{External, symlink_metadata, set_modified, write_all, sync_all}
use unixd.Cache.Private.{ensure_dir, sync_dir, with_held}
use unixd.Cache.Private.Files.{or_drop}
use unixd.Cache.Entry.{
  Inner, Written, Serde, Usage, millis, modified_ms, at, entries_dir, entry_path, prune_lock_name,
  temporary_suffix,
}
use unixd.Cache.Read.{KeyLock}
use unixd.Cache.Prune.{Prune, skip, usage}
use unixd.Cache.Prune.Run.{prune, over_hard}

pub data Maintenance : Type 0 where
  not_needed : Maintenance
  pruned : Prune → Maintenance
  deferred : Error → Maintenance

pub data Stored : Type 0 where
  written : Maintenance → Stored
  too_large : ℕ → Stored

-- The entry with its two horizons, which saturate.
unfoldable pub entry_of : {T : Type 0} → Inner → Key → Policy → ℕ → T → Written T
unfolding saturating_add millis
entry_of inner key policy now value =
    let fresh_until = saturating_add now (millis policy.fresh) in
    record {
      format = format;
      schema = inner.schema;
      namespace = key.namespace;
      digest = key.digest;
      stored_at_ms = now;
      fresh_until_ms = fresh_until;
      stale_until_ms = saturating_add fresh_until (millis policy.stale_if_error);
      source = policy.source;
      value = value;
    }

module _ (x : External) (inner : Inner) where
  open x use {tempfile_in, persist}

  pub fill_temporary : Handle → Bytes → M Error (Unit {0})
  fill_temporary handle bytes = do
    filled ← attempt (write_all handle bytes)
    or_drop x handle filled
    now ← now_ms
    dated ← attempt (set_modified handle (at now))
    or_drop x handle dated
    synced ← attempt sync_all
    or_drop x handle synced

  unfoldable pub write_atomic : Bytes → Bytes → M Error (Unit {0})
  unfolding fill_temporary
  write_atomic digest bytes = do
    ensure_dir (entries_dir inner)
    handle ←
        lift_io
          (tempfile_in (some (b'.' ∷ digest ++ b'.' ∷ [], temporary_suffix)) (entries_dir inner))
    fill_temporary handle bytes
    persisted ← attempt (persist handle (entry_path inner digest))
    or_drop x handle persisted
    sync_dir (entries_dir inner)

  due_since : Result ErrorKind Node → M Error Bool
  due_since (err _) = pure false
  due_since (ok metadata) = do
    now ← now_ms
    pure (ltb (millis inner.limits.sweep_every) (saturating_sub now (modified_ms metadata)))

  unfoldable pub sweep_due : M Error Bool
  unfolding due_since
  sweep_due = do r ← attempt (symlink_metadata (join inner.root prune_lock_name)); due_since r

module _ {T : Type 0} (x : External) (serde : Serde T) (inner : Inner) where
  pruned_or_deferred : Result Error Prune → Maintenance
  pruned_or_deferred (ok prune) = pruned prune
  pruned_or_deferred (err error) = deferred error

  maintain_if : Bool → M Error Maintenance
  maintain_if false = pure not_needed
  maintain_if true = do
    r ← attempt (prune x serde.header_from_slice inner skip)
    pure (pruned_or_deferred r)

  maintain : Result Error Usage → M Error Maintenance
  maintain (err error) = pure (deferred error)
  maintain (ok u) =
      if over_hard inner u then maintain_if true else do due ← sweep_due x inner; maintain_if due

  -- The part of `store` that runs under the key's lock: the size of a value that is too large.
  pub write_encoded : Key → Option Bytes → M Error (Option ℕ)
  write_encoded key none = fail encode
  write_encoded key (some bytes) =
      let size = min (length bytes) u64_max in
      if ltb inner.limits.max_entry_bytes size
      then pure (some size)
      else do write_atomic x inner key.digest bytes; pure none

  unfoldable pub store_locked : Key → Policy → T → M Error (Option ℕ)
  unfolding write_encoded
  store_locked key policy value = do
    now ← now_ms
    write_encoded key (serde.to_vec (entry_of inner key policy now value))

  after_write : Option ℕ → M Error Stored
  unfolding maintain maintain_if pruned_or_deferred
  after_write (some size) = pure (too_large size)
  after_write none = do
    u ← attempt (usage inner)
    maintenance ← maintain u
    pure (written maintenance)

  -- `self` is dropped before the maintenance, and on every early return.
  unfoldable pub store : KeyLock → Policy → T → M Error Stored
  unfolding store_locked after_write
  store self policy value = do
    too_big ← with_held self.lock_file (store_locked self.key policy value)
    after_write too_big
