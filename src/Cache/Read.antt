-- ===== src/Cache/Read.antt =====
-- Reading a key: `read`, `discard` and the two `lookup` methods of crates/unixd-cache/src/cache.rs.
pub mod Untouched
pub mod Served
pub mod Calm
pub mod Healed
use unixd.Prelude.{
  ℕ, ◌+◌, Bool, true, false, not, ◌&&◌, ◌||◌, Option, none, some, Bytes, list_eq, nat_eq, ◌==◌,
  if◌then◌else◌, ltb, leb, saturating_sub,
}
use unixd.Cache.Error.{Error}
use unixd.Cache.Key.{Key}
use unixd.Cache.Os.{FilePath, Node, M, pure, ◌>>=◌, ◌>>◌, ignore, now_ms}
use unixd.Cache.Fs.{External}
use unixd.Cache.Private.{ensure_dir, remove, Held}
use unixd.Cache.Private.Files
use unixd.Cache.Entry.{
  Inner, Header, Serde, Cached, Lookup, miss, fresh, stale, millis, modified_ms, at, consistent,
  entries_dir, entry_path,
}

-- `KeyLock`: the lock on one key, by the lock file that it holds.
pub record KeyLock : Type 0 where
  pub key : Key
  pub lock_file : Held

module _ {T : Type 0} where
  unfoldable pub discard : FilePath → Bool → M Error (Lookup T)
  discard path true = do ignore (remove path); pure miss
  discard path false = pure miss

  -- The stored value by the two horizons.
  unfoldable pub classify : Inner → Header → ℕ → T → Lookup T
  classify inner header now value =
      let cached : Cached T = record {
        value = value;
        stored_at_ms = header.stored_at_ms;
        age_ms = saturating_sub now header.stored_at_ms;
        source = header.source;
      } in
      if header.schema == inner.schema && leb now header.fresh_until_ms
      then fresh cached
      else stale cached

module _ {T : Type 0} (x : External) (serde : Serde T) (inner : Inner) (key : Key)
    (locked : Bool) where
  unfoldable pub touch_used : FilePath → Node → ℕ → M Error (Unit {0})
  touch_used path metadata now =
      if ltb (millis inner.limits.touch_after) (saturating_sub now (modified_ms metadata))
      then ignore {F = Error} (Files.touch x path (at now))
      else pure tt

  unfoldable pub read_value : FilePath → Node → Header → ℕ → Option T → M Error (Lookup T)
  unfolding touch_used classify
  read_value path metadata header now none = discard path locked
  read_value path metadata header now (some value) = do
    touch_used path metadata now
    pure (classify inner header now value)

  -- Whether the entry is another key's, or of another layout.
  unfoldable pub mismatched : Header → Bool
  mismatched header =
      not (consistent header)
      || (not (header.digest == key.digest) || not (header.namespace == key.namespace))

  unfoldable pub read_entry : FilePath → Bytes → Node → Option Header → M Error (Lookup T)
  unfolding read_value mismatched
  read_entry path bytes metadata none = discard path locked
  read_entry path bytes metadata (some header) =
      if ltb inner.schema header.schema
      then pure miss
      else if mismatched header
      then discard path locked
      else do
        now ← now_ms
        if ltb header.stale_until_ms now
            then discard path locked
            else read_value path metadata header now (serde.value_from_slice bytes)

  unfoldable pub read_found : FilePath → Option (Bytes × Node) → M Error (Lookup T)
  unfolding read_entry
  read_found path none = discard path locked
  read_found path (some (bytes, metadata)) =
      read_entry path bytes metadata (serde.header_from_slice bytes)

  unfoldable pub read : M Error (Lookup T)
  unfolding read_found discard
  read = do
    ensure_dir (entries_dir inner)
    found ← Files.read x (entry_path inner key.digest) inner.limits.max_entry_bytes
    read_found (entry_path inner key.digest) found

module _ {T : Type 0} (x : External) (serde : Serde T) (inner : Inner) where
  -- `Cache::lookup`
  unfoldable pub cache_lookup : Key → M Error (Lookup T)
  unfolding read
  cache_lookup key = read x serde inner key false

  -- `KeyLock::lookup`
  unfoldable pub locked_lookup : KeyLock → M Error (Lookup T)
  unfolding read
  locked_lookup self = read x serde inner self.key true
