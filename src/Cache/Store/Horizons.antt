-- ===== src/Cache/Store/Horizons.antt =====
-- What `store` of crates/unixd-cache/src/cache.rs writes, as a later lookup reads it.
use unixd.Prelude.{
  ℕ, ◌+◌, ◌-◌, ◌≡◌, ◌≤◌, ◌<◌, refl, true, false, list_eq, nat_eq, ==_refl, leb, min, u64_max,
  saturating_add, arith,
}
use unixd.Cache.Policy.{Policy}
use unixd.Cache.Key.{Key}
use unixd.Cache.Entry.{Inner, Header, Written, Cached, fresh, stale, consistent, millis}
use unixd.Cache.Read.{classify}
use unixd.Cache.Store.{entry_of}

-- The header that the lookup parses of the entry as it was written.
abbrev pub header_of : {T : Type 0} → Written T → Header
header_of written = record {
  format = written.format;
  schema = written.schema;
  namespace = written.namespace;
  digest = written.digest;
  stored_at_ms = written.stored_at_ms;
  fresh_until_ms = written.fresh_until_ms;
  stale_until_ms = written.stale_until_ms;
  source = written.source;
}

module _ {T : Type 0} (inner : Inner) (key : Key) (policy : Policy) (value : T)
    (stored later : ℕ) where
  abbrev pub header : Header
  header = header_of (entry_of inner key policy stored value)

  abbrev pub cached : Cached T
  cached = record {
    value = value;
    stored_at_ms = stored;
    age_ms = later - stored;
    source = policy.source;
  }

  -- An entry stored at a time that fits `u64` has the layout that a lookup demands, whatever the
  -- policy's durations are; for the cache of the same schema it is fresh up to the policy's fresh
  -- duration after that time, and stale after it, with its age and source; and its stale horizon is
  -- both durations after that time; all three capped at the largest `u64`.
  pub classify-entry_of :
      stored ≤ u64_max
      → (consistent header ≡ true)
        × (later ≤ min (stored + millis policy.fresh) u64_max
            → classify inner header later value ≡ fresh cached)
        × (min (stored + millis policy.fresh) u64_max < later
            → classify inner header later value ≡ stale cached)
        × (header.stale_until_ms
            ≡ min ((stored + millis policy.fresh) + millis policy.stale_if_error) u64_max)
  unfolding entry_of consistent classify saturating_add
  classify-entry_of fits =
      (ordered, (λ early. is_fresh early), (λ late. is_stale late), omega arith)
    where
      ordered : consistent header ≡ true
      ordered = ground (arith, fits)

      is_fresh :
          later ≤ min (stored + millis policy.fresh) u64_max
          → classify inner header later value ≡ fresh cached
      is_fresh early =
          let within : leb later (min (stored + millis policy.fresh) u64_max) ≡ true =
            ground (arith, early) in
          rw (==_refl inner.schema, within) refl

      is_stale :
          min (stored + millis policy.fresh) u64_max < later
          → classify inner header later value ≡ stale cached
      is_stale late =
          let past : leb later (min (stored + millis policy.fresh) u64_max) ≡ false =
            ground (arith, late) in
          rw (==_refl inner.schema, past) refl
