-- ===== src/Cache/Store/RoundTrip.antt =====
-- A value stored by crates/unixd-cache/src/cache.rs, and the lookups of it on disk.
use mathlib.Core.Option
use unixd.Prelude.{
  ℕ, ◌+◌, ◌≤◌, ◌≡◌, refl, sym, ap, subst, ◌∙◌, true, false, Option, none, some, Result, ok, Bytes,
  list_eq, nat_eq, ◌==◌, ==_refl, arith, length, min, u64_max, ltb, leb, if◌then◌else◌, inl, inr,
  Bool-cases,
}
use unixd.Cache.Error.{Error}
use unixd.Cache.Policy.{Policy}
use unixd.Cache.Key.{Key}
use unixd.Cache.Os.{Node, World, is_file, is_dir, pure, ◌>>=◌, now_ms}
use unixd.Cache.Fs.{External, at_path}
use unixd.Cache.Effects.{Bind, goes_on, stops, Bind-cases}
use unixd.Cache.Footprint.{node_data}
use unixd.Cache.ExternalLaws.{TemporaryLaws, ReadLaws}
use unixd.Cache.Entry.{
  Inner, Serde, Written, Lookup, miss, fresh, stale, entries_dir, entry_path, is_digest, millis,
}
use unixd.Cache.Read.{cache_lookup, mismatched}
use unixd.Cache.Read.Calm.{calm, OnDisk, by_horizons, lookup_calm}
use unixd.Cache.Store.{entry_of, write_atomic, write_encoded, store_locked}
use unixd.Cache.Store.Filling.{Has, never}
use unixd.Cache.Store.Atomic.{write_atomic-Replaced}
use unixd.Cache.Store.Horizons.{header_of, header, cached, classify-entry_of}

-- What serde_json documents of an entry that it wrote: its header and its value parse back, and its bytes
-- fit in memory.
pub record RoundTrips {T : Type 0} (serde : Serde T) : Type 0 where
  pub parses :
      (e : Written T) (bytes : Bytes)
      → serde.to_vec e ≡ some bytes
      → (serde.header_from_slice bytes ≡ some (header_of e))
        × (serde.value_from_slice bytes ≡ some e.value)
  pub fits : (e : Written T) (bytes : Bytes) → serde.to_vec e ≡ some bytes → length bytes ≤ u64_max

-- The directory of entries is the caller's own.
pub record OwnDirectory (inner : Inner) (w : World) : Type 0 where
  pub dir : Node
  pub there : at_path (entries_dir inner) w ≡ some dir
  pub is_directory : is_dir dir.file_type ≡ true
  pub mine : (dir.uid == w.euid) ≡ true

found_node :
    (o : Option Node) (d : Node)
    → Option.map node_data o ≡ some d
    → (n : Node) × (o ≡ some n) × (n.file_type ≡ d.file_type) × (n.content ≡ d.content)
found_node none d e = absurd (cc)
found_node (some n) d e = (n, refl, ground arith, ground arith)

module _ {T : Type 0} (x : External) (temporary : TemporaryLaws x) (opens : ReadLaws x)
    (serde : Serde T) (laws : RoundTrips serde) (inner : Inner) (key : Key) (policy : Policy)
    (value : T) (d : is_digest key.digest ≡ true)
    (small : inner.limits.max_entry_bytes ≤ u64_max) where
  -- What a store that succeeded has encoded and written.
  record Encoded (stored : ℕ) (v : World) : Type 0 where
    bytes : Bytes
    encoded : serde.to_vec (entry_of inner key policy stored value) ≡ some bytes
    within : length bytes ≤ inner.limits.max_entry_bytes
    has : Has (entry_path inner key.digest) bytes v

  write_encoded_ok :
      (o : Option Bytes) (stored : ℕ) (w : World)
      → serde.to_vec (entry_of inner key policy stored value) ≡ o
      → (write_encoded x serde inner key o w).0 ≡ ok none
      → Encoded stored (write_encoded x serde inner key o w).1
  unfolding write_encoded
  write_encoded_ok none stored w e done = absurd (cc)
  write_encoded_ok (some bytes) stored w e done =
      elim (Bool-cases (ltb inner.limits.max_entry_bytes (min (length bytes) u64_max))) [
        | inl large ↦ absurd (too_large (rw large at done))
        | inr fitting ↦ rw fitting (
            by_write bytes stored w e (ground (arith, fitting, laws.fits _ bytes e))
              (rw fitting at done)
              (Bind-cases (write_atomic x inner key.digest bytes) (λ _. pure none) w))
      ]
    where
      too_large : {n : ℕ} → ◌≡◌ {A = Result Error (Option ℕ)} (ok (some n)) (ok none) → ⊥
      too_large e = cc

      by_write :
          (bytes : Bytes) (stored : ℕ) (w : World)
          → serde.to_vec (entry_of inner key policy stored value) ≡ some bytes
          → length bytes ≤ inner.limits.max_entry_bytes
          → ((write_atomic x inner key.digest bytes >>= (λ _. pure {A = Option ℕ} none)) w).0
            ≡ ok none
          → Bind {A = Unit {0}} {B = Option ℕ}
              (write_atomic x inner key.digest bytes)
              (λ _. pure none)
              w
          → Encoded stored
              ((write_atomic x inner key.digest bytes >>= (λ _. pure {A = Option ℕ} none)) w).1
      by_write bytes stored w e within done (goes_on a written whole) =
          subst (λ (r : Result Error (Option ℕ) × World). Encoded stored r.1) (sym whole)
            (record {
              bytes = bytes;
              encoded = e;
              within = within;
              has = (write_atomic-Replaced x temporary inner key.digest bytes d w).1 written;
            })
      by_write bytes stored w e within done (stops k failed whole) =
          absurd
            (never k none (ap (λ (r : Result Error (Option ℕ) × World). r.0) (sym whole) ∙ done))

  store_locked_ok :
      (w : World)
      → (store_locked x serde inner key policy value w).0 ≡ ok none
      → Encoded (w.clock 0) (store_locked x serde inner key policy value w).1
  unfolding store_locked now_ms ◌>>=◌
  store_locked_ok w done = write_encoded_ok _ (w.clock 0) _ refl done

  on_disk :
      (stored : ℕ) (v : World) (e : Encoded stored v)
      → OwnDirectory inner v
      → (disk : OnDisk inner key.digest v) × (disk.node.content ≡ e.bytes)
  on_disk stored v e own =
      let (node, there, type, content) =
        found_node (at_path (entry_path inner key.digest) v) e.has.node e.has.there in
      let same = content ∙ e.has.whole in
      (
        record {
          dir = own.dir;
          dir_there = own.there;
          is_directory = own.is_directory;
          mine = own.mine;
          node = node;
          there = there;
          regular = ap is_file (type ∙ e.has.regular);
          within = subst (λ b. length b ≤ inner.limits.max_entry_bytes) (sym same) e.within;
        },
        same,
      )

  looked_up :
      (stored : ℕ) (v : World)
      → stored ≤ u64_max
      → Encoded stored v
      → OwnDirectory inner v
      → (cache_lookup x serde inner key (calm v)).0
        ≡ ok
            (by_horizons inner (header inner key policy value stored (v.clock 0)) (v.clock 0) value)
  unfolding entry_of mismatched
  looked_up stored v fits e own =
      let (disk, same) = on_disk stored v e own in
      let (parsed, back) = laws.parses (entry_of inner key policy stored value) e.bytes e.encoded in
      let ordered = (classify-entry_of inner key policy value stored (v.clock 0) fits).0 in
      lookup_calm x opens serde inner key (header inner key policy value stored (v.clock 0)) value v
        disk small (ap serde.header_from_slice same ∙ parsed)
        (ap serde.value_from_slice same ∙ back) (ground arith)
        (rw (ordered, ==_refl key.digest, ==_refl key.namespace) refl)

  abbrev fresh_until : ℕ → ℕ
  fresh_until stored = min (stored + millis policy.fresh) u64_max

  abbrev stale_until : ℕ → ℕ
  stale_until stored = min ((stored + millis policy.fresh) + millis policy.stale_if_error) u64_max

  -- What the policy promises of a value stored at one time and looked up at another.
  abbrev pub promised : ℕ → ℕ → Lookup T
  promised stored now =
      if leb now (fresh_until stored)
      then fresh (cached inner key policy value stored now)
      else if leb now (stale_until stored)
      then stale (cached inner key policy value stored now)
      else miss

  abbrev stale_at : ℕ → ℕ
  stale_at stored = (entry_of inner key policy stored value).stale_until_ms

  by_horizons-promised :
      (stored now : ℕ)
      → stored ≤ u64_max
      → by_horizons inner (header inner key policy value stored now) now value ≡ promised stored now
  by_horizons-promised stored now fits =
      let (_, is_fresh, is_stale, ends) =
        classify-entry_of inner key policy value stored now fits in
      elim (Bool-cases (leb now (fresh_until stored))) [
        | inl early ↦
            let in_time : ltb (stale_at stored) now ≡ false = ground (arith, early, ends) in
            rw (in_time, early) (is_fresh (ground (arith, early)))
        | inr late ↦ elim (Bool-cases (leb now (stale_until stored))) [
          | inl kept ↦
              let in_time : ltb (stale_at stored) now ≡ false = ground (arith, kept, ends) in
              rw (in_time, late, kept) (is_stale (ground (arith, late)))
          | inr over ↦
              let past : ltb (stale_at stored) now ≡ true = ground (arith, over, ends) in
              rw (past, late, over) refl
        ]
      ]

  -- A round trip over the disk. When a store by the holder of the key's lock has written its entry, at a
  -- time that fits `u64`, a lookup right after it finds the value with its age and source: fresh up to the
  -- policy's fresh duration after that time, stale up to its stale duration after that, and a miss from
  -- then on; provided that no call of the lookup fails, that the directory of entries is still the
  -- caller's own, and that serde_json reads back what it wrote.
  pub cache_lookup-store_locked :
      (w : World)
      → w.clock 0 ≤ u64_max
      → (store_locked x serde inner key policy value w).0 ≡ ok none
      → OwnDirectory inner (store_locked x serde inner key policy value w).1
      → (cache_lookup x serde inner key (calm (store_locked x serde inner key policy value w).1)).0
        ≡ ok (promised (w.clock 0) ((store_locked x serde inner key policy value w).1.clock 0))
  cache_lookup-store_locked w fits done own =
      looked_up (w.clock 0) (store_locked x serde inner key policy value w).1 fits
        (store_locked_ok w done) own
      ∙ ap ok (
          by_horizons-promised (w.clock 0)
            ((store_locked x serde inner key policy value w).1.clock 0) fits)
