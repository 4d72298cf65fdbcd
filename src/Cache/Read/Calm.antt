-- ===== src/Cache/Read/Calm.antt =====
-- A lookup of crates/unixd-cache/src/cache.rs where no call fails.
use unixd.Prelude.{
  ℕ, ◌+◌, ◌≡◌, ◌≤◌, refl, ◌∙◌, ap, Bool, true, false, [], some, Result, ok, Bytes, list_eq, nat_eq,
  ◌==◌, arith, length, u64_max, inl, inr, Bool-cases, ltb, modify, lookup-modify, if◌then◌else◌,
  take-length, min, saturating_add, saturating_sub,
}
use unixd.Cache.Error.{Error}
use unixd.Cache.Key.{Key}
use unixd.Cache.Os.{
  FilePath, Node, World, M, is_file, is_dir, pure, attempt, lift_io, ◌>>=◌, ignore, now_ms,
}
use unixd.Cache.Fs.{External, at_path, syscall, symlink_metadata, set_permissions, metadata}
use unixd.Cache.ExternalLaws.{ReadLaws}
use unixd.Cache.Private.Files
use unixd.Cache.Private.Files.{read_opened, read_to_end}
use unixd.Cache.Private.{ensure_dir, ensure_dir_loop, ensure_dir_at, owned, set_mode}
use unixd.Cache.Entry.{
  Inner, Header, Serde, Lookup, miss, millis, modified_ms, at, entries_dir, entry_path,
}
use unixd.Cache.Paths.{entries_dir-ne-entry_path}
use unixd.Cache.Read.{
  discard, classify, mismatched, touch_used, read_value, read_entry, read_found, read, cache_lookup,
}

abbrev pub calm : World → World
calm w = record w { faults = [] }

abbrev with_mode : FilePath → World → World
with_mode path w = record w { nodes = modify path (λ node. record node { mode = 0o700 }) w.nodes }

ensure_dir-calm :
    (path : FilePath) (w : World) (dir : Node)
    → at_path path w ≡ some dir
    → is_dir dir.file_type ≡ true
    → (dir.uid == w.euid) ≡ true
    → ensure_dir path (calm w) ≡ (ok tt, with_mode path (calm w))
unfolding ensure_dir ensure_dir_loop symlink_metadata syscall attempt ◌>>=◌ owned set_mode lift_io
    set_permissions ensure_dir_at
ensure_dir-calm path w dir there is_directory mine = rw (there, is_directory, mine) (rw there refl)

module _ (x : External) (laws : ReadLaws x) where
  pub read_calm :
      (p : FilePath) (limit : ℕ) (w : World) (node : Node)
      → at_path p w ≡ some node
      → is_file node.file_type ≡ true
      → length node.content ≤ limit
      → limit ≤ u64_max
      → Files.read x p limit (calm w) ≡ (ok (some (node.content, node)), calm w)
  unfolding Files.read read_opened read_to_end metadata attempt ◌>>=◌ syscall lift_io saturating_add
  read_calm p limit w node there regular within small =
      let whole = take-length (min (limit + 1) u64_max) node.content (ground (arith, within)) in
      let fits : ltb limit (length node.content) ≡ false = ground (arith, within) in
      let fits_read : ltb limit (min (length node.content) u64_max) ≡ false =
        ground (arith, within) in
      rw (laws.opens p (calm w) node there regular refl, regular, fits)
        (rw whole (rw fits_read refl))

bind_eq :
    {E A B : Type 0} (m : M E A) (f : A → M E B) (w v : World) (a : A)
    → m w ≡ (ok a, v)
    → (m >>= f) w ≡ f a v
unfolding ◌>>=◌
bind_eq m f w v a e = rw e refl

bind_result :
    {E A B : Type 0} (m : M E A) (f : A → M E B) (w : World) (a : A)
    → (m w).0 ≡ ok a
    → ((m >>= f) w).0 ≡ (f a (m w).1).0
unfolding ◌>>=◌
bind_result m f w a e = rw e refl

either_ok :
    {E A : Type 0} {a : A} (b : Bool) (m n : M E A) (w : World)
    → (m w).0 ≡ ok a
    → (n w).0 ≡ ok a
    → ((if b then m else n) w).0 ≡ ok a
either_ok true m n w em en = em
either_ok false m n w em en = en

-- What is on disk for a lookup: the directory of entries, the caller's own, and the entry's file.
pub record OnDisk (inner : Inner) (digest : Bytes) (w : World) : Type 0 where
  pub dir : Node
  pub dir_there : at_path (entries_dir inner) w ≡ some dir
  pub is_directory : is_dir dir.file_type ≡ true
  pub mine : (dir.uid == w.euid) ≡ true
  pub node : Node
  pub there : at_path (entry_path inner digest) w ≡ some node
  pub regular : is_file node.file_type ≡ true
  pub within : length node.content ≤ inner.limits.max_entry_bytes

-- A value by its entry's horizons: nothing after the second one.
abbrev pub by_horizons : {T : Type 0} → Inner → Header → ℕ → T → Lookup T
by_horizons inner header now value =
    if ltb header.stale_until_ms now then miss else classify inner header now value

module _ {T : Type 0} (x : External) (laws : ReadLaws x) (serde : Serde T) (inner : Inner)
    (key : Key) where
  value_calm :
      (p : FilePath) (node : Node) (header : Header) (now : ℕ) (value : T) (w : World)
      → (read_value x serde inner key false p node header now (some value) w).0
        ≡ ok (classify inner header now value)
  unfolding read_value touch_used ◌>>=◌ ignore
  value_calm p node header now value w =
      bind_result (touch_used x serde inner key false p node now) _ w tt (
        either_ok (ltb (millis inner.limits.touch_after) (saturating_sub now (modified_ms node)))
          (ignore {F = Error} (Files.touch x p (at now))) (pure tt) w refl refl)

  horizons_calm :
      (p : FilePath) (bytes : Bytes) (node : Node) (header : Header) (value : T) (w : World)
      → serde.value_from_slice bytes ≡ some value
      → ltb inner.schema header.schema ≡ false
      → mismatched x serde inner key false header ≡ false
      → (read_entry x serde inner key false p bytes node (some header) w).0
        ≡ ok (by_horizons inner header (w.clock 0) value)
  unfolding read_entry discard ◌>>=◌ now_ms
  horizons_calm p bytes node header value w read_back same matches =
      elim (Bool-cases (ltb header.stale_until_ms (w.clock 0))) [
        | inl late ↦ rw (same, matches, late) refl
        | inr in_time ↦
            rw (same, matches, in_time, read_back) (value_calm p node header (w.clock 0) value _)
      ]

  pub lookup_calm :
      (header : Header) (value : T) (w : World) (d : OnDisk inner key.digest w)
      → inner.limits.max_entry_bytes ≤ u64_max
      → serde.header_from_slice d.node.content ≡ some header
      → serde.value_from_slice d.node.content ≡ some value
      → ltb inner.schema header.schema ≡ false
      → mismatched x serde inner key false header ≡ false
      → (cache_lookup x serde inner key (calm w)).0
        ≡ ok (by_horizons inner header (w.clock 0) value)
  unfolding cache_lookup read read_found
  lookup_calm header value w d small parsed read_back same matches =
      ap (λ (r : Result Error (Lookup T) × World). r.0)
        (bind_eq (ensure_dir (entries_dir inner)) _ (calm w) (calm v) tt
            (ensure_dir-calm (entries_dir inner) w d.dir d.dir_there d.is_directory d.mine)
          ∙ bind_eq (Files.read x (entry_path inner key.digest) inner.limits.max_entry_bytes) _
              (calm v) (calm v) (some (d.node.content, d.node))
              (read_calm x laws (entry_path inner key.digest) inner.limits.max_entry_bytes v d.node
                there d.regular d.within small))
      ∙ found
    where
      v : World
      v = with_mode (entries_dir inner) w

      there : at_path (entry_path inner key.digest) v ≡ some d.node
      there =
          lookup-modify (entries_dir inner) (entry_path inner key.digest) _ w.nodes
          ∙ rw (entries_dir-ne-entry_path inner key.digest) d.there

      found :
          (read_found x serde inner key false
            (entry_path inner key.digest)
            (some (d.node.content, d.node))
            (calm v)).0
          ≡ ok (by_horizons inner header (w.clock 0) value)
      found =
          ap
            (λ o.
              (read_entry x serde inner key false (entry_path inner key.digest) d.node.content
                d.node o (calm v)).0)
            parsed
          ∙ horizons_calm (entry_path inner key.digest) d.node.content d.node header value (calm v)
              read_back same matches
