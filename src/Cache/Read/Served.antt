-- ===== src/Cache/Read/Served.antt =====
-- What a lookup of crates/unixd-cache/src/cache.rs serves.
use mathlib.Core.Option
use unixd.Prelude.{
  ℕ, ◌-◌, ◌≤◌, ◌≡◌, refl, sym, subst, ◌∙◌, ap, Bool, true, false, ◌&&◌, Option, none, some, Result,
  ok, Bytes, list_eq, nat_eq, ◌==◌, ==_iff, ==_refl, arith, length, u64_max, inl, inr, Bool-cases,
  ltb, leb,
}
use unixd.Cache.Error.{Error}
use unixd.Cache.Key.{Key}
use unixd.Cache.Os.{FilePath, Node, World, is_file, ◌>>=◌, ignore, now_ms}
use unixd.Cache.Fs.{External, at_path}
use unixd.Cache.Effects.{bind_ok}
use unixd.Cache.Footprint.{Tolerates, data_in, node_data}
use unixd.Cache.ExternalLaws.{OpenLaws, only}
use unixd.Cache.Private.Files
use unixd.Cache.Private.Files.{read_opened, read_refused, read_to_end}
use unixd.Cache.Private.{ensure_dir}
use unixd.Cache.Private.Footprint.{Does-ensure_dir}
use unixd.Cache.Private.FileFootprint.{Does-read}
use unixd.Cache.Entry.{
  Inner, Header, Serde, Lookup, miss, fresh, stale, Cached, consistent, entries_dir, entry_path,
}
use unixd.Cache.Paths.{entry_path-ne-entries_dir}
use unixd.Cache.Read.{
  discard, classify, mismatched, touch_used, read_value, read_entry, read_found, read,
}
use unixd.Cache.Private.ReadResult.{Opened, read_ok}

-- As `Frame`, with no reading of the clock.
pub record Still (changes : FilePath → Bool) (w v : World) : Type 0 where
  pub at : (q : FilePath) → changes q ≡ false → data_in q v.nodes ≡ data_in q w.nodes
  pub clock : v.clock ≡ w.clock

Still-Tolerates : (changes : FilePath → Bool) → Tolerates (Still changes) changes
Still-Tolerates changes = record {
  effect = record {
    same = λ w. record { at = λ q out. refl; clock = refl };
    chain =
        λ u v w f g. record { at = λ q out. g.at q out ∙ f.at q out; clock = g.clock ∙ f.clock };
  };
  faults = λ w fs rest. record { at = λ q out. refl; clock = refl };
  nodes = λ w n i agree. record { at = agree; clock = refl };
}

now_ok : (w : World) (n : ℕ) → (now_ms {E = Error} w).0 ≡ ok n → n ≡ w.clock 0
unfolding now_ms
now_ok w n e = cc

Opened-data :
    (limit : ℕ) (bytes : Bytes) (node : Node) (found : Option Node)
    → Opened limit bytes node found
    → Opened limit bytes (node_data node) (Option.map node_data found)
Opened-data limit bytes node found o = record {
  there = ap (Option.map node_data) o.there;
  regular = o.regular;
  within = o.within;
  whole = o.whole;
}

module _ {T : Type 0} (serde : Serde T) (inner : Inner) (key : Key) where
  -- The node `found` is a file with an entry of the key, alive at `now`, and `c` is its value.
  pub record IsEntry (found : Option Node) (now : ℕ) (h : Header) (c : Cached T) : Type 0 where
    pub node : Node
    pub there : found ≡ some node
    pub regular : is_file node.file_type ≡ true
    pub within : length node.content ≤ inner.limits.max_entry_bytes
    pub header : serde.header_from_slice node.content ≡ some h
    pub value : serde.value_from_slice node.content ≡ some c.value
    pub digest : h.digest ≡ key.digest
    pub namespace : h.namespace ≡ key.namespace
    pub ordered : (h.stored_at_ms ≤ h.fresh_until_ms) × (h.fresh_until_ms ≤ h.stale_until_ms)
    pub alive : now ≤ h.stale_until_ms
    pub schema : h.schema ≤ inner.schema
    pub stored_at : c.stored_at_ms ≡ h.stored_at_ms
    pub age : c.age_ms ≡ now - h.stored_at_ms
    pub source : c.source ≡ h.source

  -- What the result of a lookup at time `now` says of the node.
  abbrev pub Serves : Option Node → ℕ → Lookup T → Type 0
  Serves found now miss = Unit {0}
  Serves found now (fresh c) =
      (h : Header) × IsEntry found now h c × (h.schema ≡ inner.schema) × (now ≤ h.fresh_until_ms)
  Serves found now (stale c) =
      (h : Header) × IsEntry found now h c
      × ¬ ((h.schema ≡ inner.schema) × (now ≤ h.fresh_until_ms))

  abbrev cached_of : Header → ℕ → T → Cached T
  cached_of h now v = record {
    value = v;
    stored_at_ms = h.stored_at_ms;
    age_ms = now - h.stored_at_ms;
    source = h.source;
  }

  classify-Serves :
      (found : Option Node) (now : ℕ) (h : Header) (v : T)
      → IsEntry found now h (cached_of h now v)
      → Serves found now (classify inner h now v)
  unfolding classify
  classify-Serves found now h v entry =
      elim (Bool-cases (h.schema == inner.schema && leb now h.fresh_until_ms)) [
        | inl yes_fresh ↦ rw (yes_fresh, classify) (h, entry, ground arith, ground arith)
        | inr not_fresh ↦ rw (not_fresh, classify) (h, entry, λ both. ground arith)
      ]

  module _ (x : External) (locked : Bool) where
    discard_misses :
        (p : FilePath) (b : Bool) (w : World) (l : Lookup T) → (discard p b w).0 ≡ ok l → l ≡ miss
    unfolding discard ◌>>=◌ ignore
    discard_misses p true w l e = cc
    discard_misses p false w l e = cc

    matched :
        (h : Header)
        → mismatched x serde inner key locked h ≡ false
        → (h.digest ≡ key.digest)
          × (h.namespace ≡ key.namespace)
          × (h.stored_at_ms ≤ h.fresh_until_ms)
          × (h.fresh_until_ms ≤ h.stale_until_ms)
    unfolding mismatched consistent
    matched h e = ground (arith, ==_iff h.digest key.digest, ==_iff h.namespace key.namespace)

    cached_of-IsEntry :
        (p : FilePath) (m node : Node) (bytes : Bytes) (found : Option Node) (h : Header) (now : ℕ)
        (v : T)
        → Opened inner.limits.max_entry_bytes bytes node found
        → serde.header_from_slice bytes ≡ some h
        → serde.value_from_slice bytes ≡ some v
        → h.schema ≤ inner.schema
        → mismatched x serde inner key locked h ≡ false
        → now ≤ h.stale_until_ms
        → IsEntry found now h (cached_of h now v)
    cached_of-IsEntry p m node bytes found h now v o eh ev s mm a =
        let (d, n, f, g) = matched h mm in
        record {
          node = node;
          there = o.there;
          regular = o.regular;
          within = o.within;
          header = ap serde.header_from_slice (sym o.whole) ∙ eh;
          value = ap serde.value_from_slice (sym o.whole) ∙ ev;
          digest = d;
          namespace = n;
          ordered = (f, g);
          alive = a;
          schema = s;
          stored_at = refl;
          age = refl;
          source = refl;
        }

    value_Serves :
        (p : FilePath) (m node : Node) (bytes : Bytes) (found : Option Node) (h : Header) (now : ℕ)
        (v : Option T) (w : World) (l : Lookup T)
        → Opened inner.limits.max_entry_bytes bytes node found
        → serde.header_from_slice bytes ≡ some h
        → serde.value_from_slice bytes ≡ v
        → h.schema ≤ inner.schema
        → mismatched x serde inner key locked h ≡ false
        → now ≤ h.stale_until_ms
        → (read_value x serde inner key locked p m h now v w).0 ≡ ok l
        → Serves found now l
    unfolding read_value
    value_Serves p m node bytes found h now none w l o eh ev s mm a e =
        rw (discard_misses p locked w l e) tt
    value_Serves p m node bytes found h now (some v) w l o eh ev s mm a e =
        let (_, _, last) = bind_ok (touch_used x serde inner key locked p m now) _ w e in
        subst (Serves found now) (cc) (
          classify-Serves found now h v
            (cached_of-IsEntry p m node bytes found h now v o eh ev s mm a))

    entry_Serves :
        (p : FilePath) (m node : Node) (bytes : Bytes) (found : Option Node) (h : Option Header)
        (w : World) (l : Lookup T)
        → Opened inner.limits.max_entry_bytes bytes node found
        → serde.header_from_slice bytes ≡ h
        → (read_entry x serde inner key locked p bytes m h w).0 ≡ ok l
        → Serves found (w.clock 0) l
    unfolding read_entry
    entry_Serves p m node bytes found none w l o eh e = rw (discard_misses p locked w l e) tt
    entry_Serves p m node bytes found (some h) w l o eh e =
        elim (Bool-cases (ltb inner.schema h.schema)) [
          | inl newer ↦ rw (missed l (rw newer at e)) tt
          | inr old ↦ elim (Bool-cases (mismatched x serde inner key locked h)) [
            | inl mm ↦ rw (discard_misses p locked w l (rw (old, mm) at e)) tt
            | inr mm ↦
                let (now, hn, rest) = bind_ok now_ms _ w (rw (old, mm) at e) in
                let at_now : now ≡ w.clock 0 = now_ok w now hn in
                subst (λ n. Serves found n l) at_now
                  (elim (Bool-cases (ltb h.stale_until_ms now)) [
                    | inl past ↦ rw (discard_misses p locked _ l (rw past at rest)) tt
                    | inr alive ↦
                        value_Serves p m node bytes found h now (serde.value_from_slice bytes) _ l o
                          eh refl (ground arith) mm (ground arith) (rw alive at rest)
                  ])
          ]
        ]
      where
        missed : (l : Lookup T) → ◌≡◌ {A = Result Error (Lookup T)} (ok miss) (ok l) → l ≡ miss
        missed l e = cc

    module _ (laws : OpenLaws x) (small : inner.limits.max_entry_bytes ≤ u64_max) where
      abbrev path : FilePath
      path = entry_path inner key.digest

      found_Serves :
          (r : Option (Bytes × Node)) (u w : World) (l : Lookup T)
          → (Files.read x path inner.limits.max_entry_bytes u).0 ≡ ok r
          → (read_found x serde inner key locked path r w).0 ≡ ok l
          → Serves (data_in path u.nodes) (w.clock 0) l
      unfolding read_found
      found_Serves none u w l hr e = rw (discard_misses path locked w l e) tt
      found_Serves (some (bytes, m)) u w l hr e =
          let o = read_ok x laws path inner.limits.max_entry_bytes u bytes m small hr in
          entry_Serves path m (node_data m) bytes (data_in path u.nodes)
            (serde.header_from_slice bytes) w l
            (Opened-data inner.limits.max_entry_bytes bytes m (at_path path u) o) refl e

      -- A lookup of either kind that returns at time `now` (the clock's next reading) serves as fresh
      -- or stale only the value of a regular file at the key's path that is within the size limit and
      -- whose header has the key's digest and namespace, ordered horizons, a stale horizon not before
      -- `now` and no newer schema. It is fresh exactly when the schema is the cache's and the fresh
      -- horizon is not before `now`; its time, age and source are the header's.
      pub read-Serves :
          (w : World) (l : Lookup T)
          → (read x serde inner key locked w).0 ≡ ok l
          → Serves (data_in path w.nodes) (w.clock 0) l
      unfolding read
      read-Serves w l e =
          let (_, _, rest) = bind_ok (ensure_dir (entries_dir inner)) _ w e in
          let (r, hr, last) = bind_ok (Files.read x path inner.limits.max_entry_bytes) _ _ rest in
          let changes = only (entries_dir inner) in
          let t = Still-Tolerates changes in
          let kept = (Does-ensure_dir t (entries_dir inner) (==_refl (entries_dir inner))).from w in
          let read_kept =
            (Does-read t x laws path inner.limits.max_entry_bytes).from
              (ensure_dir (entries_dir inner) w).1 in
          let out = entry_path-ne-entries_dir inner key.digest in
          let served = found_Serves r _ _ l hr last in
          subst (λ n. Serves (data_in path w.nodes) n l)
            (ap (λ (c : ℕ → ℕ). c 0) (read_kept.clock ∙ kept.clock))
            (subst
              (λ o.
                Serves o
                  ((Files.read x path inner.limits.max_entry_bytes
                      (ensure_dir (entries_dir inner) w).1).1.clock
                    0)
                  l)
              (kept.at path out) served)
