-- ===== src/Cache/Read/Healed.antt =====
-- What a lookup by the holder of the key's lock in crates/unixd-cache/src/cache.rs leaves after a miss.
use mathlib.Core.Option
use unixd.Prelude.{
  ℕ, ◌≡◌, ◌≤◌, ◌<◌, refl, sym, ap, subst, ◌∙◌, Bool, true, false, List, [], ◌∷◌, Option, none, some,
  Result, ok, Bytes, list_eq, nat_eq, ◌==◌, ==_refl, inl, inr, Bool-cases, arith, ltb, leb, length,
  u64_max, if◌then◌else◌, ◌&&◌,
}
use unixd.Cache.Error.{Error, ErrorKind}
use unixd.Cache.Key.{Key}
use unixd.Cache.Os.{M, is_file, FilePath, Node, World, ignore, ◌>>=◌, now_ms}
use unixd.Cache.Fs.{External, at_path}
use unixd.Cache.Effects.{bind_went_on}
use unixd.Cache.Footprint.{Tolerates, Rest, untaken, taken, data_in, node_data}
use unixd.Cache.ExternalLaws.{OpenLaws, ReadLaws, only}
use unixd.Cache.Private.{ensure_dir}
use unixd.Cache.Private.Files
use unixd.Cache.Private.Honest.{Honest, remove-Gone, remove_quiet}
use unixd.Cache.Private.Footprint.{Does-ensure_dir}
use unixd.Cache.Private.FileFootprint.{Does-read}
use unixd.Cache.Private.ReadResult.{read_ok}
use unixd.Cache.Entry.{
  Inner, Header, Serde, Cached, Lookup, miss, fresh, stale, entries_dir, entry_path,
}
use unixd.Cache.Read.{
  discard, classify, mismatched, read_value, read_entry, read_found, read, touch_used,
}
use unixd.Cache.Paths.{entry_path-ne-entries_dir}
use unixd.Cache.Read.Calm.{calm, read_calm}
use unixd.Cache.Read.Untouched.{Frame-Tolerates}

record QuietAfter (w v : World) : Type 0 where
  kept : w.faults ≡ [] → v.faults ≡ []

no_Rest : (fs gs : List (Option ErrorKind)) → Rest fs gs → fs ≡ [] → gs ≡ []
no_Rest fs gs (untaken e) quiet = sym e ∙ quiet
no_Rest fs gs (taken {fault} rest) quiet = absurd (full (no_Rest fs (fault ∷ gs) rest quiet))
  where
    full : {fault : Option ErrorKind} → (fault ∷ gs) ≡ [] → ⊥
    full e = cc

QuietAfter-Tolerates : Tolerates QuietAfter (λ q. true)
QuietAfter-Tolerates = record {
  effect = record {
    same = λ w. record { kept = λ h. h };
    chain = λ u v w f g. record { kept = λ h. g.kept (f.kept h) };
  };
  faults = λ w fs rest. record { kept = no_Rest w.faults fs rest };
  nodes = λ w n i agree. record { kept = λ h. h };
}

-- The node at the path is a regular file within the limit of one entry, with the header of a schema that is
-- newer than the cache's.
pub record Newer {T : Type 0} (serde : Serde T) (inner : Inner) (p : FilePath) (w : World)
    : Type 0 where
  pub node : Node
  pub there : data_in p w.nodes ≡ some (node_data node)
  pub regular : is_file node.file_type ≡ true
  pub within : length node.content ≤ inner.limits.max_entry_bytes
  pub header : Header
  pub parsed : serde.header_from_slice node.content ≡ some header
  pub newer : inner.schema < header.schema

Newer-same :
    {T : Type 0} (serde : Serde T) (inner : Inner) (p : FilePath) (w v : World)
    → data_in p v.nodes ≡ data_in p w.nodes
    → Newer serde inner p w
    → Newer serde inner p v
Newer-same serde inner p w v same n = record {
  node = n.node;
  there = same ∙ n.there;
  regular = n.regular;
  within = n.within;
  header = n.header;
  parsed = n.parsed;
  newer = n.newer;
}

found_node :
    (o : Option Node) (d : Node)
    → Option.map node_data o ≡ some (node_data d)
    → (n : Node) × (o ≡ some n) × (n.file_type ≡ d.file_type) × (n.content ≡ d.content)
found_node none d e = absurd (cc)
found_node (some n) d e = (n, refl, ground arith, ground arith)

module _ {T : Type 0} (x : External) (laws : OpenLaws x) (reads : ReadLaws x) (serde : Serde T)
    (inner : Inner) (key : Key) (small : inner.limits.max_entry_bytes ≤ u64_max) where
  abbrev p : FilePath
  p = entry_path inner key.digest

  abbrev Outcome : Type 0
  Outcome = Result Error (Lookup T) × World

  -- A miss, from a world `w` on: what is newer stays, and else nothing does.
  pub record Healed (w v : World) : Type 0 where
    pub stays : Newer serde inner p w → data_in p v.nodes ≡ data_in p w.nodes
    pub goes : (Newer serde inner p w → ⊥) → at_path p v ≡ none

  discarded : (w : World) → w.faults ≡ [] → at_path p (discard {T = T} p true w).1 ≡ none
  unfolding discard ignore ◌>>=◌ Honest
  discarded w quiet = (remove-Gone p w (subst Honest (sym quiet) tt) (remove_quiet p w quiet)).gone

  -- A value that was read is served.
  served :
      (node : Node) (header : Header) (now : ℕ) (value : T) (w : World)
      → (read_value x serde inner key true p node header now (some value) w).0 ≡ ok miss
      → ⊥
  unfolding read_value classify
  served node header now value w e =
      let (_, _, whole) = bind_went_on (touch_used x serde inner key true p node now) _ w miss e in
      neither _ (header.schema == inner.schema && leb now header.fresh_until_ms)
        (ap (λ (r : Outcome). r.0) (sym whole) ∙ e)
    where
      neither :
          (c : Cached T) (b : Bool)
          → ◌≡◌ {A = Result Error (Lookup T)} (ok (if b then fresh c else stale c)) (ok miss)
          → ⊥
      neither c true e = cc
      neither c false e = cc

  value_goes :
      (node : Node) (header : Header) (now : ℕ) (o : Option T) (w : World)
      → w.faults ≡ []
      → (read_value x serde inner key true p node header now o w).0 ≡ ok miss
      → at_path p (read_value x serde inner key true p node header now o w).1 ≡ none
  unfolding read_value
  value_goes node header now none w quiet e = discarded w quiet
  value_goes node header now (some value) w quiet e = absurd (served node header now value w e)

  -- An entry that is read is removed, unless it is of a newer schema.
  entry_goes :
      (bytes : Bytes) (node : Node) (o : Option Header) (w : World)
      → w.faults ≡ []
      → ((header : Header) → o ≡ some header → inner.schema < header.schema → ⊥)
      → (read_entry x serde inner key true p bytes node o w).0 ≡ ok miss
      → at_path p (read_entry x serde inner key true p bytes node o w).1 ≡ none
  unfolding read_entry now_ms ◌>>=◌
  entry_goes bytes node none w quiet known e = discarded w quiet
  entry_goes bytes node (some header) w quiet known e =
      elim (Bool-cases (ltb inner.schema header.schema)) [
        | inl later ↦ absurd (known header refl (ground (arith, later)))
        | inr same ↦ elim (Bool-cases (mismatched x serde inner key true header)) [
          | inl other_key ↦ rw (same, other_key) (discarded w quiet)
          | inr own ↦ elim (Bool-cases (ltb header.stale_until_ms (w.clock 0))) [
            | inl late ↦ rw (same, own, late) (discarded _ quiet)
            | inr in_time ↦
                rw (same, own, in_time)
                  (value_goes node header (w.clock 0) (serde.value_from_slice bytes) _ quiet
                    (rw (same, own, in_time) at e))
          ]
        ]
      ]

  found_goes :
      (o : Option (Bytes × Node)) (v : World)
      → v.faults ≡ []
      → ((bytes : Bytes) (node : Node) (header : Header)
          → o ≡ some (bytes, node)
          → serde.header_from_slice bytes ≡ some header
          → inner.schema < header.schema
          → ⊥)
      → (read_found x serde inner key true p o v).0 ≡ ok miss
      → at_path p (read_found x serde inner key true p o v).1 ≡ none
  unfolding read_found
  found_goes none v quiet known e = discarded v quiet
  found_goes (some (bytes, node)) v quiet known e =
      entry_goes bytes node (serde.header_from_slice bytes) v quiet
        (λ header parsed newer. known bytes node header refl parsed newer) e

  -- An entry of a newer schema is a miss that changes nothing.
  found_stays :
      (node : Node) (header : Header) (v : World)
      → serde.header_from_slice node.content ≡ some header
      → inner.schema < header.schema
      → (read_found x serde inner key true p (some (node.content, node)) v).1 ≡ v
  unfolding read_found read_entry
  found_stays node header v parsed newer =
      let later : ltb inner.schema header.schema ≡ true = ground (arith, newer) in
      rw (parsed, later) refl

  module _ (w : World) (quiet : w.faults ≡ []) where
    abbrev w1 : World
    w1 = (ensure_dir (entries_dir inner) w).1

    quiet1 : w1.faults ≡ []
    quiet1 = ((Does-ensure_dir QuietAfter-Tolerates (entries_dir inner) refl).from w).kept quiet

    same1 : data_in p w1.nodes ≡ data_in p w.nodes
    same1 =
        ((Does-ensure_dir (Frame-Tolerates (only (entries_dir inner))) (entries_dir inner)
              (==_refl (entries_dir inner))).from
            w).at
          p (entry_path-ne-entries_dir inner key.digest)

    read-Newer :
        Newer serde inner p w1
        → (after : Option (Bytes × Node) → M Error (Lookup T))
        → ((header : Header) (node : Node)
            → serde.header_from_slice node.content ≡ some header
            → inner.schema < header.schema
            → (after (some (node.content, node)) w1).1 ≡ w1)
        → ((Files.read x p inner.limits.max_entry_bytes >>= after) w1).1 ≡ w1
    unfolding ◌>>=◌
    read-Newer n after unchanged =
        let (node, there, type, content) = found_node (at_path p w1) n.node n.there in
        let calm1 : calm w1 ≡ w1 = sym (ap (λ fs. record w1 { faults = fs }) quiet1) in
        let opened =
          read_calm x reads p inner.limits.max_entry_bytes w1 node there
            (ap is_file type ∙ n.regular)
            (subst (λ b. length b ≤ inner.limits.max_entry_bytes) (sym content) n.within) small in
        let done =
          subst
            (λ v.
              Files.read x p inner.limits.max_entry_bytes v ≡ (ok (some (node.content, node)), v))
            calm1 opened in
        rw done (unchanged n.header node (ap serde.header_from_slice content ∙ n.parsed) n.newer)

    -- A miss under the key's lock cleans up. Where no call fails, a lookup by the holder of the key's lock
    -- that ends in a miss removes whatever is at the key's path (an entry that is malformed, too large, of
    -- another key or past its stale horizon, or what is no file at all), so that nothing is there after it,
    -- with one exception: a regular file within the size limit whose header is of a newer schema than the
    -- cache's stays as it is (its file type, owner, inode and content).
    pub read-Healed :
        (read x serde inner key true w).0 ≡ ok miss → Healed w (read x serde inner key true w).1
    unfolding read
    read-Healed e =
        let (_, _, ensured) = bind_went_on (ensure_dir (entries_dir inner)) _ w miss e in
        let e1 = ap (λ (r : Outcome). r.0) (sym ensured) ∙ e in
        let (o, found, opened) =
          bind_went_on (Files.read x p inner.limits.max_entry_bytes) _ w1 miss e1 in
        let w2 : World = (Files.read x p inner.limits.max_entry_bytes w1).1 in
        let e2 = ap (λ (r : Outcome). r.0) (sym opened) ∙ e1 in
        let quiet2 =
          ((Does-read QuietAfter-Tolerates x laws p inner.limits.max_entry_bytes).from w1).kept
            quiet1 in
        record {
          stays = λ n.
              ap (λ (v : World). data_in p v.nodes)
                (ap (λ (r : Outcome). r.1) ensured
                  ∙ read-Newer (Newer-same serde inner p w w1 same1 n)
                      (read_found x serde inner key true p)
                      (λ header node parsed newer. found_stays node header w1 parsed newer))
              ∙ same1;
          goes = λ not_newer.
              subst (λ (r : Outcome). at_path p r.1 ≡ none) (sym (ensured ∙ opened))
                (found_goes o w2 quiet2
                  (λ bytes node header same parsed newer.
                    let file =
                      read_ok x laws p inner.limits.max_entry_bytes w1 bytes node small
                        (found ∙ ap ok same) in
                    not_newer (
                      Newer-same serde inner p w1 w (sym same1) (record {
                        node = node;
                        there = ap (Option.map node_data) file.there;
                        regular = file.regular;
                        within = file.within;
                        header = header;
                        parsed = ap serde.header_from_slice (sym file.whole) ∙ parsed;
                        newer = newer;
                      })))
                  e2);
        }
