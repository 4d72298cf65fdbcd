-- ===== src/Cache/Store/Atomic.antt =====
-- What `write_atomic` of crates/unixd-cache/src/cache.rs leaves at the entry's path.
use mathlib.Core.Option
use unixd.Prelude.{
  ◌≡◌, ◌≢◌, refl, sym, ap, subst, ◌∙◌, Bool, true, false, [], ◌∷◌, ◌++◌, some, Result, ok, err,
  Bytes, ascii, list_eq, nat_eq, ==_refl, inl, inr, ◌⊎◌, arith,
}
use unixd.Cache.Error.{Error, ErrorKind}
use unixd.Cache.Os.{as_io, FilePath, file, Node, Handle, World, M, join, lift_io, ◌>>=◌}
use unixd.Cache.Fs.{External, at_path}
use unixd.Cache.Effects.{Does, Does-bind, Bind, goes_on, stops, Bind-cases}
use unixd.Cache.Footprint.{ChangesOnly, data_in, node_data}
use unixd.Cache.ExternalLaws.{TemporaryLaws, only, nowhere}
use unixd.Cache.Private.{ensure_dir, sync_dir}
use unixd.Cache.Private.Files.{or_drop}
use unixd.Cache.Private.Footprint.{Does-ensure_dir, Does-sync_dir}
use unixd.Cache.Read.Untouched.{Frame, Frame-Tolerates}
use unixd.Cache.Entry.{Inner, at, entries_dir, entry_path, is_digest, temporary_suffix}
use unixd.Cache.Store.{write_atomic, fill_temporary}
use unixd.Cache.Store.FillEffects.{call_or_drop}
use unixd.Cache.Store.Filling.{
  Has, Has-Frame, Frame-ChangesOnly, never, attempt_bind, Does-or_drop, Does-fill_temporary,
  after_call_ok, fill_temporary-Has,
}
use unixd.Cache.Private.ReadResult.{lift_ok}
use unixd.Cache.Paths.{ne→==, entry_path-ne-entries_dir, join_inj}

-- Of the old content and the new one, one is at the path, and on success it is the new one.
abbrev pub Replaced : FilePath → Bytes → World → Result Error (Unit {0}) × World → Type 0
Replaced p bytes w (r, v) =
    ((data_in p v.nodes ≡ data_in p w.nodes) ⊎ Has p bytes v) × (r ≡ ok tt → Has p bytes v)

Replaced-later :
    (p : FilePath) (bytes : Bytes) (w v : World) (out : Result Error (Unit {0}) × World)
    → data_in p v.nodes ≡ data_in p w.nodes
    → Replaced p bytes v out
    → Replaced p bytes w out
Replaced-later p bytes w v out same (inl kept, on_ok) = (inl (kept ∙ same), on_ok)
Replaced-later p bytes w v out same (inr has, on_ok) = (inr has, on_ok)

Replaced-failed :
    (p : FilePath) (bytes : Bytes) (w v : World) (k : Error)
    → data_in p v.nodes ≡ data_in p w.nodes
    → Replaced p bytes w (err k, v)
Replaced-failed p bytes w v k same = (inl same, λ e. absurd (never k tt e))

-- All that follows the creation of the temporary file.
abbrev pub finish : External → Inner → Bytes → FilePath → Handle → M Error (Unit {0})
finish x inner bytes p h =
    fill_temporary x inner h bytes
    >>= (λ _. call_or_drop x h (x.persist h p) (sync_dir (entries_dir inner)))

module _ (x : External) (laws : TemporaryLaws x) (inner : Inner) (bytes : Bytes)
    (p : FilePath) where
  -- From the temporary file on, which is not the entry's.
  module _ (h : Handle) (apart : only h.path p ≡ false) where
    abbrev after_persist : Result ErrorKind (Unit {0}) → M Error (Unit {0})
    after_persist r = or_drop x h r >>= (λ _. sync_dir (entries_dir inner))

    persisted_ok :
        (a : Unit {0}) (w v : World) → Has p bytes v → Replaced p bytes w (after_persist (ok a) v)
    unfolding or_drop ◌>>=◌
    persisted_ok a w v has =
        let synced = (Does-sync_dir (Frame-Tolerates nowhere) (entries_dir inner)).from v in
        let kept = Has-Frame p bytes nowhere v _ refl synced has in (inr kept, λ e. kept)

    persisted_failed : (k : ErrorKind) (v : World) → Replaced p bytes v (after_persist (err k) v)
    persisted_failed k v = (
      inl ((dropped.from v).at p apart),
      λ e. absurd (never k tt (after_call_ok x laws inner h (err k) _ v e).0),
    )
      where
        dropped : Does (Frame (only h.path)) (after_persist (err k))
        dropped =
            Does-bind (Frame-Tolerates (only h.path)).effect _ _
              (Does-or_drop x laws inner h (err k))
              (λ _. Does-sync_dir (Frame-Tolerates (only h.path)) (entries_dir inner))

    moved :
        (w : World)
        → (x.persist h p w).0 ≡ ok tt
        → Has h.path bytes w
        → Has p bytes (x.persist h p w).1
    moved w done has = record {
      node = has.node;
      there = ap (Option.map node_data) (laws.persisted h p w done).0 ∙ has.there;
      regular = has.regular;
      whole = has.whole;
    }

    persist_lem :
        (w : World)
        → Has h.path bytes w
        → Replaced p bytes w (call_or_drop x h (x.persist h p) (sync_dir (entries_dir inner)) w)
    persist_lem w has =
        subst (Replaced p bytes w) (sym (attempt_bind (x.persist h p) after_persist w))
          (by_result _ refl)
      where
        by_result :
            (r : Result ErrorKind (Unit {0}))
            → (x.persist h p w).0 ≡ r
            → Replaced p bytes w (after_persist (x.persist h p w).0 (x.persist h p w).1)
        by_result (ok a) done = rw done (persisted_ok a w (x.persist h p w).1 (moved w done has))
        by_result (err k) failed = rw failed (
            Replaced-later p bytes w (x.persist h p w).1 (after_persist (err k) (x.persist h p w).1)
              ((Frame-ChangesOnly nowhere w (x.persist h p w).1
                  (laws.persist_failed h p w k failed)).at
                p refl)
              (persisted_failed k (x.persist h p w).1))

    finish_lem :
        (w : World) (node : Node)
        → at_path h.path w ≡ some node
        → node.file_type ≡ file
        → Replaced p bytes w (finish x inner bytes p h w)
    finish_lem w node there regular = by_case (Bind-cases (fill_temporary x inner h bytes) _ w)
      where
        ready : World
        ready = (fill_temporary x inner h bytes w).1

        filled : Frame (only h.path) w ready
        filled = (Does-fill_temporary x laws inner h bytes).from w

        by_case :
            Bind
              (fill_temporary x inner h bytes)
              (λ _. call_or_drop x h (x.persist h p) (sync_dir (entries_dir inner)))
              w
            → Replaced p bytes w (finish x inner bytes p h w)
        by_case (goes_on a done whole) = subst (Replaced p bytes w) (sym whole) (
            Replaced-later p bytes w ready
              (call_or_drop x h (x.persist h p) (sync_dir (entries_dir inner)) ready)
              (filled.at p apart)
              (persist_lem ready
                (fill_temporary-Has x laws inner h bytes w node there regular done)))
        by_case (stops k failed whole) =
            subst (Replaced p bytes w) (sym whole)
              (Replaced-failed p bytes w ready k (filled.at p apart))

-- A temporary file's name begins with a dot, and an entry's with its digest.
pub dot-ne-entry :
    (digest rest : Bytes) → is_digest digest ≡ true → (b'.' ∷ rest) ≢ digest ++ ascii ".json"
unfolding is_digest
dot-ne-entry [] rest d e = ground arith
dot-ne-entry (c ∷ digest) rest d e = ground (arith, e, d)

module _ (x : External) (laws : TemporaryLaws x) (inner : Inner) (digest bytes : Bytes)
    (d : is_digest digest ≡ true) where
  abbrev entry : FilePath
  entry = entry_path inner digest

  abbrev prefix : Bytes
  prefix = b'.' ∷ digest ++ b'.' ∷ []

  temporary_apart :
      (h : Handle) (random : Bytes)
      → h.path ≡ join (entries_dir inner) (prefix ++ (random ++ temporary_suffix))
      → only h.path entry ≡ false
  unfolding entry_path
  temporary_apart h random at = ne→== entry h.path (λ e. dot-ne-entry digest _ d (
      sym
        (join_inj (entries_dir inner) (entries_dir inner) (digest ++ ascii ".json") _ (e ∙ at)).1))

  abbrev create : M ErrorKind Handle
  create = x.tempfile_in (some (prefix, temporary_suffix)) (entries_dir inner)

  abbrev write_new : M Error (Unit {0})
  write_new = lift_io create >>= finish x inner bytes entry

  write_new_lem : (w : World) → Replaced entry bytes w (write_new w)
  unfolding lift_io
  write_new_lem w = by_case (Bind-cases (lift_io create) (finish x inner bytes entry) w)
    where
      made : World
      made = (create w).1

      kept :
          (changes : FilePath → Bool)
          → changes entry ≡ false
          → ChangesOnly changes w made
          → data_in entry made.nodes ≡ data_in entry w.nodes
      kept changes out c = (Frame-ChangesOnly changes w made c).at entry out

      on_handle :
          (h : Handle)
          → (create w).0 ≡ ok h
          → Replaced entry bytes w (finish x inner bytes entry h made)
      on_handle h new =
          let (random, at) =
            laws.temporary_path prefix temporary_suffix (entries_dir inner) w h new in
          let (there, regular, changes) =
            laws.temporary_new prefix temporary_suffix (entries_dir inner) w h new in
          let apart = temporary_apart h random at in
          Replaced-later entry bytes w made (finish x inner bytes entry h made)
            (kept (only h.path) apart changes)
            (finish_lem x laws inner bytes entry h apart made h.node there regular)

      by_case :
          Bind (lift_io create) (finish x inner bytes entry) w
          → Replaced entry bytes w (write_new w)
      by_case (goes_on h new whole) =
          subst (Replaced entry bytes w) (sym whole) (on_handle h (lift_ok create w h new))
      by_case (stops k failed whole) =
          subst (Replaced entry bytes w) (sym whole)
            (Replaced-failed entry bytes w made k (unmade (create w).0 refl failed))
        where
          unmade :
              (r : Result ErrorKind Handle)
              → (create w).0 ≡ r
              → as_io r ≡ err k
              → data_in entry made.nodes ≡ data_in entry w.nodes
          unmade (ok h) e failed = absurd (never k h (sym failed))
          unmade (err errno) e failed =
              kept nowhere refl
                (laws.temporary_failed prefix temporary_suffix (entries_dir inner) w errno e)

  -- A write of an entry is atomic: whichever of its calls fail, the entry's path has after it the file that
  -- was there before (its file type, owner, inode and content), or a regular file with exactly the new
  -- bytes; and the latter if the write succeeds.
  pub write_atomic-Replaced :
      (w : World) → Replaced entry bytes w (write_atomic x inner digest bytes w)
  unfolding write_atomic
  write_atomic-Replaced w = by_case (Bind-cases (ensure_dir (entries_dir inner)) (λ _. write_new) w)
    where
      ensured : World
      ensured = (ensure_dir (entries_dir inner) w).1

      kept : data_in entry ensured.nodes ≡ data_in entry w.nodes
      kept =
          ((Does-ensure_dir (Frame-Tolerates (only (entries_dir inner))) (entries_dir inner)
                (==_refl (entries_dir inner))).from
              w).at
            entry (entry_path-ne-entries_dir inner digest)

      by_case :
          Bind (ensure_dir (entries_dir inner)) (λ _. write_new) w
          → Replaced entry bytes w (write_atomic x inner digest bytes w)
      by_case (goes_on a done whole) =
          subst (Replaced entry bytes w) (sym whole)
            (Replaced-later entry bytes w ensured (write_new ensured) kept (write_new_lem ensured))
      by_case (stops k failed whole) =
          subst (Replaced entry bytes w) (sym whole) (Replaced-failed entry bytes w ensured k kept)
