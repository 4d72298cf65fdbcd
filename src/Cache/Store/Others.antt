-- ===== src/Cache/Store/Others.antt =====
-- What a store of one key by crates/unixd-cache/src/cache.rs does to the other keys' entries.
use unixd.Prelude.{
  ℕ, ◌≡◌, ◌≢◌, refl, sym, ap, ◌∙◌, true, false, [], ◌∷◌, ◌++◌, Bool, not, ◌||◌, none, some, Option,
  Result, ok, err, Bytes, ascii, list_eq, nat_eq, ◌==◌, ==_iff, Bool-cases, inl, inr, ++_cancel,
  arith, true≢false,
}
use unixd.Cache.Error.{ErrorKind, encode}
use unixd.Cache.Key.{Key}
use unixd.Cache.Policy.{Policy}
use unixd.Cache.Os.{FilePath, Node, Handle, World, M}
use unixd.Cache.Fs.{External}
use unixd.Cache.Effects.{
  Does, Does-pure, Does-fail, Does-bind, Does-bind_from, Does-attempt, Does-lift_io, effect_rules,
}
use unixd.Cache.Footprint.{
  Tolerates, ChangesOnly, from_ChangesOnly, Does-now_ms, Does-symlink_metadata,
}
use unixd.Cache.ExternalLaws.{TemporaryLaws, only, nowhere}
use unixd.Cache.Private.{Held, with_held}
use unixd.Cache.Private.Footprint.{widen, Does-ensure_dir, Does-sync_dir, Does-with_held}
use unixd.Cache.Private.ReadResult.{lift_ok}
use unixd.Cache.Prune.{usage}
use unixd.Cache.Prune.Spares.{all_but}
use unixd.Cache.Prune.SparedTargets.{Does-usage}
use unixd.Cache.Entry.{
  Inner, Serde, entries_dir, entry_path, lock_path, is_digest, temporary_suffix,
}
use unixd.Cache.Paths.{ne→==, lock-ne-entry, join-ne_self, join_inj}
use unixd.Cache.Store.{write_atomic, store_locked, write_encoded, sweep_due, due_since}
use unixd.Cache.Store.Atomic.{dot-ne-entry, finish}
use unixd.Cache.Store.FillEffects.{fill_temporary-Does, or_drop-Does}

entry_path_inj : (inner : Inner) (a b : Bytes) → entry_path inner a ≡ entry_path inner b → a ≡ b
unfolding entry_path
entry_path_inj inner a b e =
    ++_cancel a b (ascii ".json") (join_inj (entries_dir inner) (entries_dir inner) _ _ e).1

module _ {R : World → World → Type 0} (x : External) (laws : TemporaryLaws x) (inner : Inner)
    (digest other : Bytes) (d : is_digest other ≡ true) (apart : other ≢ digest)
    (t : Tolerates R (all_but (entry_path inner other)))
    (clock : (w : World) (c : ℕ → ℕ) → R w (record w { clock = c })) where
  -- All paths but the other key's entry.
  abbrev elsewhere : FilePath → Bool
  elsewhere = all_but (entry_path inner other)

  outside : (p : FilePath) → p ≢ entry_path inner other → elsewhere p ≡ true
  outside p h = ap not (ne→== p (entry_path inner other) h)

  within :
      (p : FilePath) → elsewhere p ≡ true → (q : FilePath) → only p q ≡ true → elsewhere q ≡ true
  within p away q e = ap elsewhere ((==_iff q p).0 e) ∙ away

  changed :
      (small : FilePath → Bool)
      → ((q : FilePath) → small q ≡ true → elsewhere q ≡ true)
      → (w v : World) → ChangesOnly small w v
      → R w v
  changed small inside w v c = from_ChangesOnly t w v (widen small elsewhere inside w v c)

  none_inside : (q : FilePath) → nowhere q ≡ true → elsewhere q ≡ true
  none_inside q f = absurd (true≢false (sym f))

  module _ (h : Handle) (away : elsewhere h.path ≡ true) where
    Does-persist : (p : FilePath) → elsewhere p ≡ true → Does R (x.persist h p)
    Does-persist p at = record { from = λ w. by_result w _ refl }
      where
        both : (q : FilePath) → (q == p || q == h.path) ≡ true → elsewhere q ≡ true
        both q e = elim (Bool-cases (q == p)) [
          | inl there ↦ within p at q there
          | inr not_there ↦ within h.path away q (ground (arith, e, not_there))
        ]

        by_result :
            (w : World) (r : Result ErrorKind (Unit {0}))
            → (x.persist h p w).0 ≡ r
            → R w (x.persist h p w).1
        by_result w (ok a) e = changed _ both w _ (laws.persisted h p w e).1
        by_result w (err k) e = changed nowhere none_inside w _ (laws.persist_failed h p w k e)

    Does-finish :
        (bytes : Bytes) (p : FilePath) → elsewhere p ≡ true → Does R (finish x inner bytes p h)
    Does-finish bytes p at =
        Does-bind t.effect _ _
          (fill_temporary-Does t clock x laws inner h (within h.path away) bytes)
          (λ _. Does-bind t.effect _ _ (Does-attempt _ (Does-persist p at)) (λ r.
            Does-bind t.effect _ _ (or_drop-Does t clock x laws inner h (within h.path away) r)
              (λ _. Does-sync_dir t (entries_dir inner))))

  away :
      (prefix : Bytes) (w : World) (h : Handle)
      → (x.tempfile_in (some (b'.' ∷ prefix, temporary_suffix)) (entries_dir inner) w).0 ≡ ok h
      → elsewhere h.path ≡ true
  unfolding entry_path
  away prefix w h e =
      let (random, at) =
        laws.temporary_path (b'.' ∷ prefix) temporary_suffix (entries_dir inner) w h e in
      outside h.path (λ same.
        dot-ne-entry other (prefix ++ (random ++ temporary_suffix)) d
          (join_inj (entries_dir inner) (entries_dir inner) _ _ (sym at ∙ same)).1)

  Does-tempfile :
      (prefix : Bytes)
      → Does R (x.tempfile_in (some (b'.' ∷ prefix, temporary_suffix)) (entries_dir inner))
  Does-tempfile prefix = record { from = λ w. by_result w _ refl }
    where
      create : M ErrorKind Handle
      create = x.tempfile_in (some (b'.' ∷ prefix, temporary_suffix)) (entries_dir inner)

      by_result : (w : World) (r : Result ErrorKind Handle) → (create w).0 ≡ r → R w (create w).1
      by_result w (ok h) e =
          let (_, _, changes) =
            laws.temporary_new (b'.' ∷ prefix) temporary_suffix (entries_dir inner) w h e in
          changed (only h.path) (within h.path (away prefix w h e)) w _ changes
      by_result w (err k) e =
          changed nowhere none_inside w _
            (laws.temporary_failed (b'.' ∷ prefix) temporary_suffix (entries_dir inner) w k e)

  Does-write_atomic : (bytes : Bytes) → Does R (write_atomic x inner digest bytes)
  unfolding write_atomic entry_path
  Does-write_atomic bytes =
      Does-bind t.effect _ _
        (Does-ensure_dir t (entries_dir inner) (outside (entries_dir inner) dir_apart))
        (λ _.
          Does-bind_from t.effect _ _ (Does-lift_io _ (Does-tempfile (digest ++ b'.' ∷ [])))
            (λ w h e.
              (Does-finish h (away (digest ++ b'.' ∷ []) w h (lift_ok _ w h e)) bytes
                  (entry_path inner digest) own).from
                _))
    where
      dir_apart : entries_dir inner ≢ entry_path inner other
      dir_apart e = join-ne_self (entries_dir inner) _ (sym e)

      own : elsewhere (entry_path inner digest) ≡ true
      own =
          outside (entry_path inner digest) (λ e. apart (sym (entry_path_inj inner digest other e)))

  module _ {T : Type 0} (serde : Serde T) (key : Key) (same : key.digest ≡ digest) where
    Does-write_encoded : (encoded : Option Bytes) → Does R (write_encoded x serde inner key encoded)
    unfolding write_encoded
    Does-write_encoded none = Does-fail t.effect encode
    Does-write_encoded (some bytes) = rw same (search (effect_rules, t.effect, Does-write_atomic))

    Does-store_locked :
        (policy : Policy) (value : T) → Does R (store_locked x serde inner key policy value)
    unfolding store_locked
    Does-store_locked policy value =
        Does-bind t.effect _ _ (Does-now_ms clock) (λ now. Does-write_encoded _)

    -- With the drop of the key's own lock file.
    pub Does-locked_part :
        (held : Held) (policy : Policy) (value : T)
        → held.path ≡ lock_path inner digest
        → Does R (with_held held (store_locked x serde inner key policy value))
    unfolding lock_path
    Does-locked_part held policy value at =
        Does-with_held t held _
          (ap elsewhere at ∙ outside _ (lock-ne-entry inner (digest ++ ascii ".lock") other))
          (Does-store_locked policy value)

  -- What `store` does after the write, but for a prune.
  pub usage-Does : Does R (usage inner)
  unfolding entry_path
  usage-Does = Does-usage t inner (outside _ (λ e. join-ne_self (entries_dir inner) _ (sym e)))

  pub sweep_due-Does : Does R (sweep_due x inner)
  unfolding sweep_due due_since
  sweep_due-Does =
      Does-bind t.effect _ _ (Does-attempt _ (Does-symlink_metadata t _)) (λ r. since r)
    where
      since : (r : Result ErrorKind Node) → Does R (due_since x inner r)
      since (err k) = Does-pure t.effect false
      since (ok m) = Does-bind t.effect _ _ (Does-now_ms clock) (λ now. Does-pure t.effect _)
