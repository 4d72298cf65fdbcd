-- ===== src/Cache/Store/Kept.antt =====
-- The other keys' entries over the whole of `KeyLock::store` of crates/unixd-cache/src/cache.rs, its
-- maintenance included.
use unixd.Prelude.{
  ℕ, ◌≡◌, ◌≢◌, refl, sym, ap, subst, ◌∙◌, true, false, Bool, ◌⊎◌, inl, inr, Option, none, some,
  Result, ok, err, Bytes, list_eq, nat_eq, ==_refl, not, true≢false, if◌then◌else◌,
}
use unixd.Cache.Error.{Error}
use unixd.Cache.Policy.{Policy}
use unixd.Cache.Os.{World, M, pure, attempt, ◌>>=◌}
use unixd.Cache.Fs.{External, is_held}
use unixd.Cache.Effects.{
  Does, Does-pure, Does-bind, Does-if, Does-attempt, Bind, goes_on, stops, Bind-cases,
}
use unixd.Cache.Footprint.{data_in}
use unixd.Cache.ExternalLaws.{OpenLaws, TemporaryLaws}
use unixd.Cache.Read.{KeyLock}
use unixd.Cache.Read.Untouched.{Frame, Frame-Tolerates}
use unixd.Cache.Prune.{Prune, skip}
use unixd.Cache.Prune.Run.{prune}
use unixd.Cache.Prune.Spares.{Spares, Spares-Tolerates, all_but}
use unixd.Cache.Prune.Spared.{Does-prune}
use unixd.Cache.Entry.{Inner, Serde, Usage, entry_path, lock_path, is_digest}
use unixd.Cache.Store.{
  Maintenance, not_needed, pruned, deferred, Stored, written, too_large, pruned_or_deferred,
  maintain_if, maintain, after_write, store,
}
use unixd.Cache.Store.Filling.{frame_clock}
use unixd.Cache.Store.Others.{Does-locked_part, usage-Does, sweep_due-Does}

-- The maintenance that may have pruned.
abbrev pub may_have_pruned : Maintenance → Bool
may_have_pruned not_needed = false
may_have_pruned (pruned _) = true
may_have_pruned (deferred _) = true

-- The result of a store that reports such a maintenance.
abbrev pub reports_prune : Result Error Stored → Bool
reports_prune (err _) = false
reports_prune (ok (too_large _)) = false
reports_prune (ok (written maintenance)) = may_have_pruned maintenance

module _ {T : Type 0} (x : External) (open_laws : OpenLaws x) (laws : TemporaryLaws x)
    (serde : Serde T) (inner : Inner) (self : KeyLock)
    (own : self.lock_file.path ≡ lock_path inner self.key.digest) (policy : Policy) (value : T)
    (other : Bytes) (d : is_digest other ≡ true) (apart : other ≢ self.key.digest) where
  -- While another process holds the other key's lock.
  abbrev Spared' : World → World → Type 0
  Spared' = Spares (lock_path inner other) (entry_path inner other)

  spared_clock : (w : World) (c : ℕ → ℕ) → Spared' w (record w { clock = c })
  spared_clock w c = record { spares = λ h. (h, refl) }

  maintain_if-Does : (due : Bool) → Does Spared' (maintain_if x serde inner due)
  unfolding maintain_if
  maintain_if-Does false = Does-pure (Spares-Tolerates _ _).effect _
  maintain_if-Does true =
      Does-bind (Spares-Tolerates _ _).effect _ _
        (Does-attempt _ (Does-prune x open_laws serde.header_from_slice inner other d skip))
        (λ r. Does-pure (Spares-Tolerates _ _).effect _)

  maintain-Does : (r : Result Error Usage) → Does Spared' (maintain x serde inner r)
  unfolding maintain
  maintain-Does (err e) = Does-pure (Spares-Tolerates _ _).effect _
  maintain-Does (ok u) = Does-if (Spares-Tolerates _ _).effect _ _ _ (maintain_if-Does true) (
      Does-bind (Spares-Tolerates _ _).effect _ _
        (sweep_due-Does x laws inner self.key.digest other d apart (Spares-Tolerates _ _)
          spared_clock)
        maintain_if-Does)

  after_write-Does : (size : Option ℕ) → Does Spared' (after_write x serde inner size)
  unfolding after_write
  after_write-Does (some size) = Does-pure (Spares-Tolerates _ _).effect _
  after_write-Does none =
      Does-bind (Spares-Tolerates _ _).effect _ _
        (Does-attempt _ (
          usage-Does x laws inner self.key.digest other d apart (Spares-Tolerates _ _)
            spared_clock))
        (λ u.
          Does-bind (Spares-Tolerates _ _).effect _ _ (maintain-Does u)
            (λ m. Does-pure (Spares-Tolerates _ _).effect _))

  store-Does : Does Spared' (store x serde inner self policy value)
  unfolding store
  store-Does =
      Does-bind (Spares-Tolerates _ _).effect _ _
        (Does-locked_part x laws inner self.key.digest other d apart (Spares-Tolerates _ _)
          spared_clock serde self.key refl self.lock_file policy value own)
        after_write-Does

  -- Without a prune: the frame of the other key's entry.
  abbrev Framed : World → World → Type 0
  Framed = Frame (all_but (entry_path inner other))

  -- An action whose result does not report a prune keeps the frame.
  record Unpruned {E A : Type 0} (reports : Result E A → Bool) (m : M E A) : Type 0 where
    calm : (w : World) → reports (m w).0 ≡ false → Framed w (m w).1

  -- A first action that keeps the frame in any case, and a rest that does unless it reports a prune.
  Unpruned-bind :
      {E A B : Type 0} (reports : Result E B → Bool) (m : M E A) (f : A → M E B)
      → Does Framed m
      → ((a : A) → Unpruned reports (f a))
      → Unpruned reports (m >>= f)
  Unpruned-bind {E} {A} {B} reports m f dm uf = record {
    calm = λ w c. by_case w c (Bind-cases m f w);
  }
    where
      by_case :
          (w : World) → reports ((m >>= f) w).0 ≡ false → Bind m f w → Framed w ((m >>= f) w).1
      by_case w c (goes_on a first whole) =
          subst (λ (r : Result E B × World). Framed w r.1) (sym whole)
            ((Frame-Tolerates _).effect.chain w _ _ (dm.from w)
              ((uf a).calm (m w).1 (ap (λ (r : Result E B × World). reports r.0) (sym whole) ∙ c)))
      by_case w c (stops k first whole) =
          subst (λ (r : Result E B × World). Framed w r.1) (sym whole) (dm.from w)

  Unpruned-pure :
      {E A : Type 0} (reports : Result E A → Bool) (a : A) → Unpruned {E = E} reports (pure a)
  Unpruned-pure reports a = record { calm = λ w c. (Frame-Tolerates _).effect.same w }

  Unpruned-if :
      {E A : Type 0} (reports : Result E A → Bool) (b : Bool) (m n : M E A)
      → Unpruned reports m
      → Unpruned reports n
      → Unpruned reports (if b then m else n)
  Unpruned-if reports true m n um un = um
  Unpruned-if reports false m n um un = un

  -- Of the maintenance alone.
  abbrev maintained : Result Error Maintenance → Bool
  maintained (err _) = false
  maintained (ok m) = may_have_pruned m

  maintain_if-Unpruned : (due : Bool) → Unpruned maintained (maintain_if x serde inner due)
  unfolding maintain_if pruned_or_deferred attempt ◌>>=◌
  maintain_if-Unpruned false = record { calm = λ w c. (Frame-Tolerates _).effect.same w }
  maintain_if-Unpruned true = record {
    calm = λ w c. by_result (prune x serde.header_from_slice inner skip w).0 c;
  }
    where
      by_result :
          {P : Type 0} (r : Result Error Prune)
          → may_have_pruned (pruned_or_deferred x serde inner r) ≡ false
          → P
      by_result (ok o) c = absurd (true≢false c)
      by_result (err e) c = absurd (true≢false c)

  maintain-Unpruned : (r : Result Error Usage) → Unpruned maintained (maintain x serde inner r)
  unfolding maintain
  maintain-Unpruned (err e) = Unpruned-pure _ _
  maintain-Unpruned (ok u) = Unpruned-if _ _ _ _ (maintain_if-Unpruned true) (
      Unpruned-bind _ _ _
        (sweep_due-Does x laws inner self.key.digest other d apart (Frame-Tolerates _)
          (frame_clock _))
        maintain_if-Unpruned)

  report-Unpruned :
      (m : M Error Maintenance)
      → Unpruned maintained m
      → Unpruned reports_prune (m >>= (λ a. pure (written a)))
  report-Unpruned m um = record { calm = λ w c. by_case w c (Bind-cases m reported w) }
    where
      reported : Maintenance → M Error Stored
      reported a = pure (written a)

      by_case :
          (w : World)
          → reports_prune ((m >>= reported) w).0 ≡ false
          → Bind m reported w
          → Framed w ((m >>= reported) w).1
      by_case w c (goes_on a first whole) =
          subst (λ (r : Result Error Stored × World). Framed w r.1) (sym whole)
            (um.calm w (
              ap maintained first
              ∙ (ap (λ (r : Result Error Stored × World). reports_prune r.0) (sym whole) ∙ c)))
      by_case w c (stops k first whole) =
          subst (λ (r : Result Error Stored × World). Framed w r.1) (sym whole)
            (um.calm w (ap maintained first))

  after_write-Unpruned : (size : Option ℕ) → Unpruned reports_prune (after_write x serde inner size)
  unfolding after_write
  after_write-Unpruned (some size) = Unpruned-pure _ _
  after_write-Unpruned none =
      Unpruned-bind _ _ _
        (Does-attempt _ (
          usage-Does x laws inner self.key.digest other d apart (Frame-Tolerates _)
            (frame_clock _)))
        (λ u. report-Unpruned _ (maintain-Unpruned u))

  store-Unpruned : Unpruned reports_prune (store x serde inner self policy value)
  unfolding store
  store-Unpruned =
      Unpruned-bind _ _ _
        (Does-locked_part x laws inner self.key.digest other d apart (Frame-Tolerates _)
          (frame_clock _) serde self.key refl self.lock_file policy value own)
        after_write-Unpruned

  -- A store, its maintenance included and whichever of its calls fail, keeps the entry of any other key
  -- (its file type, owner, inode and content) if another process holds that key's lock, or if
  -- the store reports no maintenance that may have pruned: an error, a value that is too large, or
  -- maintenance that was not needed. The lock file held is the one of the key that is stored.
  pub store_spares :
      (w : World)
      → (is_held (lock_path inner other) w.held ≡ true)
        ⊎ (reports_prune (store x serde inner self policy value w).0 ≡ false)
      → data_in (entry_path inner other) (store x serde inner self policy value w).1.nodes
        ≡ data_in (entry_path inner other) w.nodes
  store_spares w (inl held) = ((store-Does.from w).spares held).1
  store_spares w (inr calm) =
      (store-Unpruned.calm w calm).at (entry_path inner other)
        (ap not (==_refl (entry_path inner other)))
