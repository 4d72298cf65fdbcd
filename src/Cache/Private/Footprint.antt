-- ===== src/Cache/Private/Footprint.antt =====
-- Which nodes the functions of crates/unixd-cache/src/private.rs may change.
use unixd.Prelude.{
  ℕ, zero, suc, ◌≡◌, refl, sym, ap, ◌∙◌, Bool, true, false, Result, ok, err, [], ◌∷◌, Bool-cases,
  true≢false, list_eq, nat_eq, ==_iff, length, inl, inr,
}
use unixd.Cache.Error.{Error, ErrorKind, not_found, already_exists, other}
use unixd.Cache.Os.{FilePath, Node, Handle, World, M, is_dir}
use unixd.Cache.Fs.{External, read_only, read_write_create, is_below}
use unixd.Cache.Effects.{
  Does, Does-pure, Does-fail, Does-bind, Does-if, Does-attempt, Does-lift_io, Does-ignore,
  effect_rules,
}
use unixd.Cache.Footprint.{
  Tolerates, ChangesOnly, from_ChangesOnly, Does-create_dir, Does-remove_file, Does-remove_dir_all,
  Does-set_permissions, Does-symlink_metadata, Does-metadata, Does-sync_all,
}
use unixd.Cache.ExternalLaws.{OpenLaws, nowhere, only}
use unixd.Cache.Private.{
  owned, set_mode, validate_root, ensure_dir, ensure_dir_loop, ensure_dir_at, ensure_created, Held,
  drop_held, with_held, names, names_at, regular, regular_at, remove, removed, remove_found,
  sync_dir,
}

pub is_below_refl : (p : FilePath) → is_below p p ≡ true
unfolding is_below
is_below_refl [] = refl
is_below_refl (name ∷ p) = rw ((==_iff name name).1 refl) (is_below_refl p)

false-true : {P : Type 0} → false ≡ true → P
false-true e = cc

pub widen :
    (small large : FilePath → Bool)
    → ((q : FilePath) → small q ≡ true → large q ≡ true)
    → (w v : World) → ChangesOnly small w v
    → ChangesOnly large w v
widen small large inside w v (fs, n, i, e, agree, rest) =
    (fs, n, i, e, λ q out. agree q (outside q out), rest)
  where
    outside : (q : FilePath) → large q ≡ false → small q ≡ false
    outside q out = elim (Bool-cases (small q)) [
      | inl s ↦ absurd (true≢false (sym (inside q s) ∙ out))
      | inr s ↦ s
    ]

module _ {R : World → World → Type 0} {changes : FilePath → Bool} (t : Tolerates R changes) where
  pub Does-owned : (node : Node) → Does R (owned node)
  unfolding owned
  Does-owned node = record { from = λ w. t.effect.same w }

  pub Does-set_mode : (p : FilePath) (mode : ℕ) → Does R (set_mode p mode)
  unfolding set_mode
  Does-set_mode p mode = search (effect_rules, Does-set_permissions t)

  pub Does-validate_root : (p : FilePath) → Does R (validate_root p)
  unfolding validate_root
  Does-validate_root p =
      search (effect_rules, t.effect, Does-symlink_metadata t, Does-owned, Does-set_mode)

  Does-ensure_dir_loop :
      (fuel : ℕ) (p : FilePath) → changes p ≡ true → Does R (ensure_dir_loop fuel p)
  unfolding ensure_dir_loop
  Does-ensure_dir_loop zero p at = Does-fail t.effect _
  Does-ensure_dir_loop (suc fuel) p at =
      Does-bind t.effect _ _ (Does-attempt _ (Does-symlink_metadata t p))
        (ensured (Does-ensure_dir_loop fuel p at))
    where
      created :
          Does R (ensure_dir_loop fuel p)
          → (r : Result ErrorKind (Unit {0})) → Does R (ensure_created p (ensure_dir_loop fuel p) r)
      created again (ok _) = Does-set_mode p _
      created again (err already_exists) = again
      created again (err not_found) = Does-fail t.effect _
      created again (err (other k)) = Does-fail t.effect _

      ensured :
          Does R (ensure_dir_loop fuel p)
          → (r : Result ErrorKind Node) → Does R (ensure_dir_at p (ensure_dir_loop fuel p) r)
      ensured again (ok node) = search (effect_rules, t.effect, Does-owned, Does-set_mode)
      ensured again (err not_found) =
          Does-bind t.effect _ _ (Does-attempt _ (Does-create_dir t p at)) (created again)
      ensured again (err already_exists) = Does-fail t.effect _
      ensured again (err (other k)) = Does-fail t.effect _

  pub Does-ensure_dir : (p : FilePath) → changes p ≡ true → Does R (ensure_dir p)
  unfolding ensure_dir
  Does-ensure_dir p at = record {
    from = λ w. (Does-ensure_dir_loop (suc (length w.faults)) p at).from w;
  }

  pub Does-sync_dir : (p : FilePath) → Does R (sync_dir p)
  unfolding sync_dir
  Does-sync_dir p = search (effect_rules, Does-sync_all t)

  pub Does-drop_held : (held : Held) → changes held.path ≡ true → Does R (drop_held held)
  unfolding drop_held
  Does-drop_held held at = Does-ignore _ (Does-remove_file t held.path at)

  pub Does-with_held :
      {A : Type 0} (held : Held) (body : M Error A)
      → changes held.path ≡ true
      → Does R body
      → Does R (with_held held body)
  unfolding with_held
  Does-with_held held body at d = record {
    from = λ w. t.effect.chain w _ _ (d.from w) ((Does-drop_held held at).from _);
  }

  pub Does-names : (p : FilePath) (h : Handle) → Does R (names p h)
  unfolding names
  Does-names p h =
      Does-bind t.effect _ _ (Does-lift_io _ (Does-metadata t h)) (λ held.
        Does-bind t.effect _ _ (Does-attempt _ (Does-symlink_metadata t p)) (compared held))
    where
      compared : (held : Node) (r : Result ErrorKind Node) → Does R (names_at held r)
      compared held (ok named) = Does-pure t.effect _
      compared held (err not_found) = Does-pure t.effect _
      compared held (err already_exists) = Does-fail t.effect _
      compared held (err (other k)) = Does-fail t.effect _

  module _ (p : FilePath) (below : (q : FilePath) → is_below p q ≡ true → changes q ≡ true) where
    pub Does-remove : Does R (remove p)
    unfolding remove
    Does-remove =
        Does-bind t.effect _ _ (Does-attempt _ (Does-symlink_metadata t p))
          (λ r. Does-bind t.effect _ _ (taken r) reported)
      where
        reported : (r : Result ErrorKind (Unit {0})) → Does R (removed r)
        reported (ok _) = Does-pure t.effect _
        reported (err not_found) = Does-pure t.effect _
        reported (err already_exists) = Does-fail t.effect _
        reported (err (other k)) = Does-fail t.effect _

        taken : (r : Result ErrorKind Node) → Does {E = Error} R (remove_found p r)
        taken (ok node) =
            Does-if t.effect (is_dir node.file_type) _ _
              (Does-attempt _ (Does-remove_dir_all t p below))
              (Does-attempt _ (Does-remove_file t p (below p (is_below_refl p))))
        taken (err kind) = Does-pure t.effect _

    pub Does-regular : Does R (regular p)
    unfolding regular
    Does-regular = Does-bind t.effect _ _ (Does-attempt _ (Does-symlink_metadata t p)) looked
      where
        looked : (r : Result ErrorKind Node) → Does R (regular_at p (remove p) r)
        looked (ok node) = search (effect_rules, t.effect, Does-remove)
        looked (err not_found) = Does-pure t.effect _
        looked (err already_exists) = Does-fail t.effect _
        looked (err (other k)) = Does-fail t.effect _

module _ {R : World → World → Type 0} {changes : FilePath → Bool} (t : Tolerates R changes)
    (x : External) (laws : OpenLaws x) where
  pub Does-open_read : (p : FilePath) → Does R (x.open_file read_only p)
  Does-open_read p = record {
    from = λ w.
        from_ChangesOnly t w _
          (widen nowhere _ (λ q h. false-true h) w _ (laws.open_read_keeps p w));
  }

  pub Does-open_write : (p : FilePath) → changes p ≡ true → Does R (x.open_file read_write_create p)
  Does-open_write p at = record {
    from = λ w. from_ChangesOnly t w _ (
        widen (only p) _ (λ q e. ap changes ((==_iff q p).0 e) ∙ at) w _
          (laws.open_write_keeps p w));
  }

  pub Does-fchmod : (h : Handle) (mode : ℕ) → Does R (x.fchmod h mode)
  Does-fchmod h mode = record {
    from = λ w.
        from_ChangesOnly t w _
          (widen nowhere _ (λ q h. false-true h) w _ (laws.fchmod_keeps h mode w));
  }
