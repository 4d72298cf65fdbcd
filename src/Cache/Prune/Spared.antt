-- ===== src/Cache/Prune/Spared.antt =====
-- The whole of `prune` of crates/unixd-cache/src/cache.rs, and the keys that are held.
use unixd.Prelude.{
  ℕ, ◌≡◌, refl, sym, ap, ◌∙◌, true, false, not, List, [], ◌∷◌, ◌++◌, Option, ok, Bytes, ascii,
  length, list_eq, nat_eq, ◌==◌, ==_iff, arith, inl, inr, Bool-cases, true≢false,
}
use unixd.Cache.Os.{FilePath, Handle, World, join}
use unixd.Cache.Fs.{External, is_held, release, wait_lock_kept}
use unixd.Cache.Effects.{Does, Does-pure, Does-bind, Does-bind_from, Does-lift_io}
use unixd.Cache.Footprint.{
  Tolerates, data_in, Does-now_ms, Does-read_dir, Does-syscall, Does-set_modified,
}
use unixd.Cache.ExternalLaws.{OpenLaws}
use unixd.Cache.Private.FileFootprint.{Does-open_lock}
use unixd.Cache.Private.Locks.{open_lock}
use unixd.Cache.Prune.SparedTargets.{Spared, tol, Does-usage, Does-reach_targets}
use unixd.Cache.Private.Footprint.{Does-ensure_dir, Does-validate_root, Does-sync_dir}
use unixd.Cache.Entry.{
  locks_name, maintenance_name, prune_lock_name, Inner, Header, Usage, entries_dir, locks_dir,
  entry_path, lock_path, is_digest,
}
use unixd.Cache.Paths.{length-join, ne→==, entry_path-ne-entries_dir}
use unixd.Cache.Prune.HeldKeys.{open_lock_path}
use unixd.Cache.Prune.Spares.{all_but}
use unixd.Cache.Prune.PassFootprint.{in_root, Does-remove_unheld_locks, Does-take_locks}
use unixd.Cache.Prune.SparedEntries.{Does-prune_items}
use unixd.Cache.Prune.{Wait}
use unixd.Cache.Prune.Run.{prune_pass, prune}

release_other :
    (k p : FilePath) (held : List FilePath)
    → (p == k) ≡ false
    → is_held k (release p held) ≡ is_held k held
unfolding is_held release
release_other k p [] apart = refl
release_other k p (q ∷ held) apart = elim (Bool-cases (q == p)) [
  | inl own ↦
      let same : (q == k) ≡ false = ap (λ r. r == k) ((==_iff q p).0 own) ∙ apart in
      rw (own, same) (release_other k p held apart)
  | inr other_lock ↦ rw (other_lock, release_other k p held apart) refl
]

module _ (x : External) (laws : OpenLaws x) (header_from_slice : Bytes → Option Header)
    (inner : Inner) (digest : Bytes) where
  abbrev Spared' : World → World → Type 0
  Spared' = Spared x laws header_from_slice inner digest

  abbrev tol' : Tolerates Spared' (all_but (entry_path inner digest))
  tol' = tol x laws header_from_slice inner digest

  -- The wait for a lock file of the cache itself releases no key's lock.
  Does-wait :
      (h : Handle) → (h.path == lock_path inner digest) ≡ false → Does Spared' (wait_lock_kept h)
  unfolding wait_lock_kept
  Does-wait h apart = Does-syscall tol' _ (record {
    from = λ w. record { spares = λ held. (release_other _ h.path w.held apart ∙ held, refl) };
  })

  root_lock : (name : Bytes) → (join inner.root name == lock_path inner digest) ≡ false
  unfolding lock_path
  root_lock name = ne→== _ _ (λ e. omega (
    arith,
    ap length e,
    length-join inner.root name,
    length-join inner.root locks_name,
    length-join (locks_dir inner) (digest ++ ascii ".lock"),
  ))

  root_own :
      (h : Handle) (w : World)
      → (name : Bytes) → (open_lock x (join inner.root name) w).0 ≡ ok h
      → (h.path == lock_path inner digest) ≡ false
  root_own h w name opened =
      ap (λ q. q == lock_path inner digest) (open_lock_path x laws _ w h opened) ∙ root_lock name

  module _ (live_digest : is_digest digest ≡ true) where
    Does-prune_pass :
        (pruning : Handle) (locks : ℕ) (before : Usage)
        → Does Spared' (prune_pass x header_from_slice inner pruning locks before)
    unfolding prune_pass
    Does-prune_pass pruning locks before =
        Does-bind tol'.effect _ _ (Does-now_ms (λ w c. record { spares = λ h. (h, refl) })) (λ now.
          Does-bind tol'.effect _ _ (Does-lift_io _ (Does-read_dir tol' _)) (λ names.
            Does-bind tol'.effect _ _
              (Does-prune_items x laws header_from_slice inner digest live_digest now _ names)
              (λ p.
                Does-bind tol'.effect _ _
                  (Does-reach_targets x laws header_from_slice inner digest before p)
                  (λ q. Does-bind tol'.effect _ _ (Does-sync_dir tol' _) (λ _.
                    Does-bind tol'.effect _ _ (Does-lift_io _ (Does-set_modified tol' _ _))
                      (λ _. Does-pure tol'.effect _))))))

    entries_out : all_but (entry_path inner digest) (entries_dir inner) ≡ true
    entries_out = ap not (
        ne→== _ _
          (λ e. true≢false (sym ((==_iff _ _).1 (sym e)) ∙ entry_path-ne-entries_dir inner digest)))

    pub Does-prune : (wait : Wait) → Does Spared' (prune x header_from_slice inner wait)
    unfolding prune
    Does-prune wait = Does-bind tol'.effect _ _ (Does-validate_root tol' _) (λ _.
        Does-bind_from tol'.effect _ _
          (Does-open_lock tol' x laws _
            (in_root x laws header_from_slice inner digest tol' maintenance_name))
          (λ w m hm.
            (Does-bind_from tol'.effect _ _
                (Does-open_lock tol' x laws _
                  (in_root x laws header_from_slice inner digest tol' prune_lock_name))
                (λ v p hp.
                  (Does-bind tol'.effect _ _
                      (Does-take_locks x laws header_from_slice inner digest tol' wait m p
                        (Does-wait m (root_own m w maintenance_name hm))
                        (Does-wait p (root_own p v prune_lock_name hp)))
                      (λ _. Does-bind tol'.effect _ _ (Does-ensure_dir tol' _ entries_out) (λ _.
                        Does-bind tol'.effect _ _
                          (Does-remove_unheld_locks x laws header_from_slice inner digest tol')
                          (λ locks.
                            Does-bind tol'.effect _ _ (Does-usage tol' inner entries_out)
                              (λ before. Does-prune_pass p locks before))))).from
                    _)).from
              _))

    -- However `prune` is called, whichever of its calls fail and whatever it is to remove for its
    -- limits: while another process holds the lock of a key, the entry of that key (its file type,
    -- owner, inode and content) is after the call what it was before, and the lock is still held.
    pub prune-spares :
        (wait : Wait) (w : World)
        → is_held (lock_path inner digest) w.held ≡ true
        → (is_held (lock_path inner digest) (prune x header_from_slice inner wait w).1.held ≡ true)
          × (data_in (entry_path inner digest) (prune x header_from_slice inner wait w).1.nodes
              ≡ data_in (entry_path inner digest) w.nodes)
    prune-spares wait w held = ((Does-prune wait).from w).spares held
