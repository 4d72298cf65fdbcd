-- ===== src/Cache/Prune/RemovedRun.antt =====
-- The whole of `prune` of crates/unixd-cache/src/cache.rs: what it counts as removed is gone from disk.
use unixd.Prelude.{ℕ, ◌≡◌, ap, not, true, list_eq, nat_eq, Bytes, Option, ok}
use unixd.Cache.Error.{Error}
use unixd.Cache.Os.{Handle, World, M, join}
use unixd.Cache.Private.Locks.{open_lock}
use unixd.Cache.Fs.{External, wait_lock_kept}
use unixd.Cache.Effects.{Does-lift_io}
use unixd.Cache.Footprint.{Does-read_dir, Does-now_ms, Does-set_modified, Does-syscall}
use unixd.Cache.ExternalLaws.{OpenLaws}
use unixd.Cache.Runs.{Runs, Runs-pure, Runs-bind}
use unixd.Cache.Private.FileFootprint.{Does-open_lock}
use unixd.Cache.Private.Footprint.{Does-ensure_dir, Does-sync_dir, Does-validate_root}
use unixd.Cache.Private.Honest.{Honest}
use unixd.Cache.Entry.{
  Inner, Header, Usage, entries_dir, entry_path, maintenance_name, prune_lock_name,
}
use unixd.Cache.Effects.{Does}
use unixd.Cache.Paths.{entries_dir-ne-entry_path}
use unixd.Cache.Prune.{Prune, Wait}
use unixd.Cache.Prune.Spares.{all_but}
use unixd.Cache.Prune.SparedTargets.{Does-usage}
use unixd.Cache.Prune.PassFootprint.{in_root, Does-remove_unheld_locks, Does-take_locks}
use unixd.Cache.Prune.Run.{prune_pass, prune}
use unixd.Cache.Prune.Removed.{Stays, Stays-Tolerates, Told, Told-start, removed_entries, Runs-Told}
use unixd.Cache.Prune.RemovedPasses.{Runs-prune_items, Runs-reach_targets}

module _ (x : External) (laws : OpenLaws x) (header_from_slice : Bytes → Option Header)
    (inner : Inner) where
  entries_out : (d : Bytes) → all_but (entry_path inner d) (entries_dir inner) ≡ true
  entries_out d = ap not (entries_dir-ne-entry_path inner d)

  Does-wait : (d : Bytes) (h : Handle) → Does (Stays (entry_path inner d)) (wait_lock_kept h)
  unfolding wait_lock_kept
  Does-wait d h =
      Does-syscall (Stays-Tolerates _) _
        (record { from = λ w. record { honest = λ f. f; absent = λ a. a } })

  module _ (u : World) where
    Runs-prune_pass :
        (h : Handle) (locks : ℕ) (before : Usage)
        → Runs
            (Told inner u 0)
            (λ o v. Told inner u (removed_entries o) v)
            (prune_pass x header_from_slice inner h locks before)
    unfolding prune_pass
    Runs-prune_pass h locks before =
        Runs-bind _ _
          (Runs-Told inner u 0 _
            (λ d. Does-now_ms (λ w c. record { honest = λ f. f; absent = λ a. a })))
          (λ now.
            Runs-bind _ _
              (Runs-Told inner u 0 _ (λ d. Does-lift_io _ (Does-read_dir (Stays-Tolerates _) _)))
              (λ names.
                Runs-bind _ _ (Runs-prune_items x laws header_from_slice inner u now _ names) (λ p.
                  Runs-bind _ _ (Runs-reach_targets x laws header_from_slice inner u before p) (λ q.
                    Runs-bind _ _ (Runs-Told inner u _ _ (λ d. Does-sync_dir (Stays-Tolerates _) _))
                      (λ _.
                        Runs-bind _ _
                          (Runs-Told inner u _ _
                            (λ d. Does-lift_io _ (Does-set_modified (Stays-Tolerates _) _ _)))
                          (λ _. Runs-pure _ (λ w t. t)))))))

    Runs-prune :
        (wait : Wait)
        → Runs
            (Told inner u 0)
            (λ o v. Told inner u (removed_entries o) v)
            (prune x header_from_slice inner wait)
    unfolding prune
    Runs-prune wait = Runs-bind _ _ (told (λ d. Does-validate_root (Stays-Tolerates _) _)) (λ _.
        Runs-bind _ _ (told (λ d. opened d maintenance_name)) (λ m.
          Runs-bind _ _ (told (λ d. opened d prune_lock_name)) (λ p.
            Runs-bind _ _
              (told (λ d.
                Does-take_locks x laws header_from_slice inner d (Stays-Tolerates _) wait m p
                  (Does-wait d m) (Does-wait d p)))
              (λ _.
                Runs-bind _ _ (told (λ d. Does-ensure_dir (Stays-Tolerates _) _ (entries_out d)))
                  (λ _.
                    Runs-bind _ _
                      (told (λ d.
                        Does-remove_unheld_locks x laws header_from_slice inner d
                          (Stays-Tolerates _)))
                      (λ locks.
                        Runs-bind _ _
                          (told (λ d. Does-usage (Stays-Tolerates _) inner (entries_out d)))
                          (λ before. Runs-prune_pass p locks before)))))))
      where
        told :
            {A : Type 0} {m : M Error A}
            → ((d : Bytes) → Does (Stays (entry_path inner d)) m)
            → Runs (Told inner u 0) (λ _. Told inner u 0) m
        told each = Runs-Told inner u 0 _ each

        opened :
            (d name : Bytes)
            → Does (Stays (entry_path inner d)) (open_lock x (join inner.root name))
        opened d name =
            Does-open_lock (Stays-Tolerates _) x laws _
              (in_root x laws header_from_slice inner d (Stays-Tolerates _) name)

  -- A prune that returns has removed as many entries as it counts.
  pub prune-Told :
      (wait : Wait) (w : World) (o : Prune)
      → Honest w.faults
      → (prune x header_from_slice inner wait w).0 ≡ ok o
      → Told inner w (removed_entries o) (prune x header_from_slice inner wait w).1
  prune-Told wait w o h e = (Runs-prune w wait).run w o (Told-start inner w h) e
