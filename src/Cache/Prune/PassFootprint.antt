-- ===== src/Cache/Prune/PassFootprint.antt =====
-- Which nodes the parts of `prune` of crates/unixd-cache/src/cache.rs outside its two passes may change:
-- no entry of a key.
use unixd.Prelude.{
  ℕ, ◌≡◌, refl, ap, ◌∙◌, true, not, List, [], ◌∷◌, ◌++◌, Option, none, some, Result, ok, err, Bytes,
  ascii, length, ◌+◌, list_eq, nat_eq, arith,
}
use unixd.Cache.Error.{Error, ErrorKind, lock}
use unixd.Cache.Os.{FilePath, Node, Handle, World, join}
use unixd.Cache.Fs.{External, wait_lock_kept, TryLockError}
use unixd.Cache.Effects.{
  Does, Does-pure, Does-fail, Does-bind, Does-bind_from, Does-attempt, Does-lift_io, Does-or_error,
}
use unixd.Cache.Footprint.{Tolerates, Does-symlink_metadata, Does-read_dir, Does-try_lock}
use unixd.Cache.ExternalLaws.{OpenLaws}
use unixd.Cache.Private.{Held}
use unixd.Cache.Private.FileFootprint.{Does-try_lock_exclusive}
use unixd.Cache.Private.Footprint.{Does-with_held, Does-regular, Does-ensure_dir, Does-sync_dir}
use unixd.Cache.Entry.{entries_name, Inner, Header, entries_dir, locks_dir, entry_path}
use unixd.Cache.Paths.{length-join, ne→==, lock-ne-entry, locks_dir-ne-entry, in_locks_below}
use unixd.Cache.Prune.HeldKeys.{try_lock_free}
use unixd.Cache.Prune.Spares.{all_but, below_changes, Does-scan}
use unixd.Cache.Entry.Scan.{scan_opened, read_header_text}
use unixd.Cache.Prune.{
  Wait, block, skip, or_lock_error, free_lock, free_regular, remove_unheld_items,
  remove_unheld_locks, live,
}
use unixd.Cache.Prune.Run.{take_locks}

module _ {R : World → World → Type 0} (x : External) (laws : OpenLaws x)
    (header_from_slice : Bytes → Option Header) (inner : Inner) (digest : Bytes)
    (t : Tolerates R (all_but (entry_path inner digest))) where
  -- The body of `live` only reads.
  pub Does-live : (name : Bytes) (now : ℕ) → Does R (live x header_from_slice inner name now)
  unfolding live read_header_text
  Does-live name now =
      Does-bind t.effect _ _
        (Does-bind t.effect _ _ (Does-attempt _ (Does-symlink_metadata t _)) scanned)
        (λ text. Does-pure t.effect _)
    where
      scanned :
          (r : Result ErrorKind Node)
          → Does {E = Error} R (scan_opened inner.limits.max_entry_bytes r)
      scanned (ok node) = Does-scan t [] _
      scanned (err _) = Does-pure t.effect _

  in_locks : (name : Bytes) → all_but (entry_path inner digest) (join (locks_dir inner) name) ≡ true
  in_locks name = ap not (ne→== _ _ (lock-ne-entry inner name digest))

  pub in_root : (name : Bytes) → all_but (entry_path inner digest) (join inner.root name) ≡ true
  unfolding entry_path
  in_root name = ap not (
      ne→== _ _ (λ e. omega (
        arith,
        ap length e,
        length-join inner.root name,
        length-join inner.root entries_name,
        length-join (entries_dir inner) (digest ++ ascii ".json"),
      )))

  Does-free_lock :
      (p : FilePath) (o : Option Held)
      → ((held : Held) → o ≡ some held → held.path ≡ p)
      → all_but (entry_path inner digest) p ≡ true
      → Does R (free_lock x header_from_slice inner o)
  unfolding free_lock
  Does-free_lock p none at out = Does-pure t.effect 0
  Does-free_lock p (some held) at out =
      Does-with_held t held _ (ap (all_but (entry_path inner digest)) (at held refl) ∙ out)
        (Does-pure t.effect 1)

  Does-free_regular :
      (p : FilePath) (o : Option Node)
      → all_but (entry_path inner digest) p ≡ true
      → Does R (free_regular x header_from_slice inner p o)
  unfolding free_regular
  Does-free_regular p none out = Does-pure t.effect 0
  Does-free_regular p (some _) out =
      Does-bind_from t.effect _ _ (Does-try_lock_exclusive t x laws p out) (λ w o e.
        (Does-free_lock p o (λ held h. (try_lock_free x laws p w held (e ∙ ap ok h)).1) out).from _)

  Does-remove_unheld_items :
      (removed : ℕ) (names : List Bytes)
      → Does R (remove_unheld_items x header_from_slice inner removed names)
  unfolding remove_unheld_items
  Does-remove_unheld_items removed [] = Does-pure t.effect removed
  Does-remove_unheld_items removed (name ∷ names) =
      Does-bind t.effect _ _
        (Does-regular t _
          (below_changes (entry_path inner digest) _ (in_locks_below inner name digest)))
        (λ node.
          Does-bind t.effect _ _ (Does-free_regular _ node (in_locks name))
            (λ one. Does-remove_unheld_items (removed + one) names))

  pub Does-remove_unheld_locks : Does R (remove_unheld_locks x header_from_slice inner)
  unfolding remove_unheld_locks
  Does-remove_unheld_locks =
      Does-bind t.effect _ _
        (Does-ensure_dir t _ (ap not (ne→== _ _ (locks_dir-ne-entry inner digest))))
        (λ _. Does-bind t.effect _ _ (Does-lift_io _ (Does-read_dir t _)) (λ names.
          Does-bind t.effect _ _ (Does-remove_unheld_items 0 names) (λ removed.
            Does-bind t.effect _ _ (Does-sync_dir t _) (λ _. Does-pure t.effect removed))))

  pub Does-take_locks :
      (wait : Wait) (m p : Handle)
      → Does R (wait_lock_kept m)
      → Does R (wait_lock_kept p)
      → Does R (take_locks x header_from_slice inner wait m p)
  unfolding take_locks
  Does-take_locks block m p hm hp =
      Does-bind t.effect _ _ (Does-or_error lock _ hm) (λ _. Does-or_error lock _ hp)
  Does-take_locks skip m p hm hp = Does-bind t.effect _ _ (Does-attempt _ (Does-try_lock t m)) (λ r.
      Does-bind t.effect _ _ (answered r)
        (λ _. Does-bind t.effect _ _ (Does-attempt _ (Does-try_lock t p)) answered))
    where
      answered : (r : Result TryLockError (Unit {0})) → Does R (or_lock_error r)
      answered (ok a) = Does-pure t.effect a
      answered (err e) = Does-fail t.effect _
