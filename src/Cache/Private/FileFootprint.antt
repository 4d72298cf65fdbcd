-- ===== src/Cache/Private/FileFootprint.antt =====
-- Which nodes the lock files and the reads of crates/unixd-cache/src/private.rs may change.
use unixd.Prelude.{ℕ, ◌≡◌, Bool, true, Result, ok, err}
use unixd.Cache.Error.{ErrorKind, not_found, already_exists, other}
use unixd.Cache.Os.{FilePath, Node, Handle, World}
use unixd.Cache.Fs.{External, TryLockError, would_block, failed}
use unixd.Cache.Effects.{Does, Does-pure, Does-fail, Does-bind, Does-attempt, effect_rules}
use unixd.Cache.Footprint.{
  Tolerates, Does-symlink_metadata, Does-metadata, Does-syscall, Does-set_modified, Does-try_lock,
}
use unixd.Cache.ExternalLaws.{OpenLaws}
use unixd.Cache.Private.Footprint.{
  Does-owned, Does-names, Does-open_read, Does-open_write, Does-fchmod,
}
use unixd.Cache.Private.Locks.{
  open_lock, open_lock_opened, open_lock_failed, try_lock_exclusive, try_locked,
}
use unixd.Cache.Private.Files.{read, read_opened, read_refused, read_to_end, touch}

module _ {R : World → World → Type 0} {changes : FilePath → Bool} (t : Tolerates R changes)
    (x : External) (laws : OpenLaws x) where
  Does-read_to_end : (h : Handle) (limit : ℕ) → Does R (read_to_end h limit)
  unfolding read_to_end
  Does-read_to_end h limit = Does-syscall t _ (Does-pure t.effect _)

  Does-read_refused : (k : ErrorKind) (r : Result ErrorKind Node) → Does R (read_refused k r)
  unfolding read_refused
  Does-read_refused k (ok node) = search (effect_rules, t.effect)
  Does-read_refused k (err not_found) = Does-pure t.effect _
  Does-read_refused k (err already_exists) = Does-fail t.effect _
  Does-read_refused k (err (other i)) = Does-fail t.effect _

  Does-read_opened :
      (p : FilePath) (limit : ℕ) (r : Result ErrorKind Handle) → Does R (read_opened p limit r)
  unfolding read_opened
  Does-read_opened p limit (ok h) =
      search (effect_rules, t.effect, Does-metadata t, Does-read_to_end)
  Does-read_opened p limit (err not_found) = Does-pure t.effect _
  Does-read_opened p limit (err already_exists) =
      Does-bind t.effect _ _ (Does-attempt _ (Does-symlink_metadata t p)) (Does-read_refused _)
  Does-read_opened p limit (err (other i)) =
      Does-bind t.effect _ _ (Does-attempt _ (Does-symlink_metadata t p)) (Does-read_refused _)

  pub Does-read : (p : FilePath) (limit : ℕ) → Does R (read x p limit)
  unfolding read
  Does-read p limit =
      Does-bind t.effect _ _ (Does-attempt _ (Does-open_read t x laws p)) (Does-read_opened p limit)

  pub Does-touch : (p : FilePath) (time : ℕ) → Does R (touch x p time)
  unfolding touch
  Does-touch p time = search (effect_rules, t.effect, Does-open_read t x laws, Does-set_modified t)

  pub Does-open_lock_opened :
      (p : FilePath) (r : Result ErrorKind Handle) → Does R (open_lock_opened x p r)
  unfolding open_lock_opened
  Does-open_lock_opened p (ok h) =
      search (effect_rules, t.effect, Does-metadata t, Does-owned t, Does-fchmod t x laws) depth 9
  Does-open_lock_opened p (err k) =
      Does-bind t.effect _ _ (Does-attempt _ (Does-symlink_metadata t p)) refused
    where
      refused : (r : Result ErrorKind Node) → Does R (open_lock_failed x k r)
      refused (ok node) = search (effect_rules, t.effect)
      refused (err _) = Does-fail t.effect _

  pub Does-open_lock : (p : FilePath) → changes p ≡ true → Does R (open_lock x p)
  unfolding open_lock
  Does-open_lock p at =
      Does-bind t.effect _ _ (Does-attempt _ (Does-open_write t x laws p at))
        (Does-open_lock_opened p)

  Does-try_locked :
      (p : FilePath) (h : Handle) (r : Result TryLockError (Unit {0})) → Does R (try_locked x p h r)
  unfolding try_locked
  Does-try_locked p h (ok _) = search (effect_rules, t.effect, Does-names t)
  Does-try_locked p h (err would_block) = Does-pure t.effect _
  Does-try_locked p h (err (failed k)) = Does-fail t.effect _

  pub Does-try_lock_exclusive : (p : FilePath) → changes p ≡ true → Does R (try_lock_exclusive x p)
  unfolding try_lock_exclusive
  Does-try_lock_exclusive p at =
      Does-bind t.effect _ _ (Does-open_lock p at)
        (λ h. Does-bind t.effect _ _ (Does-attempt _ (Does-try_lock t h)) (Does-try_locked p h))
