-- ===== src/Cache/Store/FillEffects.antt =====
-- What the block that fills the temporary file of `write_atomic` of crates/unixd-cache/src/cache.rs may
-- do to the world, for any relation that allows changes of that file.
use unixd.Prelude.{ℕ, ◌≡◌, Bool, true, Result, ok, err, Bytes, list_eq, nat_eq, ==_refl}
use unixd.Cache.Error.{Error, ErrorKind}
use unixd.Cache.Os.{FilePath, Handle, World, M, attempt, ◌>>=◌}
use unixd.Cache.Fs.{External, write_all, set_modified, sync_all}
use unixd.Cache.Effects.{Does, Does-pure, Does-bind, Does-attempt, effect_rules}
use unixd.Cache.Footprint.{
  Tolerates, from_ChangesOnly, Does-now_ms, Does-write_all, Does-set_modified, Does-sync_all,
}
use unixd.Cache.ExternalLaws.{TemporaryLaws, only}
use unixd.Cache.Private.Files.{or_drop}
use unixd.Cache.Private.Footprint.{widen}
use unixd.Cache.Entry.{Inner, at}
use unixd.Cache.Store.{fill_temporary}

abbrev pub call_or_drop :
    External → Handle → M ErrorKind (Unit {0}) → M Error (Unit {0}) → M Error (Unit {0})
call_or_drop x h m rest = attempt m >>= (λ r. or_drop x h r >>= (λ _. rest))

module _ {R : World → World → Type 0} {changes : FilePath → Bool} (t : Tolerates R changes)
    (clock : (w : World) (c : ℕ → ℕ) → R w (record w { clock = c })) (x : External)
    (laws : TemporaryLaws x) (inner : Inner) (h : Handle)
    (inside : (q : FilePath) → only h.path q ≡ true → changes q ≡ true) where
  drops : Does R (x.drop_temporary h)
  drops = record {
    from =
        λ w. from_ChangesOnly t w _ (widen (only h.path) changes inside w _ (laws.drop_keeps h w));
  }

  pub or_drop-Does : {A : Type 0} (r : Result ErrorKind A) → Does R (or_drop x h r)
  unfolding or_drop
  or_drop-Does (ok a) = Does-pure t.effect a
  or_drop-Does (err k) = search (effect_rules, t.effect, drops)

  -- The next call on the file, and the drop of the file if it fails.
  call-Does :
      (m : M ErrorKind (Unit {0})) (rest : M Error (Unit {0}))
      → Does R m
      → Does R rest
      → Does R (call_or_drop x h m rest)
  call-Does m rest dm dr =
      Does-bind t.effect _ _ (Does-attempt m dm)
        (λ r. Does-bind t.effect _ _ (or_drop-Does r) (λ _. dr))

  pub fill_temporary-Does : (bytes : Bytes) → Does R (fill_temporary x inner h bytes)
  unfolding fill_temporary
  fill_temporary-Does bytes =
      call-Does (write_all h bytes) _ (Does-write_all t h bytes (inside h.path (==_refl h.path))) (
        Does-bind t.effect _ _ (Does-now_ms clock) (λ now.
          call-Does (set_modified h (at now)) _ (Does-set_modified t h (at now))
            (Does-bind t.effect _ _ (Does-attempt sync_all (Does-sync_all t)) or_drop-Does)))
