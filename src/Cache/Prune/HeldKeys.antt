-- ===== src/Cache/Prune/HeldKeys.antt =====
-- Whose lock `try_lock_exclusive` of crates/unixd-cache/src/private.rs takes.
use unixd.Prelude.{
  ◌≡◌, refl, subst, ◌∙◌, true, false, not, ◌||◌, some, Result, ok, err, list_eq, nat_eq, arith, inl,
  inr, Bool-cases,
}
use unixd.Cache.Error.{Error, ErrorKind, unsafe_root}
use unixd.Cache.Os.{FilePath, Node, Handle, World, attempt, lift_io, is_file}
use unixd.Cache.Fs.{
  External, metadata, symlink_metadata, read_write_create, is_held, try_lock, TryLockError,
  would_block, failed,
}
use unixd.Cache.Effects.{bind_ok}
use unixd.Cache.Footprint.{Tolerates}
use unixd.Cache.ExternalLaws.{OpenLaws}
use unixd.Cache.Private.{Held, names, owned}
use unixd.Cache.Private.Locks.{
  open_lock, open_lock_opened, open_lock_failed, try_lock_exclusive, try_locked,
}
use unixd.Cache.Private.ReadResult.{attempt_ok}
use unixd.Cache.Private.FileFootprint.{Does-open_lock}

-- The locks that others hold stay theirs.
pub record SameHeld (w v : World) : Type 0 where
  pub held : v.held ≡ w.held

pub SameHeld-Tolerates : Tolerates SameHeld (λ q. true)
SameHeld-Tolerates = record {
  effect = record {
    same = λ w. record { held = refl };
    chain = λ u v w f g. record { held = g.held ∙ f.held };
  };
  faults = λ w fs rest. record { held = refl };
  nodes = λ w n i agree. record { held = refl };
}

try_lock_ok :
    (h : Handle) (w : World) (u : Unit {0})
    → (try_lock h w).0 ≡ ok u
    → is_held h.path w.held ≡ false
unfolding try_lock
try_lock_ok h w u e = ground arith

module _ (x : External) (laws : OpenLaws x) where
  opened_path :
      (p : FilePath) (g h : Handle) (v : World)
      → g.path ≡ p
      → (open_lock_opened x p (ok g) v).0 ≡ ok h
      → h.path ≡ p
  unfolding open_lock_opened
  opened_path p g h v at e =
      let (node, _, rest) = bind_ok (lift_io (metadata g)) _ v e in
      let (mine, _, last) = bind_ok (owned node) _ _ rest in
      elim (Bool-cases (not (is_file node.file_type) || not mine)) [
        | inl refused ↦ absurd (never (rw refused at last))
        | inr good ↦
            let (_, _, done) = bind_ok (lift_io (x.fchmod g 0o600)) _ _ (rw good at last) in
            cc (at, same g h done)
      ]
    where
      never : ◌≡◌ {A = Result Error Handle} (err unsafe_root) (ok h) → ⊥
      never e = cc

      same : (g h : Handle) → ◌≡◌ {A = Result Error Handle} (ok g) (ok h) → g ≡ h
      same g h e = cc

  unopened_path :
      (p : FilePath) (k : ErrorKind) (h : Handle) (v : World)
      → (open_lock_opened x p (err k) v).0 ≡ ok h
      → ⊥
  unfolding open_lock_opened
  unopened_path p k h v e =
      let (r, _, rest) = bind_ok (attempt (symlink_metadata p)) _ v e in never r _ rest
    where
      never : (r : Result ErrorKind Node) (w : World) → (open_lock_failed x k r w).0 ≡ ok h → ⊥
      never (ok node) w e = ground arith
      never (err _) w e = cc

  -- An opened lock file is the one asked for.
  pub open_lock_path :
      (p : FilePath) (w : World) (h : Handle) → (open_lock x p w).0 ≡ ok h → h.path ≡ p
  unfolding open_lock
  open_lock_path p w h e =
      let (r, hr, rest) = bind_ok (attempt (x.open_file read_write_create p)) _ w e in
      by_result r (attempt_ok (x.open_file read_write_create p) w r hr) _ rest
    where
      by_result :
          (r : Result ErrorKind Handle)
          → (x.open_file read_write_create p w).0 ≡ r
          → (v : World) → (open_lock_opened x p r v).0 ≡ ok h
          → h.path ≡ p
      by_result (ok g) opened v rest =
          opened_path p g h v (laws.open_path read_write_create p w g opened) rest
      by_result (err k) opened v rest = absurd (unopened_path p k h v rest)

  locked_free :
      (p : FilePath) (h : Handle) (u v : World) (held : Held) (r : Result TryLockError (Unit {0}))
      → (try_lock h u).0 ≡ r
      → (try_locked x p h r v).0 ≡ ok (some held)
      → (is_held h.path u.held ≡ false) × (held.path ≡ p)
  unfolding try_locked
  locked_free p h u v held (ok a) e rest =
      let (named, _, last) = bind_ok (names p h) _ v rest in (try_lock_ok h u a e, ground arith)
  locked_free p h u v held (err would_block) e rest = cc
  locked_free p h u v held (err (failed k)) e rest = cc

  -- A lock that is taken without waiting was not held by another, and is on the path asked for.
  pub try_lock_free :
      (p : FilePath) (w : World) (held : Held)
      → (try_lock_exclusive x p w).0 ≡ ok (some held)
      → (is_held p w.held ≡ false) × (held.path ≡ p)
  unfolding try_lock_exclusive
  try_lock_free p w held e =
      let (h, hh, rest) = bind_ok (open_lock x p) _ w e in
      let at = open_lock_path p w h hh in
      let same = ((Does-open_lock SameHeld-Tolerates x laws p refl).from w).held in
      let (r, hr, last) = bind_ok (attempt (try_lock h)) _ _ rest in
      let (free, on) = locked_free p h _ _ held r (attempt_ok (try_lock h) _ r hr) last in
      (
        subst (λ q. is_held q w.held ≡ false) at (subst (λ l. is_held h.path l ≡ false) same free),
        on,
      )
