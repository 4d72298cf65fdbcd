-- ===== src/Cache/Private/Fuel.antt =====
-- The fuel of `ensure_dir` of crates/unixd-cache/src/private.rs.
use unixd.Prelude.{
  Result, ◌≢◌, ◌&&◌, ◌==◌, Bool, true, false, if◌then◌else◌, ℕ, zero, suc, ◌+◌, ◌≡◌, ◌≤◌, ◌<◌, refl,
  List, [], ◌∷◌, Option, none, some, err, list_eq, nat_eq, arith, length, inl, inr, ◌⊎◌,
}
use unixd.Cache.Error.{Error, unsafe_root, ErrorKind, not_found, already_exists, other}
use unixd.Cache.Os.{FilePath, Node, World, ◌>>=◌, is_dir, fail, attempt, as_io, lift_io}
use unixd.Cache.Fs.{
  at_path, found, change, add_directory, set_permissions, create_at, symlink_metadata, create_dir,
  syscall,
}
use unixd.Cache.Private.{
  ensure_dir, ensure_dir_loop, ensure_dir_at, ensure_created, set_mode, out_of_fuel, owned,
}

-- No call fails with the kind that stands for the end of the fuel.
unfoldable pub Real : List (Option ErrorKind) → Type 0
Real [] = Unit {0}
Real (fault ∷ faults) = (fault ≢ some (other 2)) × Real faults

module _ (path : FilePath) where
  abbrev with_faults : List (Option ErrorKind) → World → World
  with_faults fs w = record w { faults = fs }

  -- Two loops agree on all worlds with fewer faults than `bound`.
  abbrev AgreeBelow : ℕ → ℕ → ℕ → Type 0
  AgreeBelow bound n m =
      (fs : List (Option ErrorKind)) (w : World)
      → length fs < bound
      → ensure_dir_loop n path (with_faults fs w) ≡ ensure_dir_loop m path (with_faults fs w)

  -- What follows the creation of the directory at a path where `o` is.
  created :
      (n m bound : ℕ)
      → AgreeBelow bound n m
      → (o : Option Node) (fs : List (Option ErrorKind)) (w : World)
      → (length fs < bound) ⊎ (o ≡ none)
      → ensure_created path
          (ensure_dir_loop n path)
          (create_at o path (with_faults fs w)).0
          (create_at o path (with_faults fs w)).1
        ≡ ensure_created path
            (ensure_dir_loop m path)
            (create_at o path (with_faults fs w)).0
            (create_at o path (with_faults fs w)).1
  unfolding ensure_created
  created n m bound agree none fs w few = refl
  created n m bound agree (some node) fs w (inl few) = agree fs w few
  created n m bound agree (some node) fs w (inr absent) = cc

  -- The rest of a round once the directory was not found.
  missing :
      (n m bound : ℕ)
      → AgreeBelow bound n m
      → (fs : List (Option ErrorKind)) (w : World) → (length fs < bound) ⊎ (at_path path w ≡ none)
      → length fs ≤ bound
      → ensure_dir_at path (ensure_dir_loop n path) (err not_found) (with_faults fs w)
        ≡ ensure_dir_at path (ensure_dir_loop m path) (err not_found) (with_faults fs w)
  unfolding ensure_dir_at ensure_created create_dir ◌>>=◌ attempt syscall
  missing n m bound agree [] w few small = created n m bound agree (at_path path w) [] w few
  missing n m bound agree (none ∷ fs) w few small =
      created n m bound agree (at_path path w) fs w (inl (omega (arith, small)))
  missing n m bound agree (some not_found ∷ fs) w few small = refl
  missing n m bound agree (some already_exists ∷ fs) w few small = agree fs w (omega (arith, small))
  missing n m bound agree (some (other k) ∷ fs) w few small = refl

  -- A round after its first call, where the path has `o` or the call failed.
  looked_up :
      (n m bound : ℕ)
      → AgreeBelow bound n m
      → (o : Option Node) (fs : List (Option ErrorKind)) (w : World) → at_path path w ≡ o
      → length fs ≤ bound
      → ensure_dir_at path
          (ensure_dir_loop n path)
          (found o (with_faults fs w)).0
          (found o (with_faults fs w)).1
        ≡ ensure_dir_at path
            (ensure_dir_loop m path)
            (found o (with_faults fs w)).0
            (found o (with_faults fs w)).1
  unfolding ensure_dir_at
  looked_up n m bound agree (some node) fs w there small = refl
  looked_up n m bound agree none fs w there small = missing n m bound agree fs w (inr there) small

  loops_agree : (bound n m : ℕ) → bound ≤ n → bound ≤ m → AgreeBelow bound n m
  unfolding ensure_dir_loop symlink_metadata ◌>>=◌ attempt syscall
  loops_agree zero n m hn hm fs w few = absurd (omega (arith, few))
  loops_agree (suc bound) zero m hn hm fs w few = absurd (omega (arith, hn))
  loops_agree (suc bound) (suc n) zero hn hm fs w few = absurd (omega (arith, hm))
  loops_agree (suc bound) (suc n) (suc m) hn hm [] w few =
      looked_up n m bound (loops_agree bound n m (omega (arith, hn)) (omega (arith, hm)))
        (at_path path w) [] w refl (omega arith)
  loops_agree (suc bound) (suc n) (suc m) hn hm (none ∷ fs) w few =
      looked_up n m bound (loops_agree bound n m (omega (arith, hn)) (omega (arith, hm)))
        (at_path path w) fs w refl (omega (arith, few))
  loops_agree (suc bound) (suc n) (suc m) hn hm (some not_found ∷ fs) w few =
      missing n m bound (loops_agree bound n m (omega (arith, hn)) (omega (arith, hm))) fs w
        (inl (omega (arith, few))) (omega (arith, few))
  loops_agree (suc bound) (suc n) (suc m) hn hm (some already_exists ∷ fs) w few = refl
  loops_agree (suc bound) (suc n) (suc m) hn hm (some (other k) ∷ fs) w few = refl

  abbrev Ends : {A : Type 0} → Result Error A × World → Type 0
  Ends out = out.0 ≢ err out_of_fuel

  abbrev EndsBelow : ℕ → ℕ → Type 0
  EndsBelow bound n =
      (fs : List (Option ErrorKind)) (w : World)
      → length fs < bound
      → Real fs
      → Ends (ensure_dir_loop n path (with_faults fs w))

  set_mode-Ends :
      (fs : List (Option ErrorKind)) (w : World)
      → Real fs
      → Ends (set_mode path 0o700 (with_faults fs w))
  unfolding set_mode set_permissions syscall lift_io Real
  set_mode-Ends fs w real = go fs real
    where
      changed :
          (o : Option Node) (v : World)
          → as_io (change o path (λ node. record node { mode = 0o700 }) v).0 ≢ err out_of_fuel
      changed none v e = cc
      changed (some node) v e = cc

      go : (fs : List (Option ErrorKind)) → Real fs → Ends (set_mode path 0o700 (with_faults fs w))
      go [] r = changed (at_path path w) (with_faults [] w)
      go (none ∷ fs) r = changed (at_path path w) (with_faults fs w)
      go (some k ∷ fs) (named, r) = λ e. named (cc)

  created-Ends :
      (n bound : ℕ)
      → EndsBelow bound n
      → (o : Option Node) (fs : List (Option ErrorKind)) (w : World)
      → (length fs < bound) ⊎ (o ≡ none)
      → Real fs
      → Ends (
          ensure_created path
            (ensure_dir_loop n path)
            (create_at o path (with_faults fs w)).0
            (create_at o path (with_faults fs w)).1)
  unfolding ensure_created
  created-Ends n bound ends none fs w few real = set_mode-Ends fs (add_directory path w) real
  created-Ends n bound ends (some node) fs w (inl few) real = ends fs w few real
  created-Ends n bound ends (some node) fs w (inr absent) real = absurd (cc)

  missing-Ends :
      (n bound : ℕ)
      → EndsBelow bound n
      → (fs : List (Option ErrorKind)) (w : World) → (length fs < bound) ⊎ (at_path path w ≡ none)
      → length fs ≤ bound
      → Real fs
      → Ends (ensure_dir_at path (ensure_dir_loop n path) (err not_found) (with_faults fs w))
  unfolding ensure_dir_at ensure_created create_dir ◌>>=◌ attempt syscall Real
  missing-Ends n bound ends [] w few small real =
      created-Ends n bound ends (at_path path w) [] w few real
  missing-Ends n bound ends (none ∷ fs) w few small (_, real) =
      created-Ends n bound ends (at_path path w) fs w (inl (omega (arith, small))) real
  missing-Ends n bound ends (some not_found ∷ fs) w few small (_, real) = λ e. cc
  missing-Ends n bound ends (some already_exists ∷ fs) w few small (_, real) =
      ends fs w (omega (arith, small)) real
  missing-Ends n bound ends (some (other k) ∷ fs) w few small (named, real) = λ e. named (cc)

  looked_up-Ends :
      (n bound : ℕ)
      → EndsBelow bound n
      → (o : Option Node) (fs : List (Option ErrorKind)) (w : World) → at_path path w ≡ o
      → length fs ≤ bound
      → Real fs
      → Ends (
          ensure_dir_at path
            (ensure_dir_loop n path)
            (found o (with_faults fs w)).0
            (found o (with_faults fs w)).1)
  unfolding ensure_dir_at owned ◌>>=◌
  looked_up-Ends n bound ends (some node) fs w there small real =
      by_owner (is_dir node.file_type && node.uid == w.euid)
    where
      by_owner :
          (mine : Bool)
          → Ends ((if mine then set_mode path 0o700 else fail unsafe_root) (with_faults fs w))
      by_owner true = set_mode-Ends fs w real
      by_owner false = λ e. cc
  looked_up-Ends n bound ends none fs w there small real =
      missing-Ends n bound ends fs w (inr there) small real

  loops_end : (bound n : ℕ) → bound ≤ n → EndsBelow bound n
  unfolding ensure_dir_loop symlink_metadata ◌>>=◌ attempt syscall Real
  loops_end zero n hn fs w few real = absurd (omega (arith, few))
  loops_end (suc bound) zero hn fs w few real = absurd (omega (arith, hn))
  loops_end (suc bound) (suc n) hn [] w few real =
      looked_up-Ends n bound (loops_end bound n (omega (arith, hn))) (at_path path w) [] w refl
        (omega arith) real
  loops_end (suc bound) (suc n) hn (none ∷ fs) w few (_, real) =
      looked_up-Ends n bound (loops_end bound n (omega (arith, hn))) (at_path path w) fs w refl
        (omega (arith, few)) real
  loops_end (suc bound) (suc n) hn (some not_found ∷ fs) w few (_, real) =
      missing-Ends n bound (loops_end bound n (omega (arith, hn))) fs w (inl (omega (arith, few)))
        (omega (arith, few)) real
  loops_end (suc bound) (suc n) hn (some already_exists ∷ fs) w few (_, real) = λ e. cc
  loops_end (suc bound) (suc n) hn (some (other k) ∷ fs) w few (named, real) = λ e. named (cc)

  -- The loop of `ensure_dir` ends where no call fails with the very kind that stands for the end of the fuel:
  -- its fuel of one round more than there are faults to come is never used up, so that the result is
  -- not the one of a loop that has no fuel left, and with any more fuel it does and returns the
  -- same.
  pub ensure_dir_lem :
      (w : World) (more : ℕ)
      → Real w.faults
      → ((ensure_dir path w).0 ≢ err out_of_fuel)
        × (ensure_dir_loop (suc (length w.faults) + more) path w ≡ ensure_dir path w)
  unfolding ensure_dir
  ensure_dir_lem w more real = (
    loops_end (suc (length w.faults)) (suc (length w.faults)) (omega arith) w.faults w (omega arith)
        real,
    loops_agree (suc (length w.faults)) (suc (length w.faults) + more) (suc (length w.faults))
        (omega arith) (omega arith) w.faults w (omega arith),
  )
