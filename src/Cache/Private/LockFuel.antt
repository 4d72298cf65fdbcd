-- ===== src/Cache/Private/LockFuel.antt =====
-- The fuel of `lock_exclusive` of crates/unixd-cache/src/private.rs.
use unixd.Prelude.{ℕ, ◌≡◌, ◌<◌, some, list_eq, nat_eq}
use unixd.Cache.Error.{Error}
use unixd.Cache.Os.{FilePath, Handle, World}
use unixd.Cache.Fs.{External}
use unixd.Cache.Footprint.{data_in, node_data}
use unixd.Cache.ExternalLaws.{OpenLaws}
use unixd.Cache.Private.Locks.{lock_exclusive_loop}
use unixd.Cache.Private.LockRounds.{rounds}

-- A lock file that was opened is at its path.
record AtPath (path : FilePath) (h : Handle) (v : World) : Type 0 where
  at : h.path ≡ path
  there : data_in path v.nodes ≡ some (node_data h.node)

module _ (x : External) (laws : OpenLaws x) (path : FilePath) where
  -- Two loops agree on all worlds with fewer rounds than `bound`.
  abbrev AgreeBelow : ℕ → ℕ → ℕ → Type 0
  AgreeBelow bound n m =
      (w : World)
      → rounds w < bound
      → lock_exclusive_loop x n path w ≡ lock_exclusive_loop x m path w
