-- ===== src/Cache/Private/Protocol.antt =====
-- The lock of one key as its callers see it, in any interleaving: `lock_exclusive`, `try_lock_exclusive`
-- and `Drop for Held` of crates/unixd-cache/src/private.rs under the maintenance lock of `Cache::lock`,
-- `prune` and `Cache::clear` of crates/unixd-cache/src/cache.rs. A step is one system call of one caller:
-- a lock in use by `lock` or by a prune, or a `clear`. The lock file at the key's path is named by its
-- inode, which is new when the file is; the kernel keeps the owner of each inode's lock.
pub mod Others
pub mod Still
pub mod Exclusion
pub mod Ownership
pub mod Progress
use unixd.Prelude.{
  ℕ, zero, suc, ◌≡◌, Bool, true, false, not, List, [], ◌∷◌, Option, none, some, nat_eq, ◌==◌,
  if◌then◌else◌,
}

-- Where a caller stands.
pub data Pc : Type 0 where
  outside : Pc  -- it has no lock
  entered : Pc  -- it shares the maintenance lock
  opened : ℕ → Pc  -- `open_lock` returned this inode
  locked : ℕ → Pc  -- `file.lock()` or `try_lock()` returned
  holding : ℕ → Pc  -- `names` was true: it has a `Held`
  deleted : ℕ → Pc  -- `drop` has called `remove_file`, and the file is not yet closed
  clearing : Pc  -- `clear` holds the maintenance lock

-- The maintenance lock: the callers that share it, or the one that has it alone.
pub data Maintenance : Type 0 where
  shared : List ℕ → Maintenance
  exclusive : ℕ → Maintenance

pub record System : Type 0 where
  pub named : Option ℕ  -- the inode at the key's path
  pub owner : ℕ → Option ℕ  -- who has locked an inode
  pub maintenance : Maintenance
  pub fresh : ℕ
  pub pc : ℕ → Pc

pub data Call : Type 0 where
  lock_shared open_lock lock names give_up remove_file remove_fails close leave : Call
  lock_maintenance remove_lock leave_clear die : Call

-- A table with one value changed.
abbrev pub update {ℓ} : {A : Type ℓ} → ℕ → A → (ℕ → A) → ℕ → A
update i a f j = if i == j then a else f j

unfoldable pub without : ℕ → List ℕ → List ℕ
without t [] = []
without t (j ∷ readers) = let rest = without t readers in if j == t then rest else j ∷ rest

abbrev pub goes : ℕ → Pc → System → System
goes t p s = record s { pc = update t p s.pc }

abbrev pub owned_by : ℕ → Option ℕ → System → System
owned_by i o s = record s { owner = update i o s.owner }

abbrev pub kept_by : Maintenance → System → System
kept_by m s = record s { maintenance = m }

-- `O_CREAT` without `O_EXCL`: the file at the path, or a new one.
abbrev pub open_at : Option ℕ → ℕ → System → Option System
open_at (some i) t s = some (goes t (opened i) s)
open_at none t s =
    some (goes t (opened s.fresh) (record s { named = some s.fresh; fresh = suc s.fresh }))

abbrev pub lock_free : Option ℕ → ℕ → ℕ → System → Option System
lock_free (some _) i t s = none
lock_free none i t s = some (goes t (locked i) (owned_by i (some t) s))

abbrev pub is_named : Option ℕ → ℕ → Bool
is_named none i = false
is_named (some j) i = j == i

abbrev pub enter_at : Maintenance → ℕ → System → Option System
enter_at (exclusive _) t s = none
enter_at (shared readers) t s = some (goes t entered (kept_by (shared (t ∷ readers)) s))

abbrev pub leave_at : Maintenance → ℕ → System → System
leave_at (exclusive _) t s = goes t outside s
leave_at (shared readers) t s = goes t outside (kept_by (shared (without t readers)) s)

abbrev pub clear_at : Maintenance → ℕ → System → Option System
clear_at (shared []) t s = some (goes t clearing (kept_by (exclusive t) s))
clear_at _ t s = none

-- The kernel closes all that a caller had open; the path stays.
unfoldable pub dies : Pc → ℕ → System → System
unfolding without
dies outside t s = s
dies clearing t s = goes t outside (kept_by (shared []) s)
dies entered t s = leave_at s.maintenance t s
dies (opened i) t s = leave_at s.maintenance t s
dies (locked i) t s = leave_at s.maintenance t (owned_by i none s)
dies (holding i) t s = leave_at s.maintenance t (owned_by i none s)
dies (deleted i) t s = leave_at s.maintenance t (owned_by i none s)

-- What a call of a caller does where it stands; `none` where it is not the caller's next call, or waits.
unfoldable pub step_at : Pc → Call → ℕ → System → Option System
unfolding without dies
step_at p die t s = some (dies p t s)
step_at outside lock_shared t s = enter_at s.maintenance t s
step_at outside lock_maintenance t s = clear_at s.maintenance t s
step_at entered open_lock t s = open_at s.named t s
step_at entered leave t s = some (leave_at s.maintenance t s)
step_at (opened i) lock t s = lock_free (s.owner i) i t s
step_at (opened i) give_up t s = some (goes t entered s)
step_at (locked i) names t s =
    if is_named s.named i
    then some (goes t (holding i) s)
    else some (goes t entered (owned_by i none s))
step_at (holding i) remove_file t s = some (goes t (deleted i) (record s { named = none }))
step_at (holding i) remove_fails t s = some (goes t (deleted i) s)
step_at (deleted i) close t s = some (goes t entered (owned_by i none s))
step_at clearing remove_lock t s = some (record s { named = none })
step_at clearing leave_clear t s = some (goes t outside (kept_by (shared []) s))
step_at _ _ t s = none

unfoldable pub step : Call → ℕ → System → Option System
unfolding step_at
step call t s = step_at (s.pc t) call t s

-- No caller, and nothing or the file of a dead process at the path.
abbrev pub begin : Option ℕ → ℕ → System
begin named fresh = record {
  named = named;
  owner = λ i. none;
  maintenance = shared [];
  fresh = fresh;
  pc = λ t. outside;
}

pub data Reachable : System → Type 0 where
  start : (named : Option ℕ) (fresh : ℕ) → Reachable (begin named fresh)
  next : {s u : System} → Reachable s → (call : Call) (t : ℕ) → step call t s ≡ some u → Reachable u

-- The next call of the loop of `lock_exclusive`; it has none once there is a `Held`.
abbrev pub loop_call : Pc → Option Call
loop_call entered = some open_lock
loop_call (opened _) = some lock
loop_call (locked _) = some names
loop_call _ = none

abbrev pub after : Option System → (System → Option System) → Option System
after none rest = none
after (some u) rest = rest u

abbrev pub taken : Option Call → ℕ → System → Option System
taken none t s = some s
taken (some call) t s = step call t s

-- That many calls of the loop, with nobody else in between; `none` where one would wait.
unfoldable pub calls_alone : ℕ → ℕ → System → Option System
unfolding step
calls_alone zero t s = some s
calls_alone (suc n) t s = after (taken (loop_call (s.pc t)) t s) (calls_alone n t)
