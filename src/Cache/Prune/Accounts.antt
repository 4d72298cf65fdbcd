-- ===== src/Cache/Prune/Accounts.antt =====
-- The counters of `prune` of crates/unixd-cache/src/cache.rs.
use unixd.Prelude.{ℕ, ◌-◌, ◌≡◌, ◌≤◌, list_eq, nat_eq}
use unixd.Cache.Entry.{Usage}
use unixd.Cache.Prune.{Prune, Progress}
use unixd.Cache.Private.Honest.{Honest}
use unixd.Cache.Prune.Removed.{removed_entries}
use unixd.Cache.Prune.PassRules.{PassRules}

-- The entries and bytes that are left are those of the start less what was removed, where a removal
-- of an entry that was not counted takes nothing below zero.
pub record IsBalanced (before : Usage) (locks : ℕ) (p : Progress) : Type 0 where
  pub entries : p.left.entries ≡ before.entries - removed_entries p.outcome
  pub bytes : p.left.bytes ≤ before.bytes
  pub before_entries : p.outcome.before_entries ≡ before.entries
  pub before_bytes : p.outcome.before_bytes ≡ before.bytes
  pub locks_removed : p.outcome.locks_removed ≡ locks

module _ (before : Usage) (locks : ℕ) where
  abbrev Balanced : Progress → Type 0
  Balanced = IsBalanced before locks
