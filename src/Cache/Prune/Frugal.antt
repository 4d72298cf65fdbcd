-- ===== src/Cache/Prune/Frugal.antt =====
-- How much the second pass of `prune` of crates/unixd-cache/src/cache.rs removes.
use unixd.Prelude.{ℕ, ◌+◌, ◌≡◌, ◌≤◌, ◌<◌, ◌⊎◌}
use unixd.Cache.Entry.{Inner, Usage}
use unixd.Cache.Prune.{Prune, Progress}
use unixd.Cache.Private.Honest.{Honest}
use unixd.Cache.Prune.PassRules.{PassRules, target_entries, target_bytes}

module _ (inner : Inner) where
  -- The cache was over a hard limit, and with one more entry it would be over a target.
  record Needed (before left : Usage) : Type 0 where
    over : (inner.limits.hard_entries < before.entries) ⊎ (inner.limits.hard_bytes < before.bytes)
    near :
        (target_entries inner ≤ left.entries)
        ⊎ (target_bytes inner < left.bytes + inner.limits.max_entry_bytes)

  -- Before the second pass, and in it.
  record IsFirst (before : Usage) (locks : ℕ) (p : Progress) : Type 0 where
    none_removed : p.outcome.capacity_removed ≡ 0
    before_entries : p.outcome.before_entries ≡ before.entries
    before_bytes : p.outcome.before_bytes ≡ before.bytes

  record IsFrugal (before : Usage) (locks : ℕ) (p : Progress) : Type 0 where
    needed : (p.outcome.capacity_removed ≡ 0) ⊎ Needed before p.left
    before_entries : p.outcome.before_entries ≡ before.entries
    before_bytes : p.outcome.before_bytes ≡ before.bytes
