-- ===== src/Cache/Prune/PassRules.antt =====
-- What the counting of `prune` of crates/unixd-cache/src/cache.rs may rely on in its two passes.
use unixd.Prelude.{
  ℕ, ◌≡◌, ◌≤◌, min, ◌&&◌, Bool, true, false, List, [], ◌∷◌, ◌++◌, Bytes, list_eq, nat_eq, leb,
  if◌then◌else◌,
}
use unixd.Cache.Entry.{Inner, Usage}
use unixd.Cache.Prune.{Progress, Kept, sort_kept, insert_kept, kept_le}
use unixd.Cache.Prune.Entries.{count_expired, count_unused, count_capacity, count_temporary, keep}
use unixd.Cache.Prune.Run.{over_hard, start_progress}

-- The targets of the second pass, and whether the usage is within them.
abbrev pub target_entries : Inner → ℕ
target_entries inner = min inner.limits.target_entries inner.limits.hard_entries

abbrev pub target_bytes : Inner → ℕ
target_bytes inner = min inner.limits.target_bytes inner.limits.hard_bytes

abbrev pub at_targets : Inner → Progress → Bool
at_targets inner p =
    leb p.left.entries (target_entries inner) && leb p.left.bytes (target_bytes inner)

-- Two facts about the progress, in terms of the usage before and of the lock files removed: one that holds
-- at the start and that no step of the first pass ends, and one that follows from it and that no step of
-- the second pass ends. Entries are removed for capacity only after a usage
-- over a hard limit, while the targets are not reached, and of a size that one entry may have.
pub record PassRules (inner : Inner) (P Q : Usage → ℕ → Progress → Type 0) : Type 0 where
  pub start : (before : Usage) (locks : ℕ) → P before locks (start_progress locks before)
  pub expired :
      (before : Usage) (locks : ℕ) (p : Progress) (size : ℕ)
      → P before locks p
      → P before locks (count_expired p size)
  pub unused :
      (before : Usage) (locks : ℕ) (p : Progress) (size : ℕ)
      → P before locks p
      → P before locks (count_unused p size)
  pub temporary :
      (before : Usage) (locks : ℕ) (p : Progress)
      → P before locks p
      → P before locks (count_temporary p)
  pub kept :
      (before : Usage) (locks : ℕ) (p : Progress) (k : Kept)
      → P before locks p
      → P before locks (keep p k)
  pub second : (before : Usage) (locks : ℕ) (p : Progress) → P before locks p → Q before locks p
  pub capacity :
      (before : Usage) (locks : ℕ) (p : Progress) (size : ℕ)
      → over_hard inner before ≡ true
      → at_targets inner p ≡ false
      → size ≤ inner.limits.max_entry_bytes
      → Q before locks p
      → Q before locks (count_capacity p size)

-- The kept entries are of a size that one entry may have.
unfoldable pub Small : ℕ → List Kept → Type 0
Small limit [] = Unit {0}
Small limit ((_, _, size) ∷ kept) = (size ≤ limit) × Small limit kept

pub Small-snoc :
    (limit used : ℕ) (digest : Bytes) (size : ℕ) (kept : List Kept)
    → Small limit kept
    → size ≤ limit
    → Small limit (kept ++ (used, digest, size) ∷ [])
unfolding Small
Small-snoc limit used digest size [] s h = (h, tt)
Small-snoc limit used digest size (j ∷ kept) (hj, s) h =
    (hj, Small-snoc limit used digest size kept s h)

Small-insert :
    (limit : ℕ) (k : Kept) (kept : List Kept)
    → k.2 ≤ limit
    → Small limit kept
    → Small limit (insert_kept k kept)
unfolding Small insert_kept
Small-insert limit (used, digest, size) [] h s = (h, tt)
Small-insert limit k (j ∷ kept) h (hj, s) = either (kept_le k j) (Small-insert limit k kept h s)
  where
    either :
        (b : Bool)
        → Small limit (insert_kept k kept)
        → Small limit (if b then k ∷ j ∷ kept else j ∷ insert_kept k kept)
    either true rest = (h, (hj, s))
    either false rest = (hj, rest)

pub Small-sort : (limit : ℕ) (kept : List Kept) → Small limit kept → Small limit (sort_kept kept)
unfolding Small sort_kept
Small-sort limit [] s = tt
Small-sort limit (k ∷ kept) (h, s) =
    Small-insert limit k (sort_kept kept) h (Small-sort limit kept s)
