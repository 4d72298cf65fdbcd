-- ===== src/Cache/Prune/Passes.antt =====
-- Both passes of `prune` of crates/unixd-cache/src/cache.rs, for any facts that the steps of their
-- counting keep.
use unixd.Prelude.{
  ℕ, ◌≡◌, ◌≤◌, refl, true, false, List, [], ◌∷◌, Option, none, some, Bytes, list_eq, nat_eq, arith,
  ltb, length,
}
use unixd.Cache.Os.{FilePath, Node, Handle}
use unixd.Cache.Fs.{External}
use unixd.Cache.Returns.{
  Returns, Returns-pure, Returns-bind, Returns-then, Returns-if, Returns-if_by, Returns-with_held,
}
use unixd.Cache.Private.{Held}
use unixd.Cache.Entry.{Inner, Header, Usage, entry_digest, temporary_digest, is_temporary}
use unixd.Cache.Prune.{Prune, Wait, Progress, Kept, sort_kept}
use unixd.Cache.Prune.Entries.{
  is_expired, remove_temporary, temporary_locked, prune_temporary, prune_metadata, prune_locked,
  prune_entry, prune_item, prune_items,
}
use unixd.Cache.Prune.Targets.{capacity_metadata, capacity_locked, capacity_item, capacity_items}
use unixd.Cache.Prune.Run.{over_hard, finish_progress, reach_targets, prune_pass, prune}
use unixd.Cache.Prune.PassRules.{
  PassRules, Small, Small-snoc, Small-sort, at_targets, target_entries, target_bytes,
}

module _ {P Q : Usage → ℕ → Progress → Type 0} (x : External)
    (header_from_slice : Bytes → Option Header) (inner : Inner) (rules : PassRules inner P Q) where
  abbrev limit : ℕ
  limit = inner.limits.max_entry_bytes

  module _ (before : Usage) (locks : ℕ) where
    record Passing (p : Progress) : Type 0 where
      fact : P before locks p
      small : Small limit p.kept

    module _ (now : ℕ) where
      Returns-remove_temporary :
          (path : FilePath) (p : Progress)
          → Passing p
          → Returns Passing (remove_temporary x header_from_slice inner now path p)
      unfolding remove_temporary
      Returns-remove_temporary path p b = Returns-then _ _ (λ _.
          Returns-pure _ (record { fact = rules.temporary before locks p b.fact; small = b.small }))

      Returns-prune_temporary :
          (path : FilePath) (p : Progress) (d : Option Bytes)
          → Passing p
          → Returns Passing (prune_temporary x header_from_slice inner now path p d)
      unfolding prune_temporary temporary_locked
      Returns-prune_temporary path p none b = Returns-remove_temporary path p b
      Returns-prune_temporary path p (some d) b = Returns-then _ _ locked
        where
          locked :
              (o : Option Held)
              → Returns Passing (temporary_locked x header_from_slice inner now path p o)
          locked none = Returns-pure p b
          locked (some held) = Returns-with_held held _ (Returns-remove_temporary path p b)

      -- What is not expired is within the limit of one entry.
      Returns-is_expired :
          (name : Bytes) (m : Node)
          → Returns
              (λ b. b ≡ false → length m.content ≤ limit)
              (is_expired x header_from_slice inner now name m)
      unfolding is_expired
      Returns-is_expired name m =
          Returns-if_by (ltb limit (length m.content)) _ _
            (λ large. Returns-pure true (λ e. absurd (cc)))
            (λ fits. Returns-then _ _ (λ alive. Returns-pure _ (λ e. ground (arith, fits))))

      Returns-prune_metadata :
          (name d : Bytes) (p : Progress) (o : Option Node)
          → Passing p
          → Returns Passing (prune_metadata x header_from_slice inner now name d p o)
      unfolding prune_metadata
      Returns-prune_metadata name d p none b = Returns-pure p b
      Returns-prune_metadata name d p (some m) b =
          Returns-bind _ _ (Returns-is_expired name m) (λ expired fits.
            Returns-if_by expired _ _
              (λ _. Returns-then _ _ (λ _.
                Returns-pure _
                  (record { fact = rules.expired before locks p _ b.fact; small = b.small })))
              (λ alive.
                Returns-if _ _ _
                  (Returns-then _ _ (λ _.
                    Returns-pure _
                      (record { fact = rules.unused before locks p _ b.fact; small = b.small })))
                  (Returns-pure _ (record {
                    fact = rules.kept before locks p _ b.fact;
                    small = Small-snoc limit _ d _ p.kept b.small (fits alive);
                  }))))

      Returns-prune_entry :
          (name : Bytes) (p : Progress) (d : Option Bytes)
          → Passing p
          → Returns Passing (prune_entry x header_from_slice inner now name p d)
      unfolding prune_entry prune_locked
      Returns-prune_entry name p none b = Returns-pure p b
      Returns-prune_entry name p (some d) b = Returns-then _ _ locked
        where
          locked :
              (o : Option Held)
              → Returns Passing (prune_locked x header_from_slice inner now name d p o)
          locked none = Returns-pure p b
          locked (some held) =
              Returns-with_held held _ (Returns-then _ _ (λ o. Returns-prune_metadata name d p o b))

      Returns-prune_items :
          (p : Progress) (names : List Bytes)
          → Passing p
          → Returns Passing (prune_items x header_from_slice inner now p names)
      unfolding prune_items prune_item
      Returns-prune_items p [] b = Returns-pure p b
      Returns-prune_items p (name ∷ names) b =
          Returns-bind _ _
            (Returns-if (is_temporary name) _ _
              (Returns-prune_temporary _ p (temporary_digest name) b)
              (Returns-prune_entry name p (entry_digest name) b))
            (λ q passing. Returns-prune_items q names passing)

    -- The second pass.
    module _ (over : over_hard inner before ≡ true) where
      abbrev Fact : Progress → Type 0
      Fact = Q before locks

      Returns-capacity_item :
          (k : Kept) (p : Progress)
          → at_targets inner p ≡ false
          → k.2 ≤ limit
          → Fact p
          → Returns Fact (capacity_item x header_from_slice inner k p)
      unfolding capacity_item capacity_locked capacity_metadata
      Returns-capacity_item k p above fits b = Returns-then _ _ (locked k fits)
        where
          found :
              (path : FilePath) (used size : ℕ) (o : Option Node)
              → size ≤ limit
              → Returns Fact (capacity_metadata x header_from_slice inner path used size p o)
          found path used size none fits = Returns-pure p b
          found path used size (some m) fits = Returns-if _ _ _ (Returns-pure p b) (
              Returns-then _ _
                (λ _. Returns-pure _ (rules.capacity before locks p size over above fits b)))

          locked :
              (k : Kept)
              → k.2 ≤ limit
              → (o : Option Held) → Returns Fact (capacity_locked x header_from_slice inner k p o)
          locked k fits none = Returns-pure p b
          locked (used, d, size) fits (some held) =
              Returns-with_held held _ (Returns-then _ _ (λ o. found _ used size o fits))

      Returns-capacity_items :
          (p : Progress) (kept : List Kept)
          → Small limit kept
          → Fact p
          → Returns Fact (
              capacity_items x header_from_slice inner
                (target_entries inner)
                (target_bytes inner)
                p
                kept)
      unfolding capacity_items Small
      Returns-capacity_items p [] s b = Returns-pure p b
      Returns-capacity_items p (k ∷ kept) (fits, s) b =
          Returns-if_by (at_targets inner p) _ _ (λ _. Returns-pure p b)
            (λ above.
              Returns-bind _ _ (Returns-capacity_item k p above fits b)
                (λ q fact. Returns-capacity_items q kept s fact))

    Returns-reach_targets :
        (p : Progress)
        → Passing p
        → Returns (Q before locks) (reach_targets x header_from_slice inner before p)
    unfolding reach_targets
    Returns-reach_targets p b =
        Returns-if_by (over_hard inner before) _ _
          (λ over.
            Returns-capacity_items over p (sort_kept p.kept) (Small-sort limit p.kept b.small)
              (rules.second before locks p b.fact))
          (λ _. Returns-pure p (rules.second before locks p b.fact))

  -- What a prune returns is made of a progress of which the fact holds.
  pub record Passed (o : Prune) : Type 0 where
    pub before : Usage
    pub locks : ℕ
    pub progress : Progress
    pub fact : Q before locks progress
    pub made : finish_progress progress ≡ o

  Returns-prune_pass :
      (h : Handle) (locks : ℕ) (before : Usage)
      → Returns Passed (prune_pass x header_from_slice inner h locks before)
  unfolding prune_pass Small
  Returns-prune_pass h locks before = Returns-then _ _ (λ now. Returns-then _ _ (λ names.
      Returns-bind _ _
        (Returns-prune_items before locks now _ names
          (record { fact = rules.start before locks; small = tt }))
        (λ p b. Returns-bind _ _ (Returns-reach_targets before locks p b) (λ q fact.
          Returns-then _ _ (λ _. Returns-then _ _ (λ _. Returns-pure _ (record {
            before = before;
            locks = locks;
            progress = q;
            fact = fact;
            made = refl;
          })))))))

  pub Returns-prune : (wait : Wait) → Returns Passed (prune x header_from_slice inner wait)
  unfolding prune
  Returns-prune wait = Returns-then _ _ (λ _. Returns-then _ _ (λ m. Returns-then _ _ (λ p.
      Returns-then _ _ (λ _. Returns-then _ _ (λ _.
        Returns-then _ _
          (λ locks. Returns-then _ _ (λ before. Returns-prune_pass p locks before)))))))
