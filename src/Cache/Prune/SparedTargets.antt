-- ===== src/Cache/Prune/SparedTargets.antt =====
-- The pass of `prune` of crates/unixd-cache/src/cache.rs that reaches the targets, its usage, and the
-- keys that are held.
use mathlib.Core.List.{append_cancel_right}
use unixd.Prelude.{
  ℕ, ◌≡◌, ◌≢◌, Bool, true, false, List, [], ◌∷◌, ◌++◌, Option, none, some, Result, ok, err, Bytes,
  ascii, list_eq, nat_eq, inl, inr, Bool-cases,
}
use unixd.Cache.Error.{ErrorKind, not_found, already_exists, other}
use unixd.Cache.Os.{FilePath, Node, World, join}
use unixd.Cache.Fs.{External, is_below}
use unixd.Cache.Effects.{Does, Does-pure, Does-fail, Does-bind, Does-if, Does-attempt, Does-lift_io}
use unixd.Cache.Footprint.{Tolerates, Does-read_dir, Does-symlink_metadata}
use unixd.Cache.ExternalLaws.{OpenLaws}
use unixd.Cache.Private.Footprint.{Does-remove, Does-regular, Does-ensure_dir}
use unixd.Cache.Entry.{Inner, Header, Usage, entries_dir, entry_path, lock_path}
use unixd.Cache.Paths.{in_entries_inj, in_entries_below}
use unixd.Cache.Prune.{Progress, Kept}
use unixd.Cache.Prune.Spares.{Spares, all_but, below_changes}
use unixd.Cache.Prune.SparedEntries.{t, with_key, Does-held}
use unixd.Cache.Prune.{count_items, count_item, count_node, usage, sort_kept}
use unixd.Cache.Prune.Targets.{capacity_metadata, capacity_locked, capacity_item, capacity_items}
use unixd.Cache.Prune.Run.{reach_targets}

module _ {R : World → World → Type 0} {changes : FilePath → Bool} (t : Tolerates R changes) where
  Does-count_node : (u : Usage) (r : Result ErrorKind Node) → Does R (count_node u r)
  unfolding count_node
  Does-count_node u (ok node) = Does-pure t.effect _
  Does-count_node u (err not_found) = Does-pure t.effect _
  Does-count_node u (err already_exists) = Does-fail t.effect _
  Does-count_node u (err (other k)) = Does-fail t.effect _

  Does-count_item : (p : FilePath) (u : Usage) (d : Option Bytes) → Does R (count_item p u d)
  unfolding count_item
  Does-count_item p u none = Does-pure t.effect u
  Does-count_item p u (some d) =
      Does-bind t.effect _ _ (Does-attempt _ (Does-symlink_metadata t p)) (Does-count_node u)

  Does-count_items :
      (dir : FilePath) (u : Usage) (names : List Bytes) → Does R (count_items dir u names)
  unfolding count_items
  Does-count_items dir u [] = Does-pure t.effect u
  Does-count_items dir u (name ∷ names) =
      Does-bind t.effect _ _ (Does-count_item _ u _) (λ v. Does-count_items dir v names)

  pub Does-usage : (inner : Inner) → changes (entries_dir inner) ≡ true → Does R (usage inner)
  unfolding usage
  Does-usage inner at = Does-bind t.effect _ _ (Does-ensure_dir t _ at) (λ _.
      Does-bind t.effect _ _ (Does-lift_io _ (Does-read_dir t _))
        (λ names. Does-count_items _ _ names))

module _ (x : External) (laws : OpenLaws x) (header_from_slice : Bytes → Option Header)
    (inner : Inner) (digest : Bytes) where
  abbrev pub Spared : World → World → Type 0
  Spared = Spares (lock_path inner digest) (entry_path inner digest)

  abbrev pub tol : Tolerates Spared (all_but (entry_path inner digest))
  tol = t x laws header_from_slice inner digest

  apart_below :
      (d : Bytes) → d ≢ digest → is_below (entry_path inner d) (entry_path inner digest) ≡ false
  unfolding entry_path
  apart_below d ne =
      elim (Bool-cases (
        is_below (join (entries_dir inner) (d ++ ascii ".json"))
          (join (entries_dir inner) (digest ++ ascii ".json")))) [
            | inl b ↦ absurd (
                ne (
                  append_cancel_right d digest (ascii ".json")
                    (in_entries_inj inner _ digest (in_entries_below inner _ digest b))))
            | inr b ↦ b
          ]

  Does-capacity_item :
      (k : Kept) (p : Progress) → Does Spared (capacity_item x header_from_slice inner k p)
  unfolding capacity_item capacity_locked
  Does-capacity_item (used, d, size) p =
      with_key x laws header_from_slice inner digest d _ (Does-pure tol.effect p) (λ held at ne.
        Does-held x laws header_from_slice inner digest d held _ at
          (Does-bind tol.effect _ _ (Does-regular tol _ (below ne)) (examined ne)))
    where
      below :
          d ≢ digest
          → (q : FilePath) → is_below (entry_path inner d) q ≡ true
          → all_but (entry_path inner digest) q ≡ true
      below ne = below_changes (entry_path inner digest) _ (apart_below d ne)

      examined :
          d ≢ digest
          → (o : Option Node)
          → Does Spared
              (capacity_metadata x header_from_slice inner (entry_path inner d) used size p o)
      examined ne none = Does-pure tol.effect p
      examined ne (some m) =
          Does-if tol.effect _ _ _ (Does-pure tol.effect p)
            (Does-bind tol.effect _ _ (Does-remove tol _ (below ne)) (λ _. Does-pure tol.effect _))

  Does-capacity_items :
      (te tb : ℕ) (p : Progress) (kept : List Kept)
      → Does Spared (capacity_items x header_from_slice inner te tb p kept)
  unfolding capacity_items
  Does-capacity_items te tb p [] = Does-pure tol.effect p
  Does-capacity_items te tb p (k ∷ kept) =
      Does-if tol.effect _ _ _ (Does-pure tol.effect p)
        (Does-bind tol.effect _ _ (Does-capacity_item k p) (λ q. Does-capacity_items te tb q kept))

  pub Does-reach_targets :
      (u : Usage) (p : Progress) → Does Spared (reach_targets x header_from_slice inner u p)
  unfolding reach_targets
  Does-reach_targets u p =
      Does-if tol.effect _ _ _ (Does-capacity_items _ _ p (sort_kept p.kept))
        (Does-pure tol.effect p)
