-- ===== src/Cache/Prune/RemovedPasses.antt =====
-- Both passes of `prune` of crates/unixd-cache/src/cache.rs: what they count as removed is gone from disk.
use unixd.Prelude.{
  ℕ, ◌+◌, ◌≡◌, refl, sym, ap, subst, ◌∙◌, true, not, List, [], ◌∷◌, Option, none, some, ok, Bytes,
  list_eq, nat_eq, ==_refl, arith,
}
use mathlib.Core.Option
use unixd.Cache.Error.{Error}
use unixd.Cache.Os.{FilePath, Node, World, M, ◌>>=◌, pure, join}
use unixd.Cache.Fs.{External, at_path}
use unixd.Cache.Effects.{Does}
use unixd.Cache.Footprint.{node_data}
use unixd.Cache.ExternalLaws.{OpenLaws}
use unixd.Cache.Runs.{Runs, Runs-pure, Runs-bind, Runs-if, Runs-weaken, Runs-with_held}
use unixd.Cache.Private.{Held, with_held, remove, drop_held}
use unixd.Cache.Private.FileFootprint.{Does-try_lock_exclusive}
use unixd.Cache.Private.Footprint.{Does-drop_held}
use unixd.Cache.Read.Untouched.{Frame-Tolerates}
use unixd.Cache.Entry.{
  Inner, Header, Usage, entries_dir, entry_path, lock_path, entry_digest, temporary_digest,
  is_temporary,
}
use unixd.Cache.Paths.{entry_digest-some}
use unixd.Cache.Prune.{Progress, Kept, try_key, live, sort_kept}
use unixd.Cache.Prune.Spares.{all_but}
use unixd.Cache.Prune.SparedEntries.{lock_changes}
use unixd.Cache.Prune.PassFootprint.{Does-live}
use unixd.Cache.Prune.HeldKeys.{try_lock_free}
use unixd.Cache.Prune.Entries.{
  remove_temporary, temporary_locked, prune_temporary, is_expired, prune_metadata, prune_locked,
  prune_entry, prune_item, prune_items, count_expired, count_unused, count_capacity,
}
use unixd.Cache.Prune.Targets.{capacity_metadata, capacity_locked, capacity_item, capacity_items}
use unixd.Cache.Prune.Run.{over_hard, reach_targets}
use unixd.Cache.Prune.Removed.{
  Stays-Tolerates, Does-Fewer, Fewer, Told, Told-Fewer, There, data_in-none, removed_entries,
  Runs-Told, Runs-remove_entry, Runs-remove,
}
use unixd.Cache.Prune.RemovedFiles.{Runs-regular, Looked}

module _ (x : External) (laws : OpenLaws x) (header_from_slice : Bytes → Option Header)
    (inner : Inner) (u : World) where
  abbrev pub State : Progress → World → Type 0
  State p v = Told inner u (removed_entries p.outcome) v

  Does-drop :
      (d : Bytes) (held : Held)
      → held.path ≡ lock_path inner d
      → Does (Fewer inner) (drop_held held)
  Does-drop d held at = Does-Fewer inner _ (λ e.
      Does-drop_held (Stays-Tolerates _) held
        (ap (all_but (entry_path inner e)) at ∙ lock_changes x laws header_from_slice inner e d))

  -- What is done under a key's lock, and the drop of its file.
  Runs-key :
      (n : ℕ) (d : Bytes) (f : Option Held → M Error Progress)
      → Runs (Told inner u n) State (f none)
      → ((held : Held)
          → held.path ≡ lock_path inner d
          → Runs (Told inner u n) State (f (some held)))
      → Runs (Told inner u n) State (try_key x header_from_slice inner d >>= f)
  unfolding try_key
  Runs-key n d f free locked =
      Runs-bind _ f
        {S = λ o v.
          Told inner u n v × ((held : Held) → o ≡ some held → held.path ≡ lock_path inner d)}
        (record {
          run = λ w o t e. (
            (Runs-Told inner u n _ (λ e.
                  Does-try_lock_exclusive (Stays-Tolerates _) x laws _
                    (lock_changes x laws header_from_slice inner e d))).run
                w o t e,
            λ held h. (try_lock_free x laws (lock_path inner d) w held (e ∙ ap ok h)).1,
          );
        })
        by_lock
    where
      by_lock :
          (o : Option Held)
          → Runs
              (λ v.
                Told inner u n v × ((held : Held) → o ≡ some held → held.path ≡ lock_path inner d))
              State
              (f o)
      by_lock none = Runs-weaken _ (λ w (t, _). t) free
      by_lock (some held) = record {
        run = λ w a (t, at) e. (locked held (at held refl)).run w a t e;
      }

  Runs-guarded :
      {P : World → Type 0} (d : Bytes) (held : Held) (body : M Error Progress)
      → held.path ≡ lock_path inner d
      → Runs P State body
      → Runs P State (with_held held body)
  Runs-guarded d held body at r =
      Runs-with_held held body (Does-drop d held at) (λ a w v t f. Told-Fewer inner u _ w v t f) r

  -- The removal of an entry that is there, and its count.
  Runs-count :
      (p q : Progress) (path : FilePath) (d : Bytes)
      → path ≡ entry_path inner d
      → removed_entries q.outcome ≡ removed_entries p.outcome + 1
      → Runs (λ v. State p v × There inner path v) State (remove path >>= λ _. pure q)
  Runs-count p q path d at one =
      Runs-bind _ _ (Runs-remove_entry inner u (removed_entries p.outcome) path d at)
        (λ _. Runs-pure q (λ w t. subst (λ n. Told inner u n w) (sym one) t))

  -- `live` only reads.
  Runs-live :
      (n now : ℕ) (name d : Bytes)
      → Runs
          (λ v. Told inner u n v × There inner (entry_path inner d) v)
          (λ _ v. Told inner u n v × There inner (entry_path inner d) v)
          (live x header_from_slice inner name now)
  Runs-live n now name d = record {
    run = λ w a (t, there) e. (
      (Runs-Told inner u n _
            (λ e. Does-live x laws header_from_slice inner e (Stays-Tolerates _) name now)).run
          w a t e,
      λ gone. there (data_in-none _ (sym (same w) ∙ ap (Option.map node_data) gone)),
    );
  }
    where
      same :
          (w : World)
          → Option.map node_data
              (at_path (entry_path inner d) (live x header_from_slice inner name now w).1)
            ≡ Option.map node_data (at_path (entry_path inner d) w)
      same w =
          ((Does-live x laws header_from_slice inner d
                (Frame-Tolerates (all_but (entry_path inner d))) name now).from
              w).at
            (entry_path inner d) (ap not (==_refl (entry_path inner d)))

  -- The first pass.
  module _ (now : ℕ) where
    Runs-remove_temporary :
        (path : FilePath) (p : Progress)
        → Runs (State p) State (remove_temporary x header_from_slice inner now path p)
    unfolding remove_temporary
    Runs-remove_temporary path p =
        Runs-bind _ _ (Runs-remove inner u _ path) (λ _. Runs-pure _ (λ w t. t))

    Runs-prune_temporary :
        (path : FilePath) (p : Progress) (d : Option Bytes)
        → Runs (State p) State (prune_temporary x header_from_slice inner now path p d)
    unfolding prune_temporary temporary_locked
    Runs-prune_temporary path p none = Runs-remove_temporary path p
    Runs-prune_temporary path p (some d) =
        Runs-key _ d _ (Runs-pure p (λ w t. t))
          (λ held at. Runs-guarded d held _ at (Runs-remove_temporary path p))

    Runs-prune_metadata :
        (name d : Bytes) (p : Progress) (o : Option Node)
        → join (entries_dir inner) name ≡ entry_path inner d
        → Runs
            (Looked inner u (removed_entries p.outcome) (entry_path inner d) o)
            State
            (prune_metadata x header_from_slice inner now name d p o)
    unfolding prune_metadata is_expired Looked
    Runs-prune_metadata name d p none at = Runs-pure p (λ w t. t)
    Runs-prune_metadata name d p (some m) at =
        Runs-bind _ _ {S = λ _ v. State p v × There inner (entry_path inner d) v}
          (Runs-if _ _ _ (Runs-pure true (λ w t. t))
            (Runs-bind _ _ (Runs-live _ now name d) (λ alive. Runs-pure _ (λ w t. t))))
          (λ expired. Runs-if expired _ _ (removal (count_expired p _) (omega arith)) (
            Runs-if _ _ _ (removal (count_unused p _) (omega arith)) (Runs-pure _ (λ w (t, _). t))))
      where
        removal :
            (q : Progress)
            → removed_entries q.outcome ≡ removed_entries p.outcome + 1
            → Runs
                (λ v. State p v × There inner (entry_path inner d) v)
                State
                (remove (join (entries_dir inner) name) >>= λ _. pure q)
        removal q one =
            subst
              (λ path.
                Runs (λ v. State p v × There inner (entry_path inner d) v) State
                  (remove path >>= λ _. pure q))
              (sym at) (Runs-count p q (entry_path inner d) d refl one)

    Runs-prune_entry :
        (name : Bytes) (p : Progress) (d : Option Bytes)
        → entry_digest name ≡ d
        → Runs (State p) State (prune_entry x header_from_slice inner now name p d)
    unfolding prune_entry prune_locked entry_path
    Runs-prune_entry name p none e = Runs-pure p (λ w t. t)
    Runs-prune_entry name p (some d) e = Runs-key _ d _ (Runs-pure p (λ w t. t)) (λ held at.
        Runs-guarded d held _ at (
          Runs-bind _ _ (Runs-regular inner u _ (join (entries_dir inner) name)) (λ o.
            subst
              (λ path.
                Runs (Looked inner u (removed_entries p.outcome) path o) State
                  (prune_metadata x header_from_slice inner now name d p o))
              (sym there) (Runs-prune_metadata name d p o there))))
      where
        there : join (entries_dir inner) name ≡ entry_path inner d
        there = ap (join (entries_dir inner)) (entry_digest-some name d e)

    pub Runs-prune_items :
        (p : Progress) (names : List Bytes)
        → Runs (State p) State (prune_items x header_from_slice inner now p names)
    unfolding prune_items prune_item
    Runs-prune_items p [] = Runs-pure p (λ w t. t)
    Runs-prune_items p (name ∷ names) =
        Runs-bind _ _
          (Runs-if (is_temporary name) _ _ (Runs-prune_temporary _ p (temporary_digest name))
            (Runs-prune_entry name p (entry_digest name) refl))
          (λ q. Runs-prune_items q names)

  -- The second pass.
  Runs-capacity_metadata :
      (d : Bytes) (used size : ℕ) (p : Progress) (o : Option Node)
      → Runs
          (Looked inner u (removed_entries p.outcome) (entry_path inner d) o)
          State
          (capacity_metadata x header_from_slice inner (entry_path inner d) used size p o)
  unfolding capacity_metadata Looked
  Runs-capacity_metadata d used size p none = Runs-pure p (λ w t. t)
  Runs-capacity_metadata d used size p (some m) =
      Runs-if _ _ _ (Runs-pure p (λ w (t, _). t))
        (Runs-count p (count_capacity p size) (entry_path inner d) d refl (omega arith))

  Runs-capacity_item :
      (k : Kept) (p : Progress) → Runs (State p) State (capacity_item x header_from_slice inner k p)
  unfolding capacity_item capacity_locked
  Runs-capacity_item (used, d, size) p = Runs-key _ d _ (Runs-pure p (λ w t. t)) (λ held at.
      Runs-guarded d held _ at (
        Runs-bind _ _ (Runs-regular inner u _ (entry_path inner d))
          (Runs-capacity_metadata d used size p)))

  Runs-capacity_items :
      (te tb : ℕ) (p : Progress) (kept : List Kept)
      → Runs (State p) State (capacity_items x header_from_slice inner te tb p kept)
  unfolding capacity_items
  Runs-capacity_items te tb p [] = Runs-pure p (λ w t. t)
  Runs-capacity_items te tb p (k ∷ kept) =
      Runs-if _ _ _ (Runs-pure p (λ w t. t))
        (Runs-bind _ _ (Runs-capacity_item k p) (λ q. Runs-capacity_items te tb q kept))

  pub Runs-reach_targets :
      (before : Usage) (p : Progress)
      → Runs (State p) State (reach_targets x header_from_slice inner before p)
  unfolding reach_targets
  Runs-reach_targets before p =
      Runs-if (over_hard inner before) _ _ (Runs-capacity_items _ _ p (sort_kept p.kept))
        (Runs-pure p (λ w t. t))
