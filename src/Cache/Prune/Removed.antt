-- ===== src/Cache/Prune/Removed.antt =====
-- The entries that are on disk before a part of `prune` of crates/unixd-cache/src/cache.rs and not after it.
use mathlib.Core.Option
use unixd.Prelude.{
  ℕ, ◌+◌, ◌≡◌, ◌≢◌, refl, sym, ap, subst, ◌∙◌, Bool, false, not, ◌||◌, List, [], ◌∷◌, Option, none,
  some, Bytes, list_eq, nat_eq, ◌==◌, ==_iff, ==_refl, arith, length, Bool-cases, inl, inr, lookup,
}
use unixd.Cache.Os.{FilePath, Node, World, M}
use unixd.Cache.Fs.{at_path}
use unixd.Cache.Effects.{Does}
use unixd.Cache.Footprint.{Tolerates, node_data}
use unixd.Cache.Runs.{Runs, Runs-Does}
use unixd.Cache.Private.{remove}
use unixd.Cache.Private.Honest.{Honest, HonestAfter-Tolerates, Gone, remove-Gone}
use unixd.Cache.Entry.{Inner, entry_path}
use unixd.Cache.Prune.{Prune}
use unixd.Cache.Prune.Spares.{all_but}

-- What is absent at the path stays so, and faults stay honest.
pub record Stays (e : FilePath) (w v : World) : Type 0 where
  pub honest : Honest w.faults → Honest v.faults
  pub absent : at_path e w ≡ none → at_path e v ≡ none

pub data_in-none : (o : Option Node) → Option.map node_data o ≡ none → o ≡ none
data_in-none none e = refl
data_in-none (some n) e = cc

pub Stays-Tolerates : (e : FilePath) → Tolerates (Stays e) (all_but e)
Stays-Tolerates e = record {
  effect = record {
    same = λ w. record { honest = λ h. h; absent = λ a. a };
    chain = λ u v w f g. record {
      honest = λ h. g.honest (f.honest h);
      absent = λ a. g.absent (f.absent a);
    };
  };
  faults = λ w fs rest. record {
    honest = (HonestAfter-Tolerates.faults w fs rest).kept;
    absent = λ a. a;
  };
  nodes = λ w n i agree. record {
    honest = λ h. h;
    absent =
        λ a. data_in-none (lookup e n) (agree e (ap not (==_refl e)) ∙ ap (Option.map node_data) a);
  };
}

-- The entries that a prune counts as removed.
abbrev pub removed_entries : Prune → ℕ
removed_entries o = (o.expired_removed + o.unused_removed) + o.capacity_removed

unfoldable pub contains : Bytes → List Bytes → Bool
contains d [] = false
contains d (e ∷ ds) = d == e || contains d ds

module _ (inner : Inner) where
  -- No entry comes.
  pub record Fewer (w v : World) : Type 0 where
    pub honest : Honest w.faults → Honest v.faults
    pub absent :
        (d : Bytes) → at_path (entry_path inner d) w ≡ none → at_path (entry_path inner d) v ≡ none

  pub Does-Fewer :
      {E A : Type 0} (m : M E A)
      → ((d : Bytes) → Does (Stays (entry_path inner d)) m)
      → Does Fewer m
  Does-Fewer m each = record {
    from =
        λ w. record { honest = ((each []).from w).honest; absent = λ d. ((each d).from w).absent };
  }

  -- Entries of distinct digests, each of which is there before and not after.
  unfoldable pub Emptied : World → World → List Bytes → Type 0
  unfolding contains
  Emptied w v [] = Unit {0}
  Emptied w v (d ∷ ds) =
      (at_path (entry_path inner d) w ≢ none)
      × (at_path (entry_path inner d) v ≡ none)
      × (contains d ds ≡ false)
      × Emptied w v ds

  Emptied-absent :
      (u w v : World) (ds : List Bytes)
      → ((d : Bytes)
          → at_path (entry_path inner d) w ≡ none
          → at_path (entry_path inner d) v ≡ none)
      → Emptied u w ds
      → Emptied u v ds
  unfolding Emptied
  Emptied-absent u w v [] stays e = tt
  Emptied-absent u w v (d ∷ ds) stays (was, gone, apart, rest) =
      (was, stays d gone, apart, Emptied-absent u w v ds stays rest)

  -- An entry that is there is none of those that are gone.
  there-fresh :
      (u v : World) (d : Bytes) (ds : List Bytes)
      → Emptied u v ds
      → at_path (entry_path inner d) v ≢ none
      → contains d ds ≡ false
  unfolding Emptied contains
  there-fresh u v d [] e there = refl
  there-fresh u v d (c ∷ ds) (was, gone, apart, rest) there = elim (Bool-cases (d == c)) [
    | inl same ↦ absurd (
        there (subst (λ c. at_path (entry_path inner c) v ≡ none) (sym ((==_iff d c).0 same)) gone))
    | inr differ ↦ rw (differ, there-fresh u v d ds rest there) refl
  ]

  -- From the world `u` on `n` entries have gone, which are told by their distinct digests, and none has come.
  pub record Told (u : World) (n : ℕ) (v : World) : Type 0 where
    pub honest : Honest v.faults
    pub absent :
        (d : Bytes) → at_path (entry_path inner d) u ≡ none → at_path (entry_path inner d) v ≡ none
    pub digests : List Bytes
    pub count : length digests ≡ n
    pub emptied : Emptied u v digests

  pub Told-start : (u : World) → Honest u.faults → Told u 0 u
  unfolding Emptied
  Told-start u h = record {
    honest = h;
    absent = λ d a. a;
    digests = [];
    count = refl;
    emptied = tt;
  }

  pub Told-Fewer : (u : World) (n : ℕ) (w v : World) → Told u n w → Fewer w v → Told u n v
  Told-Fewer u n w v t f = record {
    honest = f.honest t.honest;
    absent = λ d a. f.absent d (t.absent d a);
    digests = t.digests;
    count = t.count;
    emptied = Emptied-absent u w v t.digests f.absent t.emptied;
  }

  -- The path has something.
  abbrev pub There : FilePath → World → Type 0
  There p v = at_path p v ≢ none

  Told-removed :
      (u : World) (n : ℕ) (w v : World) (d : Bytes)
      → Told u n w
      → There (entry_path inner d) w
      → Gone (entry_path inner d) w v
      → Told u (n + 1) v
  unfolding Emptied
  Told-removed u n w v d t there g = record {
    honest = g.honest;
    absent = λ c a. g.fewer _ (t.absent c a);
    digests = d ∷ t.digests;
    count = omega (arith, t.count);
    emptied = (
      λ never_there. there (t.absent d never_there),
      g.gone,
      there-fresh u w d t.digests t.emptied there,
      Emptied-absent u w v t.digests (λ c. g.fewer _) t.emptied,
    );
  }

  module _ (u : World) (n : ℕ) where
    pub Runs-Told :
        {E A : Type 0} (m : M E A)
        → ((d : Bytes) → Does (Stays (entry_path inner d)) m)
        → Runs (Told u n) (λ _. Told u n) m
    Runs-Told m each = Runs-Does m (Does-Fewer m each) (λ a w v t f. Told-Fewer u n w v t f)

    pub Runs-remove_entry :
        (p : FilePath) (d : Bytes)
        → p ≡ entry_path inner d
        → Runs (λ v. Told u n v × There p v) (λ _ v. Told u (n + 1) v) (remove p)
    Runs-remove_entry p d at =
        subst (λ p. Runs (λ v. Told u n v × There p v) (λ _ v. Told u (n + 1) v) (remove p))
          (sym at)
          (record {
            run = λ w a (t, there) e.
                Told-removed u n w _ d t there (remove-Gone (entry_path inner d) w t.honest e);
          })

    pub Runs-remove : (p : FilePath) → Runs (Told u n) (λ _. Told u n) (remove p)
    Runs-remove p = record {
      run = λ w a t e.
          let g = remove-Gone p w t.honest e in
          Told-Fewer u n w _ t (record { honest = λ _. g.honest; absent = λ d. g.fewer _ });
    }
