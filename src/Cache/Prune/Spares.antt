-- ===== src/Cache/Prune/Spares.antt =====
-- What it is to leave the entry of a key alone while someone else holds the key's lock, for `prune` of
-- crates/unixd-cache/src/cache.rs, and the search for a header in these terms.
use unixd.Prelude.{
  ℕ, ◌≡◌, refl, sym, ap, ◌∙◌, Bool, true, false, not, List, [], ◌∷◌, ◌++◌, Option, none, some,
  Bytes, list_eq, nat_eq, ◌==◌, ==_iff, true≢false, Bool-cases, inl, inr,
}
use unixd.Cache.Error.{Error}
use unixd.Cache.Os.{FilePath, World, M}
use unixd.Cache.Fs.{is_held, is_below}
use unixd.Cache.Effects.{Does, Does-pure, Does-bind}
use unixd.Cache.Footprint.{Tolerates, data_in, Does-syscall}
use unixd.Cache.Entry.Scan.{fill_buf, scan, scanned, scan_chunk}

-- While another holds the lock file `k`, it still does, and the node at `e` is as it was.
pub record Spares (k e : FilePath) (w v : World) : Type 0 where
  pub spares :
      is_held k w.held ≡ true → (is_held k v.held ≡ true) × (data_in e v.nodes ≡ data_in e w.nodes)

abbrev pub all_but : FilePath → FilePath → Bool
all_but e q = not (q == e)

-- A path below which the entry does not lie.
pub below_changes :
    (e p : FilePath)
    → is_below p e ≡ false
    → (q : FilePath) → is_below p q ≡ true
    → all_but e q ≡ true
below_changes e p out q b = elim (Bool-cases (q == e)) [
  | inl same ↦ absurd (true≢false (sym b ∙ ap (is_below p) ((==_iff q e).0 same) ∙ out))
  | inr apart ↦ ap not apart
]

not-true : (b : Bool) → not b ≡ false → b ≡ true
not-true true h = refl
not-true false h = cc

pub Spares-Tolerates : (k e : FilePath) → Tolerates (Spares k e) (all_but e)
Spares-Tolerates k e = record {
  effect = record {
    same = λ w. record { spares = λ h. (h, refl) };
    chain = λ u v w f g. record {
      spares = λ h. let (h', p) = f.spares h in let (h'', q) = g.spares h' in (h'', q ∙ p);
    };
  };
  faults = λ w fs rest. record { spares = λ h. (h, refl) };
  nodes = λ w n i agree. record { spares = λ h. (h, agree e (ap not ((==_iff e e).1 refl))) };
}

-- Where nobody holds the lock there is nothing to spare.
pub Spares-free : (k e : FilePath) (w v : World) → is_held k w.held ≡ false → Spares k e w v
Spares-free k e w v free = record { spares = λ h. absurd (true≢false (sym h ∙ free)) }

module _ {R : World → World → Type 0} {changes : FilePath → Bool} (t : Tolerates R changes) where
  Does-fill_buf : (chunk : Bytes) → Does R (fill_buf chunk)
  unfolding fill_buf
  Does-fill_buf chunk = record { from = λ w. (Does-syscall t _ (Does-pure t.effect chunk)).from w }

  pub Does-scan : (seen : Bytes) (chunks : List Bytes) → Does R (scan seen chunks)
  unfolding scan
  Does-scan seen [] = Does-bind t.effect _ _ (Does-fill_buf []) (λ _. Does-pure t.effect none)
  Does-scan seen (chunk ∷ chunks) =
      Does-bind t.effect _ _ (Does-fill_buf chunk) (round (Does-scan (seen ++ chunk) chunks))
    where
      cut :
          (all : Bytes) (start : ℕ) (rest : M Error (Option Bytes)) (o : Option ℕ)
          → Does R rest
          → Does R (scanned all start rest o)
      cut all start rest none d = d
      cut all start rest (some end) d = Does-pure t.effect _

      round :
          {rest : M Error (Option Bytes)}
          → Does R rest
          → (o : Option Bytes) → Does R (scan_chunk seen rest o)
      round d none = Does-pure t.effect none
      round d (some c) = cut _ _ _ _ d
