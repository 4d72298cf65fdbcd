-- ===== src/Cache/Read/Untouched.antt =====
-- What an unlocked lookup of crates/unixd-cache/src/cache.rs leaves of the files.
use unixd.Prelude.{
  ℕ, ◌≡◌, refl, Bool, false, Option, none, some, Bytes, list_eq, nat_eq, ◌==◌, ==_refl, ◌∙◌,
}
use unixd.Cache.Error.{Error}
use unixd.Cache.Key.{Key}
use unixd.Cache.Os.{FilePath, Node, World, now_ms}
use unixd.Cache.Fs.{External}
use unixd.Cache.Effects.{Does, Does-pure, Does-bind, effect_rules}
use unixd.Cache.Footprint.{Tolerates, data_in, Does-now_ms}
use unixd.Cache.ExternalLaws.{OpenLaws, only}
use unixd.Cache.Private.Footprint.{Does-ensure_dir}
use unixd.Cache.Private.FileFootprint.{Does-read, Does-touch}
use unixd.Cache.Entry.{Inner, Header, Serde, entries_dir}
use unixd.Cache.Read.{discard, touch_used, read_value, read_entry, read_found, cache_lookup}

-- Outside the footprint, every node keeps its file type, owner, identity and content.
pub record Frame (changes : FilePath → Bool) (w v : World) : Type 0 where
  pub at : (q : FilePath) → changes q ≡ false → data_in q v.nodes ≡ data_in q w.nodes

pub Frame-Tolerates : (changes : FilePath → Bool) → Tolerates (Frame changes) changes
Frame-Tolerates changes = record {
  effect = record {
    same = λ w. record { at = λ q out. refl };
    chain = λ u v w f g. record { at = λ q out. g.at q out ∙ f.at q out };
  };
  faults = λ w fs rest. record { at = λ q out. refl };
  nodes = λ w n i agree. record { at = agree };
}

module _ {T : Type 0} (x : External) (laws : OpenLaws x) (serde : Serde T) (inner : Inner)
    (key : Key) where
  abbrev changes : FilePath → Bool
  changes = only (entries_dir inner)

  tolerates : Tolerates (Frame changes) changes
  tolerates = Frame-Tolerates changes

  read_clock : Does {E = Error} (Frame changes) now_ms
  read_clock = Does-now_ms (λ w c. record { at = λ q out. refl })

  discard_unlocked : (p : FilePath) → Does (Frame changes) (discard {T = T} p false)
  unfolding discard
  discard_unlocked p = Does-pure tolerates.effect _

  Does-touch_used :
      (p : FilePath) (node : Node) (now : ℕ)
      → Does (Frame changes) (touch_used x serde inner key false p node now)
  unfolding touch_used
  Does-touch_used p node now = search (effect_rules, tolerates.effect, Does-touch tolerates x laws)

  Does-read_entry :
      (p : FilePath) (b : Bytes) (node : Node) (h : Option Header)
      → Does (Frame changes) (read_entry x serde inner key false p b node h)
  unfolding read_entry
  Does-read_entry p b node none = discard_unlocked p
  Does-read_entry p b node (some h) =
      search (effect_rules, tolerates.effect, discard_unlocked, read_clock, value) depth 9
    where
      value :
          (now : ℕ) (v : Option T)
          → Does (Frame changes) (read_value x serde inner key false p node h now v)
      value now none = discard_unlocked p
      value now (some v) = search (effect_rules, tolerates.effect, Does-touch_used)

  Does-read_found :
      (p : FilePath) (r : Option (Bytes × Node))
      → Does (Frame changes) (read_found x serde inner key false p r)
  unfolding read_found
  Does-read_found p none = discard_unlocked p
  Does-read_found p (some (b, node)) = Does-read_entry p b node _

  Does-cache_lookup : Does (Frame changes) (cache_lookup x serde inner key)
  unfolding cache_lookup
  Does-cache_lookup =
      Does-bind tolerates.effect _ _ (Does-ensure_dir tolerates _ (==_refl (entries_dir inner)))
        (λ _. Does-bind tolerates.effect _ _ (Does-read tolerates x laws _ _) (Does-read_found _))

  -- Whatever is stored and whichever calls fail, `Cache::lookup` removes, replaces and rewrites no
  -- file: every path but the entries directory itself keeps its file type, owner, inode and content
  -- (a mode and a modification time may change).
  pub cache_lookup_keeps :
      (w : World) (q : FilePath)
      → (q == entries_dir inner) ≡ false
      → data_in q (cache_lookup x serde inner key w).1.nodes ≡ data_in q w.nodes
  cache_lookup_keeps w q out = (Does-cache_lookup.from w).at q out
