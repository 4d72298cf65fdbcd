-- ===== src/Cache/Prune/RemovedFiles.antt =====
-- What `regular` of crates/unixd-cache/src/private.rs finds at an entry's path, for `prune` of
-- crates/unixd-cache/src/cache.rs.
use unixd.Prelude.{
  ℕ, ◌≡◌, ◌≢◌, refl, sym, ap, subst, ◌∙◌, List, Option, none, some, Result, ok, err, list_eq,
  nat_eq,
}
use unixd.Cache.Error.{Error, ErrorKind, not_found, already_exists, other}
use unixd.Cache.Os.{FilePath, Node, World, is_file}
use unixd.Cache.Fs.{at_path, found, symlink_metadata}
use unixd.Cache.Runs.{Runs, Runs-pure, Runs-bind, Runs-if, Runs-weaken}
use unixd.Cache.Private.{remove, regular, regular_at}
use unixd.Cache.Private.Honest.{Honest, Ran, runs, fails, Ran-cases, found_world}
use unixd.Cache.Store.Filling.{never, attempt_bind}
use unixd.Cache.Entry.{Inner}
use unixd.Cache.Prune.Removed.{Told, Told-Fewer, There, Runs-remove}

module _ (inner : Inner) (u : World) (n : ℕ) where
  -- What `regular` returns is there.
  unfoldable pub Looked : FilePath → Option Node → World → Type 0
  Looked p none v = Told inner u n v
  Looked p (some _) v = Told inner u n v × There inner p v

  Told-faults :
      (w : World) (fs : List (Option ErrorKind))
      → Honest fs
      → Told inner u n w
      → Told inner u n (record w { faults = fs })
  Told-faults w fs h t = Told-Fewer inner u n w _ t (record { honest = λ _. h; absent = λ d a. a })

  Runs-regular_at :
      (p : FilePath) (node : Option Node)
      → Runs
          (λ v. Told inner u n v × (at_path p v ≡ node))
          (Looked p)
          (λ w. regular_at p (remove p) (found node w).0 w)
  unfolding regular_at Looked
  Runs-regular_at p none = record { run = λ w o (t, absent) e. looked_absent w o t e }
    where
      looked_absent :
          (w : World) (o : Option Node)
          → Told inner u n w
          → ◌≡◌ {A = Result Error (Option Node)} (ok none) (ok o)
          → Looked p o w
      looked_absent w none t e = t
      looked_absent w (some node) t e = cc
  Runs-regular_at p (some node) =
      Runs-if (is_file node.file_type) _ _
        (Runs-pure (some node)
          (λ w (t, there). (t, λ absent. some-ne-none node (sym there ∙ absent))))
        (Runs-weaken _ (λ w (t, there). t)
          (Runs-bind (remove p) _ (Runs-remove inner u n p) (λ _. Runs-pure none (λ w t. t))))
    where
      some-ne-none : (node : Node) → some node ≡ none → ⊥
      some-ne-none node e = cc

  regular_at-failed :
      (p : FilePath) (k : ErrorKind) (o : Option Node) (v : World)
      → k ≢ not_found
      → (regular_at p (remove p) (err k) v).0 ≡ ok o
      → ⊥
  unfolding regular_at
  regular_at-failed p not_found o v named e = named refl
  regular_at-failed p already_exists o v named e = never _ o e
  regular_at-failed p (other k) o v named e = never _ o e

  pub Runs-regular : (p : FilePath) → Runs (Told inner u n) (Looked p) (regular p)
  unfolding regular symlink_metadata
  Runs-regular p = record {
    run = λ w o t e. by_case w o t e (Ran-cases (λ w. found (at_path p w) w) w t.honest);
  }
    where
      after :
          (w v : World) (r : Result ErrorKind Node)
          → symlink_metadata p w ≡ (r, v)
          → regular p w ≡ regular_at p (remove p) r v
      after w v r same =
          attempt_bind (symlink_metadata p) (regular_at p (remove p)) w
          ∙ ap (λ (out : Result ErrorKind Node × World). regular_at p (remove p) out.0 out.1) same

      by_case :
          (w : World) (o : Option Node)
          → Told inner u n w
          → (regular p w).0 ≡ ok o
          → Ran (λ w. found (at_path p w) w) w
          → Looked p o (regular p w).1
      by_case w o t e (runs fs hf ran) =
          let v : World = record w { faults = fs } in
          let whole = after w v _ (ran ∙ found_world p (at_path p w) v) in
          subst (λ (out : Result Error (Option Node) × World). Looked p o out.1) (sym whole)
            ((Runs-regular_at p (at_path p w)).run v o (Told-faults w fs hf t, refl)
              (ap (λ (out : Result Error (Option Node) × World). out.0) (sym whole) ∙ e))
      by_case w o t e (fails k fs cause hf failed) =
          let v : World = record w { faults = fs } in
          absurd (
            regular_at-failed p k o v cause (
              ap (λ (out : Result Error (Option Node) × World). out.0)
                (sym (after w v (err k) failed))
              ∙ e))
