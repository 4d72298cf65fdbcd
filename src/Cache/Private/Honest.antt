-- ===== src/Cache/Private/Honest.antt =====
-- System calls that fail with `NotFound` only for what is missing, and the `private::remove` of
-- crates/unixd-cache/src/private.rs where all calls are such.
use unixd.Prelude.{
  Option-cases, ◌≡◌, ◌≢◌, refl, sym, ap, subst, ◌∙◌, Bool, true, false, List, [], ◌∷◌, Option, none,
  some, Result, ok, err, list_eq, nat_eq, ◌==◌, ==_refl, if◌then◌else◌, inl, inr, Bool-cases, erase,
  lookup, lookup-erase,
}
use unixd.Cache.Error.{Error, ErrorKind, not_found, already_exists, other}
use unixd.Cache.Os.{FilePath, Node, World, M, is_dir, attempt, ◌>>=◌}
use unixd.Cache.Fs.{
  syscall, found, at_path, symlink_metadata, remove_file, remove_dir_all, is_below,
}
use unixd.Cache.Footprint.{Rest, untaken, taken, Tolerates}
use unixd.Cache.Private.{remove, removed, remove_found}
use unixd.Cache.Private.Footprint.{is_below_refl}
use unixd.Cache.Store.Filling.{never, attempt_bind}

-- No fault is `NotFound`: a call answers that by the nodes alone.
unfoldable pub Honest : List (Option ErrorKind) → Type 0
Honest [] = Unit {0}
Honest (fault ∷ faults) = (fault ≢ some not_found) × Honest faults

-- A call runs, or fails of another cause; both take a fault at most.
pub data Ran {A : Type 0} (call : M ErrorKind A) (w : World) : Type 0 where
  runs :
      (fs : List (Option ErrorKind))
      → Honest fs
      → syscall call w ≡ call (record w { faults = fs })
      → Ran call w
  fails :
      (k : ErrorKind) (fs : List (Option ErrorKind))
      → k ≢ not_found
      → Honest fs
      → syscall call w ≡ (err k, record w { faults = fs })
      → Ran call w

pub Ran-cases : {A : Type 0} (call : M ErrorKind A) (w : World) → Honest w.faults → Ran call w
unfolding syscall Honest
Ran-cases {A} call w h = go w.faults refl h
  where
    go : (fs : List (Option ErrorKind)) → w.faults ≡ fs → Honest fs → Ran call w
    go [] e h = runs [] h (rw e refl)
    go (none ∷ fs) e (_, h) = runs fs h (rw e refl)
    go (some k ∷ fs) e (named, h) = fails k fs (λ same. named (ap some same)) h (rw e refl)

-- The path is gone, and no other has come.
pub record Gone (p : FilePath) (w v : World) : Type 0 where
  pub honest : Honest v.faults
  pub gone : at_path p v ≡ none
  pub fewer : (q : FilePath) → at_path q w ≡ none → at_path q v ≡ none

removed_err : (k : ErrorKind) (w : World) → k ≢ not_found → (removed (err k) w).0 ≡ ok tt → ⊥
unfolding removed
removed_err not_found w h e = h refl
removed_err already_exists w h e = never _ tt e
removed_err (other n) w h e = never _ tt e

-- `take_away` is the end of `remove`, after the metadata.
abbrev take_away : M ErrorKind (Unit {0}) → M Error (Unit {0})
take_away call = attempt call >>= removed

abbrev Outcome : Type 0
Outcome = Result Error (Unit {0}) × World

taking :
    (call : M ErrorKind (Unit {0})) (w v : World) (r : Result ErrorKind (Unit {0}))
    → call w ≡ (r, v)
    → take_away call w ≡ removed r v
taking call w v r e =
    attempt_bind call removed w
    ∙ ap (λ (out : Result ErrorKind (Unit {0}) × World). removed out.0 out.1) e

result_of : (out end : Outcome) → out ≡ end → out.0 ≡ ok tt → end.0 ≡ ok tt
result_of out end same e = ap (λ (o : Outcome). o.0) (sym same) ∙ e

module _ (p : FilePath) where
  Gone-erase :
      (gone : FilePath → Bool) (fs : List (Option ErrorKind)) (w : World)
      → gone p ≡ true
      → Honest fs
      → Gone p w (record w { faults = fs; nodes = erase gone w.nodes })
  Gone-erase gone fs w own h = record {
    honest = h;
    gone = lookup-erase gone p w.nodes ∙ rw own refl;
    fewer = λ q absent. lookup-erase gone q w.nodes ∙ still (gone q) (lookup q w.nodes) absent;
  }
    where
      still : (b : Bool) (o : Option Node) → o ≡ none → (if b then none else o) ≡ none
      still true o e = refl
      still false o e = e

  -- The removal of a node that is there, by a call that erases it.
  erased :
      (call : M ErrorKind (Unit {0})) (gone : FilePath → Bool) (w : World)
      → gone p ≡ true
      → Honest w.faults
      → ((fs : List (Option ErrorKind))
          → call (record w { faults = fs })
            ≡ (ok tt, record w { faults = fs; nodes = erase gone w.nodes }))
      → (take_away (syscall call) w).0 ≡ ok tt
      → Gone p w (take_away (syscall call) w).1
  unfolding removed
  erased call gone w own h call_runs e = by_case (Ran-cases call w h)
    where
      by_case : Ran call w → Gone p w (take_away (syscall call) w).1
      by_case (runs fs hf ran) =
          subst (λ (out : Outcome). Gone p w out.1)
            (sym (taking (syscall call) w _ (ok tt) (ran ∙ call_runs fs)))
            (Gone-erase gone fs w own hf)
      by_case (fails k fs other_cause hf failed) = absurd (
          removed_err k (record w { faults = fs }) other_cause
            (result_of _ _ (taking (syscall call) w (record w { faults = fs }) (err k) failed) e))

  -- From the metadata on.
  from_found :
      (node : Option Node) (w : World)
      → at_path p w ≡ node
      → Honest w.faults
      → ((remove_found p (found node w).0 >>= removed) w).0 ≡ ok tt
      → Gone p w ((remove_found p (found node w).0 >>= removed) w).1
  unfolding ◌>>=◌ remove_file remove_dir_all remove_found removed
  from_found none w absent h e = record {
    honest = h;
    gone = absent;
    fewer = λ q none_there. none_there;
  }
  from_found (some node) w there h e = elim (Bool-cases (is_dir node.file_type)) [
    | inl dir ↦
        rw dir (erased _ (is_below p) w (is_below_refl p) h (λ fs. rw there refl) (rw dir at e))
    | inr plain ↦
        rw plain
          (erased _ (λ q. q == p) w (==_refl p) h (λ fs. rw (there, plain) refl) (rw plain at e))
  ]

  Gone-from :
      (fs : List (Option ErrorKind)) (w v : World)
      → Gone p (record w { faults = fs }) v
      → Gone p w v
  Gone-from fs w v g = record { honest = g.honest; gone = g.gone; fewer = g.fewer }

  pub found_world : (node : Option Node) (w : World) → found node w ≡ ((found node w).0, w)
  found_world none w = refl
  found_world (some node) w = refl

  abbrev rest_of_remove : Result ErrorKind Node → M Error (Unit {0})
  rest_of_remove r = remove_found p r >>= removed

  -- `remove` returns normally only when the path is gone.
  pub remove-Gone : (w : World) → Honest w.faults → (remove p w).0 ≡ ok tt → Gone p w (remove p w).1
  unfolding remove symlink_metadata ◌>>=◌
  remove-Gone w h e = by_case (Ran-cases (λ w. found (at_path p w) w) w h)
    where
      after :
          (r : Result ErrorKind Node) (v : World)
          → symlink_metadata p w ≡ (r, v)
          → remove p w ≡ rest_of_remove r v
      after r v same =
          attempt_bind (symlink_metadata p) rest_of_remove w
          ∙ ap (λ (out : Result ErrorKind Node × World). rest_of_remove out.0 out.1) same

      by_case : Ran (λ w. found (at_path p w) w) w → Gone p w (remove p w).1
      by_case (runs fs hf ran) =
          let v : World = record w { faults = fs } in
          let whole = after _ v (ran ∙ found_world (at_path p w) v) in
          subst (λ (out : Outcome). Gone p w out.1) (sym whole)
            (Gone-from fs w _ (from_found (at_path p w) v refl hf (result_of _ _ whole e)))
      by_case (fails k fs other_cause hf failed) =
          let v : World = record w { faults = fs } in
          let whole = after (err k) v failed in
          absurd (removed_err k v other_cause (result_of _ _ whole e))

-- Where no call fails, a removal succeeds.
pub remove_quiet : (p : FilePath) (w : World) → w.faults ≡ [] → (remove p w).0 ≡ ok tt
unfolding remove removed remove_found symlink_metadata remove_file remove_dir_all syscall attempt
    ◌>>=◌
remove_quiet p w quiet =
    subst (λ v. (remove p v).0 ≡ ok tt) (sym (ap (λ fs. record w { faults = fs }) quiet))
      (elim (Option-cases (at_path p w)) [
        | inl absent ↦ rw absent refl
        | inr (node, there) ↦ elim (Bool-cases (is_dir node.file_type)) [
          | inl dir ↦ rw (there, dir) (rw (there) refl)
          | inr plain ↦ rw (there, plain) (rw (there, plain) refl)
        ]
      ])

pub record HonestAfter (w v : World) : Type 0 where
  pub kept : Honest w.faults → Honest v.faults

Honest-Rest : (fs gs : List (Option ErrorKind)) → Rest fs gs → Honest fs → Honest gs
unfolding Honest
Honest-Rest fs gs (untaken e) h = subst Honest e h
Honest-Rest fs gs (taken {fault} rest) h = (Honest-Rest fs (fault ∷ gs) rest h).1

pub HonestAfter-Tolerates : Tolerates HonestAfter (λ q. true)
HonestAfter-Tolerates = record {
  effect = record {
    same = λ w. record { kept = λ h. h };
    chain = λ u v w f g. record { kept = λ h. g.kept (f.kept h) };
  };
  faults = λ w fs rest. record { kept = Honest-Rest w.faults fs rest };
  nodes = λ w n i agree. record { kept = λ h. h };
}
