-- ===== src/Cache/Manage/Cleared.antt =====
-- What `Cache::clear` of crates/unixd-cache/src/cache.rs leaves in the two directories.
use mathlib.Core.List.{Memᴰ}
use mathlib.Core.List.Memᴰ.{head, tail}
use unixd.Cache.Footprint.{Does-read_dir, Does-syscall}
use unixd.Cache.Read.Untouched.{Frame-Tolerates}
use unixd.Prelude.{
  length, ◌≡◌, refl, sym, ap, subst, ◌∙◌, false, List, [], ◌∷◌, Option, none, some, Result, ok,
  Bytes, list_eq, nat_eq, ◌==◌, ==_refl, inl, inr, ◌⊎◌, arith,
}
use unixd.Cache.Error.{Error, lock}
use unixd.Cache.Os.{FilePath, Node, World, join, Handle, or_error, lift_io}
use unixd.Cache.Fs.{children, at_path, read_dir, External, wait_lock_kept}
use unixd.Cache.Effects.{Does, Does-or_error, bind_went_on}
use unixd.Cache.Private.ReadResult.{lift_ok}
use unixd.Cache.Private.FileFootprint.{Does-open_lock}
use unixd.Cache.Private.Locks.{open_lock}
use unixd.Cache.Entry.{Inner, entries_dir, locks_dir, maintenance_name, entries_name, locks_name}
use unixd.Cache.Paths.{ne→==, length-join}
use unixd.Cache.Private.{remove}
use unixd.Cache.Private.Honest.{Honest, Gone, remove-Gone, HonestAfter, HonestAfter-Tolerates}
use unixd.Cache.Private.{ensure_dir, validate_root}
use unixd.Cache.Private.Footprint.{Does-ensure_dir, Does-sync_dir, Does-validate_root}
use unixd.Cache.ExternalLaws.{only, nowhere, OpenLaws}
use unixd.Cache.Manage.Listing.{children-lookup, Frame-absent, read_dir_ok}
use unixd.Cache.Manage.{remove_each, empty_dir, clear}

abbrev Outcome : Type 0
Outcome = Result Error (Unit {0}) × World

-- The directory has nothing in it, and nothing has come elsewhere.
record Emptied (dir : FilePath) (w v : World) : Type 0 where
  honest : Honest v.faults
  empty : (name : Bytes) → at_path (join dir name) v ≡ none
  fewer : (q : FilePath) → at_path q w ≡ none → at_path q v ≡ none

-- Of a directory's names, the ones that are still there are on the list.
abbrev Listed : FilePath → List Bytes → World → Type 0
Listed dir names w = (name : Bytes) → (at_path (join dir name) w ≡ none) ⊎ Memᴰ name names

remove_each-Emptied :
    (dir : FilePath) (names : List Bytes) (w : World)
    → Honest w.faults
    → Listed dir names w
    → (remove_each dir names w).0 ≡ ok tt
    → Emptied dir w (remove_each dir names w).1
unfolding remove_each
remove_each-Emptied dir [] w h listed e = record {
  honest = h;
  empty = λ name. unlisted name (listed name);
  fewer = λ q absent. absent;
}
  where
    unlisted :
        (name : Bytes)
        → (at_path (join dir name) w ≡ none) ⊎ Memᴰ name []
        → at_path (join dir name) w ≡ none
    unlisted name (inl absent) = absent
    unlisted name (inr m) = elim m [ ]
remove_each-Emptied dir (first ∷ names) w h listed e =
    let (_, done, whole) =
      bind_went_on (remove (join dir first)) (λ _. remove_each dir names) w tt e in
    let v : World = (remove (join dir first) w).1 in
    let g = remove-Gone (join dir first) w h done in
    let rest =
      remove_each-Emptied dir names v g.honest (λ name. still_listed v g name (listed name))
        (ap (λ (r : Outcome). r.0) (sym whole) ∙ e) in
    subst (λ (r : Outcome). Emptied dir w r.1) (sym whole)
      (record {
        honest = rest.honest;
        empty = rest.empty;
        fewer = λ q absent. rest.fewer q (g.fewer q absent);
      })
  where
    still_listed :
        (v : World)
        → Gone (join dir first) w v
        → (name : Bytes) → (at_path (join dir name) w ≡ none) ⊎ Memᴰ name (first ∷ names)
        → (at_path (join dir name) v ≡ none) ⊎ Memᴰ name names
    still_listed v g name (inl absent) = inl (g.fewer (join dir name) absent)
    still_listed v g name (inr (head same)) =
        inl (subst (λ n. at_path (join dir n) v ≡ none) (sym same) g.gone)
    still_listed v g name (inr (tail m)) = inr m

-- What `empty_dir` leaves: of the paths outside the directory only the directory itself may have come.
record ClearedOf (dir : FilePath) (w v : World) : Type 0 where
  honest : Honest v.faults
  empty : (name : Bytes) → at_path (join dir name) v ≡ none
  fewer : (q : FilePath) → (q == dir) ≡ false → at_path q w ≡ none → at_path q v ≡ none

result_of : (out end : Outcome) → out ≡ end → out.0 ≡ ok tt → end.0 ≡ ok tt
result_of out end same e = ap (λ (r : Outcome). r.0) (sym same) ∙ e

empty_dir-ClearedOf :
    (dir : FilePath) (w : World)
    → Honest w.faults
    → (empty_dir dir w).0 ≡ ok tt
    → ClearedOf dir w (empty_dir dir w).1
unfolding empty_dir lift_io
empty_dir-ClearedOf dir w h e =
    let (_, _, ensured) = bind_went_on (ensure_dir dir) _ w tt e in
    let w1 : World = (ensure_dir dir w).1 in
    let e1 = result_of _ _ ensured e in
    let (names, named, read) = bind_went_on (lift_io (read_dir dir)) _ w1 tt e1 in
    let w2 : World = (read_dir dir w1).1 in
    let e2 = result_of _ _ read e1 in
    let (_, done, removed) = bind_went_on (remove_each dir names) _ w2 tt e2 in
    let w3 : World = (remove_each dir names w2).1 in
    let h1 = ((Does-ensure_dir HonestAfter-Tolerates dir refl).from w).kept h in
    let h2 = ((Does-read_dir HonestAfter-Tolerates dir).from w1).kept h1 in
    let f1 = (Does-ensure_dir (Frame-Tolerates (only dir)) dir (==_refl dir)).from w in
    let f2 = (Does-read_dir (Frame-Tolerates nowhere) dir).from w1 in
    let f4 = (Does-sync_dir (Frame-Tolerates nowhere) dir).from w3 in
    let all =
      remove_each-Emptied dir names w2 h2
        (λ name.
          listed names w2 (read_dir_ok dir w1 names (lift_ok (read_dir dir) w1 names named)) name
            (at_path (join dir name) w2) refl)
        done in
    subst (λ (r : Outcome). ClearedOf dir w r.1) (sym (ensured ∙ read ∙ removed))
      (record {
        honest = ((Does-sync_dir HonestAfter-Tolerates dir).from w3).kept all.honest;
        empty = λ name. Frame-absent nowhere w3 _ (join dir name) f4 refl (all.empty name);
        fewer = λ q apart absent. Frame-absent nowhere w3 _ q f4 refl (
            all.fewer q (
              Frame-absent nowhere w1 w2 q f2 refl
                (Frame-absent (only dir) w w1 q f1 apart absent)));
      })
  where
    listed :
        (names : List Bytes) (v : World)
        → names ≡ children dir v.nodes
        → (name : Bytes) (o : Option Node) → at_path (join dir name) v ≡ o
        → (at_path (join dir name) v ≡ none) ⊎ Memᴰ name names
    listed names v same name none e = inl e
    listed names v same name (some node) e =
        inr (subst (Memᴰ name) (sym same) (children-lookup dir name v.nodes node e))

Does-wait : (handle : Handle) → Does HonestAfter (wait_lock_kept handle)
unfolding wait_lock_kept
Does-wait handle =
    Does-syscall HonestAfter-Tolerates _ (record { from = λ w. record { kept = λ h. h } })

-- A clear that succeeds leaves both directories of the cache empty: the one of the entries and the one of
-- the lock files; whatever they held, provided that no call answers `NotFound` for what is there.
pub clear-empties :
    (x : External) (laws : OpenLaws x) (inner : Inner) (w : World)
    → Honest w.faults
    → (clear x inner w).0 ≡ ok tt
    → (name : Bytes)
    → (at_path (join (entries_dir inner) name) (clear x inner w).1 ≡ none)
      × (at_path (join (locks_dir inner) name) (clear x inner w).1 ≡ none)
unfolding clear
clear-empties x laws inner w h e name =
    let (_, _, validated) = bind_went_on (validate_root inner.root) _ w tt e in
    let w1 : World = (validate_root inner.root w).1 in
    let e1 = result_of _ _ validated e in
    let (handle, _, opened) =
      bind_went_on (open_lock x (join inner.root maintenance_name)) _ w1 tt e1 in
    let w2 : World = (open_lock x (join inner.root maintenance_name) w1).1 in
    let e2 = result_of _ _ opened e1 in
    let (_, _, waited) = bind_went_on (or_error lock (wait_lock_kept handle)) _ w2 tt e2 in
    let w3 : World = (or_error lock (wait_lock_kept handle) w2).1 in
    let e3 = result_of _ _ waited e2 in
    let (_, done, emptied) = bind_went_on (empty_dir (entries_dir inner)) _ w3 tt e3 in
    let w4 : World = (empty_dir (entries_dir inner) w3).1 in
    let e4 = result_of _ _ emptied e3 in
    let h1 = ((Does-validate_root HonestAfter-Tolerates inner.root).from w).kept h in
    let h2 =
      ((Does-open_lock HonestAfter-Tolerates x laws (join inner.root maintenance_name) refl).from
          w1).kept
        h1 in
    let h3 = ((Does-or_error lock _ (Does-wait handle)).from w2).kept h2 in
    let entries = empty_dir-ClearedOf (entries_dir inner) w3 h3 done in
    let locks = empty_dir-ClearedOf (locks_dir inner) w4 entries.honest e4 in
    let apart : (join (entries_dir inner) name == locks_dir inner) ≡ false =
      ne→== (join (entries_dir inner) name) (locks_dir inner) (λ same. omega (
        arith,
        ap length same,
        length-join (entries_dir inner) name,
        length-join inner.root entries_name,
        length-join inner.root locks_name,
      )) in
    subst
      (λ (r : Outcome).
        (at_path (join (entries_dir inner) name) r.1 ≡ none)
        × (at_path (join (locks_dir inner) name) r.1 ≡ none))
      (sym (validated ∙ opened ∙ waited ∙ emptied))
      (locks.fewer (join (entries_dir inner) name) apart (entries.empty name), locks.empty name)
