-- ===== src/Cache/Private/LockRounds.antt =====
-- What a round of `lock_exclusive` of crates/unixd-cache/src/private.rs uses up: a fault that was to come, or
-- a lock that another held.
use mathlib.Core.Option
use unixd.Prelude.{
  ℕ, ◌+◌, ◌≡◌, ◌≤◌, ◌<◌, refl, sym, ap, subst, ◌∙◌, Bool, true, false, List, [], ◌∷◌, Option, none,
  some, Result, ok, err, list_eq, nat_eq, ◌==◌, ==_refl, arith, length, inl, inr, ◌⊎◌, Bool-cases,
  erase, if◌then◌else◌, true≢false,
}
use unixd.Cache.Error.{Error, ErrorKind, not_found, already_exists, other}
use unixd.Cache.Os.{FilePath, Node, Handle, World, lift_io}
use unixd.Cache.Fs.{
  at_path, found, symlink_metadata, syscall, take_fault, wait_lock, is_held, release, metadata,
}
use unixd.Cache.Effects.{bind_went_on}
use unixd.Cache.Footprint.{Tolerates, Rest, untaken, taken, data_in, node_data, Does-metadata}
use unixd.Cache.ExternalLaws.{nowhere}
use unixd.Cache.Read.Untouched.{Frame-Tolerates}
use unixd.Cache.Store.Filling.{never, attempt_bind}
use unixd.Cache.Private.{names, names_at}
use unixd.Cache.Private.ReadResult.{lift_ok, metadata_ok}

-- The rounds that can start again: one for each fault to come and each lock that others hold.
abbrev pub rounds : World → ℕ
rounds w = length w.faults + length w.held

pub record NoMore (w v : World) : Type 0 where
  pub le : rounds v ≤ rounds w

length-Rest : (fs gs : List (Option ErrorKind)) → Rest fs gs → length gs ≤ length fs
length-Rest fs gs (untaken e) = omega (arith, ap length e)
length-Rest fs gs (taken {fault} rest) = omega (arith, length-Rest fs (fault ∷ gs) rest)

pub NoMore-Tolerates : Tolerates NoMore (λ q. true)
NoMore-Tolerates = record {
  effect = record {
    same = λ w. record { le = omega arith };
    chain = λ u v w f g. record { le = omega (arith, f.le, g.le) };
  };
  faults = λ w fs rest. record { le = omega (arith, length-Rest w.faults fs rest) };
  nodes = λ w n i agree. record { le = omega arith };
}

-- A wait for a lock that is held lets one holder go, and else it changes no node.
length-release :
    (p : FilePath) (held : List FilePath)
    → (length (release p held) ≤ length held)
      × (is_held p held ≡ true → length (release p held) < length held)
unfolding release is_held
length-release p [] = (omega arith, λ e. absurd (cc))
length-release p (q ∷ held) = let (le, lt) = length-release p held in ground (arith, le, lt)

pub record Waited (path : FilePath) (w v : World) : Type 0 where
  pub by_now :
      (rounds v < rounds w)
      ⊎ ((data_in path v.nodes ≡ data_in path w.nodes) × (rounds v ≤ rounds w))

abbrev wait_call : FilePath → World → Result ErrorKind (Unit {0}) × World
wait_call path w =
    if is_held path w.held
    then (ok tt, record w { held = release path w.held; nodes = erase (λ p. p == path) w.nodes })
    else (ok tt, w)

pub wait_lock-Waited :
    (path : FilePath) (h : Handle) (w : World)
    → (wait_lock h w).0 ≡ ok tt
    → Waited path w (wait_lock h w).1
unfolding wait_lock syscall
wait_lock-Waited path h w e = go w.faults refl e
  where
    called :
        (v : World) → rounds v ≤ rounds w → v.nodes ≡ w.nodes → Waited path w (wait_call h.path v).1
    called v le same = elim (Bool-cases (is_held h.path v.held)) [
      | inl others ↦
          let fewer = (length-release h.path v.held).1 others in
          rw others (record { by_now = inl (omega (arith, le, fewer)) })
      | inr nobody ↦ rw nobody (record { by_now = inr (ap (data_in path) same, le) })
    ]

    go :
        (fs : List (Option ErrorKind))
        → w.faults ≡ fs
        → (take_fault fs (wait_call h.path) w).0 ≡ ok tt
        → Waited path w (take_fault fs (wait_call h.path) w).1
    go [] all e = called w (omega arith) refl
    go (none ∷ fs) all e = called (record w { faults = fs }) (omega (arith, ap length all)) refl
    go (some k ∷ fs) all e = absurd (never k tt e)

-- A look at the path finds the node, or a fault was taken.
record Looked (d : Node) (w v : World) (r : Result ErrorKind Node) : Type 0 where
  seen : (rounds v < rounds w) ⊎ ((named : Node) × (r ≡ ok named) × (node_data named ≡ d))

symlink_metadata-Looked :
    (path : FilePath) (d : Node) (w : World)
    → data_in path w.nodes ≡ some d
    → Looked d w (symlink_metadata path w).1 (symlink_metadata path w).0
unfolding symlink_metadata syscall
symlink_metadata-Looked path d w there = go w.faults refl
  where
    look :
        (o : Option Node) (v : World)
        → Option.map node_data o ≡ some d
        → Looked d w (found o v).1 (found o v).0
    look none v e = absurd (cc)
    look (some named) v e = record { seen = inr (named, refl, cc) }

    go :
        (fs : List (Option ErrorKind))
        → w.faults ≡ fs
        → Looked d w
            (take_fault fs (λ w. found (at_path path w) w) w).1
            (take_fault fs (λ w. found (at_path path w) w) w).0
    go [] all = look (at_path path w) w there
    go (none ∷ fs) all = look (at_path path w) (record w { faults = fs }) there
    go (some k ∷ fs) all = record { seen = inl (omega (arith, ap length all)) }

names_at_world : (node : Node) (r : Result ErrorKind Node) (w : World) → (names_at node r w).1 ≡ w
unfolding names_at
names_at_world node (ok named) w = refl
names_at_world node (err not_found) w = refl
names_at_world node (err already_exists) w = refl
names_at_world node (err (other k)) w = refl

same_node :
    (d node named : Node) (w : World)
    → node_data named ≡ node_data d
    → d ≡ node
    → (names_at node (ok named) w).0 ≡ ok false
    → ⊥
unfolding names_at
same_node d node named w same at e =
    true≢false (sym (rw (dev, ino) (rw (==_refl node.dev, ==_refl node.ino) refl)) ∙ negative e)
  where
    as_data : node_data named ≡ node_data node
    as_data = same ∙ ap node_data at

    dev : named.dev ≡ node.dev
    dev = ap (λ (n : Node). n.dev) as_data

    ino : named.ino ≡ node.ino
    ino = ap (λ (n : Node). n.ino) as_data

    negative : {b : Bool} → ◌≡◌ {A = Result Error Bool} (ok b) (ok false) → b ≡ false
    negative e = cc

-- The path no longer names the open file only if a fault was taken.
pub names-NoMore :
    (path : FilePath) (h : Handle) (w : World)
    → data_in path w.nodes ≡ some (node_data h.node)
    → (names path h w).0 ≡ ok false
    → rounds (names path h w).1 < rounds w
unfolding names lift_io
names-NoMore path h w there e =
    let (node, described, first) = bind_went_on (lift_io (metadata h)) _ w false e in
    let same = metadata_ok h w node (lift_ok (metadata h) w node described) in
    let whole = first ∙ attempt_bind (symlink_metadata path) (names_at node) w1 in
    by_case node same whole (ap (λ (r : Result Error Bool × World). r.0) (sym whole) ∙ e)
      (symlink_metadata-Looked path (node_data h.node) w1 still).seen
  where
    w1 : World
    w1 = (metadata h w).1

    named_now : Result ErrorKind Node
    named_now = (symlink_metadata path w1).0

    v : World
    v = (symlink_metadata path w1).1

    still : data_in path w1.nodes ≡ some (node_data h.node)
    still = ((Does-metadata (Frame-Tolerates nowhere) h).from w).at path refl ∙ there

    by_case :
        (node : Node)
        → h.node ≡ node
        → names path h w ≡ names_at node named_now v
        → (names_at node named_now v).0 ≡ ok false
        → (rounds v < rounds w1)
          ⊎ ((named : Node) × (named_now ≡ ok named) × (node_data named ≡ node_data h.node))
        → rounds (names path h w).1 < rounds w
    by_case node same whole e (inl fewer) =
        subst (λ u. rounds u < rounds w)
          (sym
            (ap (λ (r : Result Error Bool × World). r.1) whole ∙ names_at_world node named_now v))
          (omega (arith, ((Does-metadata NoMore-Tolerates h).from w).le, fewer))
    by_case node same whole e (inr (named, seen, alike)) =
        absurd (
          same_node h.node node named v alike same (ap (λ r. (names_at node r v).0) (sym seen) ∙ e))
