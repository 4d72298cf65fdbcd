-- ===== src/Cache/Footprint.antt =====
-- Which nodes the calls of Fs.antt may change. A footprint is a set of paths; a relation between
-- worlds tolerates it if it allows any change of the nodes there, and elsewhere changes of a mode or
-- a modification time alone.
use mathlib.Core.Option
use unixd.Prelude.{
  ℕ, ◌≡◌, refl, ap, Bool, true, false, List, [], ◌∷◌, Option, none, some, ok, err, Bytes, list_eq,
  nat_eq, Bool-cases, inl, inr, true≢false, subst, ◌==◌, ==_iff, if◌then◌else◌, lookup, insert,
  erase, modify, lookup-insert, lookup-erase, lookup-modify, ◌∙◌, sym,
}
use unixd.Cache.Error.{ErrorKind, not_found}
use unixd.Cache.Os.{FileType, directory, FilePath, Node, Handle, World, M, is_dir, now_ms}
use unixd.Cache.Fs.{
  take_fault, found, change, create_at, remove_at, remove_tree, list_at, is_a_directory,
  not_a_directory, syscall, at_path, symlink_metadata, create_dir, set_permissions, set_modified,
  write_all, metadata, sync_all, remove_file, is_below, remove_dir_all, children, read_dir,
  try_lock,
}
use unixd.Cache.Effects.{Effect, Does, Does-pure, Does-fail}

-- A node without its mode and modification time.
abbrev pub node_data : Node → Node
node_data node = record node { mode = 0; modified = none }

abbrev pub data_in : FilePath → List (FilePath × Node) → Option Node
data_in path nodes = Option.map node_data (lookup path nodes)

abbrev pub Agree : (FilePath → Bool) → List (FilePath × Node) → List (FilePath × Node) → Type 0
Agree changes old new = (q : FilePath) → changes q ≡ false → data_in q new ≡ data_in q old

-- The faults that are still to come after some have been taken.
pub data Rest (fs : List (Option ErrorKind)) : List (Option ErrorKind) → Type 0 where
  untaken : {gs : List (Option ErrorKind)} → fs ≡ gs → Rest fs gs
  taken :
      {fault : Option ErrorKind} {gs : List (Option ErrorKind)} → Rest fs (fault ∷ gs) → Rest fs gs

pub record Tolerates (R : World → World → Type 0) (changes : FilePath → Bool) : Type 0 where
  pub effect : Effect R
  pub faults :
      (w : World) (fs : List (Option ErrorKind)) → Rest w.faults fs → R w (record w { faults = fs })
  pub nodes :
      (w : World) (n : List (FilePath × Node)) (i : ℕ)
      → Agree changes w.nodes n
      → R w (record w { nodes = n; next_ino = i })

-- Nothing but faults taken, and nodes changed within the footprint.
abbrev pub ChangesOnly : (FilePath → Bool) → World → World → Type 0
ChangesOnly changes w v =
    (fs : List (Option ErrorKind)) × (n : List (FilePath × Node)) × (i : ℕ) × (v
      ≡ record w { faults = fs; nodes = n; next_ino = i })
    × Agree changes w.nodes n
    × Rest w.faults fs

map_data-modified :
    (b : Bool) (f : Node → Node) (o : Option Node)
    → ((node : Node) → node_data (f node) ≡ node_data node)
    → Option.map node_data (if b then Option.map f o else o) ≡ Option.map node_data o
map_data-modified true f none h = refl
map_data-modified true f (some node) h = ap some (h node)
map_data-modified false f o h = refl

abbrev with_mode : ℕ → Node → Node
with_mode mode node = record node { mode = mode }

module _ (changes : FilePath → Bool) where
  pub Agree-refl : (n : List (FilePath × Node)) → Agree changes n n
  Agree-refl n q out = refl

  Agree-modify :
      (p : FilePath) (f : Node → Node) (n : List (FilePath × Node))
      → ((node : Node) → node_data (f node) ≡ node_data node)
      → Agree changes n (modify p f n)
  Agree-modify p f n h q out =
      ap (Option.map node_data) (lookup-modify p q f n)
      ∙ map_data-modified (p == q) f (lookup q n) h

  -- A path outside the footprint is not one inside it.
  apart : (p q : FilePath) → changes p ≡ true → changes q ≡ false → (p == q) ≡ false
  apart p q hp hq = elim (Bool-cases (p == q)) [
    | inl e ↦ absurd (true≢false (sym hp ∙ ap changes ((==_iff p q).0 e) ∙ hq))
    | inr e ↦ e
  ]

  Agree-modify_at :
      (p : FilePath) (f : Node → Node) (n : List (FilePath × Node))
      → changes p ≡ true
      → Agree changes n (modify p f n)
  Agree-modify_at p f n hp q out =
      ap (Option.map node_data) (lookup-modify p q f n ∙ rw (apart p q hp out) refl)

  pub Agree-insert :
      (p : FilePath) (v : Node) (n : List (FilePath × Node))
      → changes p ≡ true
      → Agree changes n (insert p v n)
  Agree-insert p v n hp q out =
      ap (Option.map node_data) (lookup-insert p q v n ∙ rw (apart p q hp out) refl)

  pub Agree-erase :
      (gone : FilePath → Bool) (n : List (FilePath × Node))
      → ((q : FilePath) → gone q ≡ true → changes q ≡ true)
      → Agree changes n (erase gone n)
  Agree-erase gone n inside q out = elim (Bool-cases (gone q)) [
    | inl g ↦ absurd (true≢false (sym (inside q g) ∙ out))
    | inr k ↦ ap (Option.map node_data) (lookup-erase gone q n ∙ rw k refl)
  ]

module _ {R : World → World → Type 0} {changes : FilePath → Bool} (t : Tolerates R changes) where
  pub Does-syscall : {A : Type 0} (call : M ErrorKind A) → Does R call → Does R (syscall call)
  unfolding syscall
  Does-syscall call d = record { from = λ w. go w w.faults refl }
    where
      go : (w : World) (fs : List (Option ErrorKind)) → w.faults ≡ fs → R w (take_fault fs call w).1
      go w [] e = d.from w
      go w (none ∷ fs) e = t.effect.chain w _ _ (t.faults w fs (taken (untaken e))) (d.from _)
      go w (some k ∷ fs) e = t.faults w fs (taken (untaken e))

  -- A call that looks at one node, and changes nodes only where that agrees.
  at_node :
      {A : Type 0} (call : Option Node → M ErrorKind A) (p : FilePath)
      → ((o : Option Node) → Does R (call o))
      → Does R (λ w. call (at_path p w) w)
  at_node call p d = record { from = λ w. (d (at_path p w)).from w }

  pub Does-symlink_metadata : (p : FilePath) → Does R (symlink_metadata p)
  unfolding symlink_metadata
  Does-symlink_metadata p = Does-syscall _ (
      at_node found p
        (elim [ none ↦ Does-fail t.effect not_found | some node ↦ Does-pure t.effect node ]))

  pub Does-metadata : (h : Handle) → Does R (metadata h)
  unfolding metadata
  Does-metadata h = Does-syscall _ (Does-pure t.effect h.node)

  pub Does-sync_all : Does R sync_all
  unfolding sync_all
  Does-sync_all = Does-syscall _ (Does-pure t.effect tt)

  pub Does-set_permissions : (p : FilePath) (mode : ℕ) → Does R (set_permissions p mode)
  unfolding set_permissions
  Does-set_permissions p mode = Does-syscall _ (
      at_node (λ o. change o p (with_mode mode)) p
        (elim [
          | none ↦ record { from = λ w. t.effect.same w }
          | some node ↦ record {
            from = λ w.
                t.nodes w _ w.next_ino
                  (Agree-modify changes p (with_mode mode) w.nodes (λ node. refl));
          }
        ]))

  pub Does-set_modified : (h : Handle) (time : ℕ) → Does R (set_modified h time)
  unfolding set_modified
  Does-set_modified h time = Does-syscall _ (record {
    from = λ w. t.nodes w _ w.next_ino (Agree-modify changes h.path _ w.nodes (λ node. refl));
  })

  pub Does-write_all : (h : Handle) (b : Bytes) → changes h.path ≡ true → Does R (write_all h b)
  unfolding write_all
  Does-write_all h b at =
      Does-syscall _ (record {
        from = λ w. t.nodes w _ w.next_ino (Agree-modify_at changes h.path _ w.nodes at);
      })

  pub Does-create_dir : (p : FilePath) → changes p ≡ true → Does R (create_dir p)
  unfolding create_dir
  Does-create_dir p at = Does-syscall _ (
      at_node (λ o. create_at o p) p
        (elim [
          | none ↦ record { from = λ w. t.nodes w _ _ (Agree-insert changes p _ w.nodes at) }
          | some node ↦ record { from = λ w. t.effect.same w }
        ]))

  pub Does-remove_file : (p : FilePath) → changes p ≡ true → Does R (remove_file p)
  unfolding remove_file
  Does-remove_file p at = Does-syscall _ (
      at_node (λ o. remove_at o p) p
        (elim [
          | none ↦ record { from = λ w. t.effect.same w }
          | some node ↦ remove_node node.file_type
        ]))
    where
      erased : (w : World) → R w (record w { nodes = erase (λ q. q == p) w.nodes })
      erased w =
          t.nodes w _ w.next_ino
            (Agree-erase changes (λ q. q == p) w.nodes (λ q e. ap changes ((==_iff q p).0 e) ∙ at))

      remove_node :
          (b : FileType)
          → Does R (λ w.
            if is_dir b
            then (err is_a_directory, w)
            else (ok tt, record w { nodes = erase (λ q. q == p) w.nodes }))
      remove_node directory = record { from = λ w. t.effect.same w }
      remove_node _ = record { from = λ w. erased w }

  pub Does-remove_dir_all :
      (p : FilePath)
      → ((q : FilePath) → is_below p q ≡ true → changes q ≡ true)
      → Does R (remove_dir_all p)
  unfolding remove_dir_all
  Does-remove_dir_all p below = Does-syscall _ (
      at_node (λ o. remove_tree o p) p
        (elim [
          | none ↦ record { from = λ w. t.effect.same w }
          | some node ↦ record {
            from = λ w. t.nodes w _ w.next_ino (Agree-erase changes (is_below p) w.nodes below);
          }
        ]))

  pub Does-read_dir : (p : FilePath) → Does R (read_dir p)
  unfolding read_dir
  Does-read_dir p = Does-syscall _ (
      at_node (λ o. list_at o p) p
        (elim [
          | none ↦ record { from = λ w. t.effect.same w }
          | some node ↦ listed node.file_type
        ]))
    where
      listed :
          (b : FileType)
          → Does R
              (λ w. if is_dir b then (ok (children p w.nodes), w) else (err not_a_directory, w))
      listed directory = record { from = λ w. t.effect.same w }
      listed _ = record { from = λ w. t.effect.same w }

  pub Does-try_lock : (h : Handle) → Does R (try_lock h)
  unfolding try_lock
  Does-try_lock h = record { from = λ w. (Does-syscall _ (Does-pure t.effect tt)).from w }

  -- A change of the nodes within the footprint, and of the faults.
  pub from_ChangesOnly : (w v : World) → ChangesOnly changes w v → R w v
  from_ChangesOnly w v (fs, n, i, e, agree, rest) =
      subst (R w) (sym e) (t.effect.chain w _ _ (t.faults w fs rest) (t.nodes _ n i agree))

-- A relation that tolerates a reading of the clock.
pub Does-now_ms :
    {R : World → World → Type 0} {E : Type 0}
    → ((w : World) (c : ℕ → ℕ) → R w (record w { clock = c }))
    → Does {E = E} R now_ms
unfolding now_ms
Does-now_ms t = record { from = λ w. t w _ }

pub ruleset call_rules = (
  Does-symlink_metadata, Does-metadata, Does-sync_all, Does-set_permissions, Does-set_modified,
  Does-read_dir, Does-try_lock,
)
