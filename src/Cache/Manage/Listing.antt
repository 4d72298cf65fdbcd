-- ===== src/Cache/Manage/Listing.antt =====
-- What `read_dir` answers, for the clearing of crates/unixd-cache/src/cache.rs.
use mathlib.Core.List.{Memᴰ}
use mathlib.Core.List.Memᴰ.{head, tail}
use mathlib.Core.Option
use unixd.Cache.Footprint.{node_data}
use unixd.Cache.Read.Untouched.{Frame}
use unixd.Prelude.{
  ◌≡◌, refl, sym, ap, subst, ◌∙◌, Bool, false, List, [], ◌∷◌, Option, none, some, ok, Bytes,
  list_eq, nat_eq, ◌==◌, ==_iff, ==_refl, inl, inr, Bool-cases, lookup,
}
use unixd.Cache.Error.{ErrorKind}
use unixd.Cache.Os.{FilePath, Node, World, is_dir, join}
use unixd.Cache.Fs.{children, child_name, at_path, read_dir, list_at, syscall, take_fault}

-- A node directly in a directory is one that `read_dir` names.
child_name-join : (dir : FilePath) (name : Bytes) → child_name dir (join dir name) ≡ some name
unfolding child_name
child_name-join [] name = refl
child_name-join (d ∷ dir) name = rw (==_refl d) (child_name-join dir name)

pub children-lookup :
    (dir : FilePath) (name : Bytes) (nodes : List (FilePath × Node)) (node : Node)
    → lookup (join dir name) nodes ≡ some node
    → Memᴰ name (children dir nodes)
unfolding children lookup
children-lookup dir name [] node e = absurd (cc)
children-lookup dir name ((path, n) ∷ nodes) node e = elim (Bool-cases (path == join dir name)) [
  | inl same ↦
      let at : child_name dir path ≡ some name =
        ap (child_name dir) ((==_iff path (join dir name)).0 same) ∙ child_name-join dir name in
      subst
        (λ o.
          Memᴰ name
            (elim o [ none ↦ children dir nodes | some first ↦ first ∷ children dir nodes ]))
        (sym at) (head refl)
  | inr apart ↦ later (child_name dir path) (children-lookup dir name nodes node (rw apart at e))
]
  where
    later :
        (o : Option Bytes)
        → Memᴰ name (children dir nodes)
        → Memᴰ name (elim o [ none ↦ children dir nodes | some first ↦ first ∷ children dir nodes ])
    later none m = m
    later (some first) m = tail m

-- A path that is absent stays absent outside a footprint.
pub Frame-absent :
    (changes : FilePath → Bool) (w v : World) (q : FilePath)
    → Frame changes w v
    → changes q ≡ false
    → at_path q w ≡ none
    → at_path q v ≡ none
Frame-absent changes w v q f out absent =
    unmapped (at_path q v) (f.at q out ∙ ap (Option.map node_data) absent)
  where
    unmapped : (o : Option Node) → Option.map node_data o ≡ none → o ≡ none
    unmapped none e = refl
    unmapped (some node) e = absurd (cc)

-- `read_dir` answers what the table has.
pub read_dir_ok :
    (dir : FilePath) (w : World) (names : List Bytes)
    → (read_dir dir w).0 ≡ ok names
    → names ≡ children dir (read_dir dir w).1.nodes
unfolding read_dir syscall
read_dir_ok dir w names e = go w.faults w e
  where
    in_directory :
        (node : Node) (w : World)
        → (list_at (some node) dir w).0 ≡ ok names
        → names ≡ children dir (list_at (some node) dir w).1.nodes
    in_directory node w e = elim (Bool-cases (is_dir node.file_type)) [
      | inl listable ↦ rw listable (cc (rw listable at e))
      | inr plain ↦ absurd (cc (rw plain at e))
    ]

    listed :
        (o : Option Node) (w : World)
        → (list_at o dir w).0 ≡ ok names
        → names ≡ children dir (list_at o dir w).1.nodes
    listed none w e = absurd (cc)
    listed (some node) w e = in_directory node w e

    go :
        (fs : List (Option ErrorKind)) (w : World)
        → (take_fault fs (λ w. list_at (at_path dir w) dir w) w).0 ≡ ok names
        → names ≡ children dir (take_fault fs (λ w. list_at (at_path dir w) dir w) w).1.nodes
    go [] w e = listed (at_path dir w) w e
    go (none ∷ fs) w e = listed (at_path dir w) (record w { faults = fs }) e
    go (some k ∷ fs) w e = absurd (cc)
