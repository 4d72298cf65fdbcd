-- ===== src/Cache/Fs.antt =====
-- The calls of `std::fs` that the cache makes, over the world of Os.antt, and what it takes from the
-- crates rustix and tempfile as a parameter.
use unixd.Prelude.{
  ℕ, suc, Bool, true, false, ◌&&◌, List, [], ◌∷◌, ◌++◌, Option, none, some, Result, ok, err, Bytes,
  list_eq, nat_eq, ◌==◌, if◌then◌else◌, lookup, insert, erase, modify,
}
use unixd.Cache.Error.{ErrorKind, not_found, already_exists, other}
use unixd.Cache.Os.{FilePath, Node, Handle, World, M, directory, is_dir, pure, fail}

-- One system call: the next fault, or the call itself.
abbrev pub take_fault : {A : Type 0} → List (Option ErrorKind) → M ErrorKind A → M ErrorKind A
take_fault [] call w = call w
take_fault (none ∷ rest) call w = call (record w { faults = rest })
take_fault (some kind ∷ rest) call w = (err kind, record w { faults = rest })

unfoldable pub syscall : {A : Type 0} → M ErrorKind A → M ErrorKind A
syscall call w = take_fault w.faults call w

abbrev pub at_path : FilePath → World → Option Node
at_path path w = lookup path w.nodes

-- Errors of the kinds that the source does not name.
abbrev pub not_a_directory : ErrorKind
not_a_directory = other 0

abbrev pub is_a_directory : ErrorKind
is_a_directory = other 1

abbrev pub found : Option Node → M ErrorKind Node
found none = fail not_found
found (some node) = pure node

unfoldable pub symlink_metadata : FilePath → M ErrorKind Node
unfolding syscall
symlink_metadata path = syscall (λ w. found (at_path path w) w)

-- A directory that the process makes.
abbrev pub new_directory : World → Node
new_directory w = record {
  file_type = directory;
  uid = w.euid;
  dev = 0;
  ino = w.next_ino;
  mode = 0o777;
  content = [];
  modified = none;
}

abbrev pub add_directory : FilePath → World → World
add_directory path w = record w {
  nodes = insert path (new_directory w) w.nodes;
  next_ino = suc w.next_ino;
}

abbrev pub create_at : Option Node → FilePath → M ErrorKind (Unit {0})
create_at (some _) path w = (err already_exists, w)
create_at none path w = (ok tt, add_directory path w)

unfoldable pub create_dir : FilePath → M ErrorKind (Unit {0})
unfolding syscall
create_dir path = syscall (λ w. create_at (at_path path w) path w)

-- The path's missing ancestors, outermost first, and the path itself.
unfoldable pub create_each : FilePath → FilePath → M ErrorKind (Unit {0})
create_each above [] w = (ok tt, w)
create_each above (name ∷ rest) w =
    let path = above ++ name ∷ [] in
    elim (at_path path w) [
      | none ↦ create_each path rest (add_directory path w)
      | some node ↦
          if is_dir node.file_type then create_each path rest w else (err not_a_directory, w)
    ]

unfoldable pub create_dir_all : FilePath → M ErrorKind (Unit {0})
unfolding syscall create_each
create_dir_all path = syscall (create_each [] path)

abbrev pub change : Option Node → FilePath → (Node → Node) → M ErrorKind (Unit {0})
change none path f w = (err not_found, w)
change (some _) path f w = (ok tt, record w { nodes = modify path f w.nodes })

unfoldable pub set_permissions : FilePath → ℕ → M ErrorKind (Unit {0})
unfolding syscall
set_permissions path mode =
    syscall (λ w. change (at_path path w) path (λ node. record node { mode = mode }) w)

-- `File::set_modified`, on the node that the handle is open at.
unfoldable pub set_modified : Handle → ℕ → M ErrorKind (Unit {0})
unfolding syscall
set_modified handle time = syscall (λ w. (
  ok tt,
  record w { nodes = modify handle.path (λ node. record node { modified = some time }) w.nodes },
))

-- `Write::write_all` on a file that was just made.
unfoldable pub write_all : Handle → Bytes → M ErrorKind (Unit {0})
unfolding syscall
write_all handle bytes = syscall (λ w. (
  ok tt,
  record w { nodes = modify handle.path (λ node. record node { content = bytes }) w.nodes },
))

-- `File::metadata` and `sync_all`: nothing but a fault can stop them.
unfoldable pub metadata : Handle → M ErrorKind Node
unfolding syscall
metadata handle = syscall (pure handle.node)

unfoldable pub sync_all : M ErrorKind (Unit {0})
unfolding syscall
sync_all = syscall (pure tt)

abbrev pub remove_at : Option Node → FilePath → M ErrorKind (Unit {0})
remove_at none path w = (err not_found, w)
remove_at (some node) path w =
    if is_dir node.file_type
    then (err is_a_directory, w)
    else (ok tt, record w { nodes = erase (λ p. p == path) w.nodes })

unfoldable pub remove_file : FilePath → M ErrorKind (Unit {0})
unfolding syscall
remove_file path = syscall (λ w. remove_at (at_path path w) path w)

-- Whether the second path is the first or lies below it.
unfoldable pub is_below : FilePath → FilePath → Bool
is_below [] path = true
is_below (name ∷ above) [] = false
is_below (name ∷ above) (other_name ∷ path) = name == other_name && is_below above path

abbrev pub remove_tree : Option Node → FilePath → M ErrorKind (Unit {0})
remove_tree none path w = (err not_found, w)
remove_tree (some node) path w = (ok tt, record w { nodes = erase (λ p. is_below path p) w.nodes })

unfoldable pub remove_dir_all : FilePath → M ErrorKind (Unit {0})
unfolding syscall is_below
remove_dir_all path = syscall (λ w. remove_tree (at_path path w) path w)

-- The name of a path directly inside a directory.
unfoldable pub child_name : FilePath → FilePath → Option Bytes
child_name [] [] = none
child_name [] (name ∷ []) = some name
child_name [] (name ∷ _ ∷ _) = none
child_name (name ∷ above) [] = none
child_name (name ∷ above) (other_name ∷ path) =
    if name == other_name then child_name above path else none

unfoldable pub children : FilePath → List (FilePath × Node) → List Bytes
unfolding child_name
children dir [] = []
children dir ((path, _) ∷ nodes) = elim (child_name dir path) [
  | none ↦ children dir nodes
  | some name ↦ name ∷ children dir nodes
]

abbrev pub list_at : Option Node → FilePath → M ErrorKind (List Bytes)
list_at none dir w = (err not_found, w)
list_at (some node) dir w =
    if is_dir node.file_type then (ok (children dir w.nodes), w) else (err not_a_directory, w)

-- `read_dir`, with all its items at once, in the order of the table.
unfoldable pub read_dir : FilePath → M ErrorKind (List Bytes)
unfolding syscall children
read_dir dir = syscall (λ w. list_at (at_path dir w) dir w)

-- `File::try_lock` and `try_lock_shared`.
pub data TryLockError : Type 0 where
  would_block : TryLockError
  failed : ErrorKind → TryLockError

unfoldable pub is_held : FilePath → List FilePath → Bool
is_held path [] = false
is_held path (p ∷ held) = if p == path then true else is_held path held

abbrev lock_result : Bool → Result ErrorKind (Unit {0}) → Result TryLockError (Unit {0})
lock_result _ (err kind) = err (failed kind)
lock_result true (ok _) = err would_block
lock_result false (ok _) = ok tt

unfoldable pub try_lock : Handle → M TryLockError (Unit {0})
unfolding syscall is_held
try_lock handle w =
    let (r, w') = syscall (pure tt) w in (lock_result (is_held handle.path w.held) r, w')

unfoldable pub release : FilePath → List FilePath → List FilePath
release path [] = []
release path (p ∷ held) = let rest = release path held in if p == path then rest else p ∷ rest

-- `File::lock` on a key's lock file: it waits until the holder lets go, which deletes the file
-- before it unlocks (`Drop for Held`).
unfoldable pub wait_lock : Handle → M ErrorKind (Unit {0})
unfolding syscall is_held release
wait_lock handle = syscall λ w.
    if is_held handle.path w.held
    then (
      ok tt,
      record w { held = release handle.path w.held; nodes = erase (λ p. p == handle.path) w.nodes },
    )
    else (ok tt, w)

-- `File::lock` and `lock_shared` on a lock file that stays in place: the holder's release changes no node.
unfoldable pub wait_lock_kept : Handle → M ErrorKind (Unit {0})
unfolding syscall is_held release
wait_lock_kept handle = syscall (λ w. (ok tt, record w { held = release handle.path w.held }))

-- Which flags a file is opened with.
pub data OpenFlags : Type 0 where
  read_write_create : OpenFlags  -- RDWR | CREATE | CLOEXEC | NOFOLLOW
  read_only : OpenFlags  -- RDONLY | CLOEXEC | NOFOLLOW | NONBLOCK

-- The calls of rustix (`fs::open`, `fs::fchmod`) and of tempfile (`Builder::tempfile_in` with an optional
-- prefix and suffix and a directory, the two ways to persist, and the drop of the file).
pub record External : Type 0 where
  pub open_file : OpenFlags → FilePath → M ErrorKind Handle
  pub fchmod : Handle → ℕ → M ErrorKind (Unit {0})
  pub tempfile_in : Option (Bytes × Bytes) → FilePath → M ErrorKind Handle
  pub persist : Handle → FilePath → M ErrorKind (Unit {0})
  pub persist_noclobber : Handle → FilePath → M ErrorKind (Unit {0})
  pub drop_temporary : Handle → M ErrorKind (Unit {0})
