-- ===== src/Cache/ExternalLaws.antt =====
-- What open(2), fchmod(2) and the crate tempfile document, as far as the cache relies on it: a call
-- changes no node but the one that it names and at most takes faults off the list, an opened file is the one at the path, and a temporary
-- file is a new file of the directory that it is asked for.
use unixd.Prelude.{
  ℕ, ◌≡◌, Bool, true, false, [], ◌||◌, ◌++◌, some, ok, err, Bytes, list_eq, nat_eq, ◌==◌,
}
use unixd.Cache.Error.{ErrorKind}
use unixd.Cache.Os.{FilePath, Node, Handle, World, file, is_file, join}
use unixd.Cache.Fs.{External, OpenFlags, read_only, read_write_create, at_path}
use unixd.Cache.Footprint.{ChangesOnly, data_in, node_data}

abbrev pub only : FilePath → FilePath → Bool
only p q = q == p

abbrev pub nowhere : FilePath → Bool
nowhere q = false

pub record OpenLaws (x : External) : Type 0 where
  pub open_path :
      (flags : OpenFlags) (p : FilePath) (w : World) (h : Handle)
      → (x.open_file flags p w).0 ≡ ok h
      → h.path ≡ p
  pub open_reads :
      (p : FilePath) (w : World) (h : Handle)
      → (x.open_file read_only p w).0 ≡ ok h
      → at_path p w ≡ some h.node
  pub open_writes :
      (p : FilePath) (w : World) (h : Handle)
      → (x.open_file read_write_create p w).0 ≡ ok h
      → data_in p (x.open_file read_write_create p w).1.nodes ≡ some (node_data h.node)
  pub open_read_keeps :
      (p : FilePath) (w : World) → ChangesOnly nowhere w (x.open_file read_only p w).1
  pub open_write_keeps :
      (p : FilePath) (w : World) → ChangesOnly (only p) w (x.open_file read_write_create p w).1
  pub fchmod_keeps :
      (h : Handle) (mode : ℕ) (w : World) → ChangesOnly nowhere w (x.fchmod h mode w).1

-- What open(2) documents of a regular file that the caller may read: where no call fails, the file opens.
pub record ReadLaws (x : External) : Type 0 where
  pub opens :
      (p : FilePath) (w : World) (node : Node)
      → at_path p w ≡ some node
      → is_file node.file_type ≡ true
      → w.faults ≡ []
      → x.open_file read_only p w ≡ (ok (record { path = p; node = node }), w)

-- What tempfile documents of a named temporary file: it is a new regular file whose name has the prefix and
-- the suffix; `persist` renames it onto the path, which then holds it or, on an error, what it held before;
-- the drop deletes at most the file itself.
pub record TemporaryLaws (x : External) : Type 0 where
  pub temporary_path :
      (prefix suffix : Bytes) (dir : FilePath) (w : World) (h : Handle)
      → (x.tempfile_in (some (prefix, suffix)) dir w).0 ≡ ok h
      → (random : Bytes) × (h.path ≡ join dir (prefix ++ (random ++ suffix)))
  pub temporary_new :
      (prefix suffix : Bytes) (dir : FilePath) (w : World) (h : Handle)
      → (x.tempfile_in (some (prefix, suffix)) dir w).0 ≡ ok h
      → (at_path h.path (x.tempfile_in (some (prefix, suffix)) dir w).1 ≡ some h.node)
        × (h.node.file_type ≡ file)
        × ChangesOnly (only h.path) w (x.tempfile_in (some (prefix, suffix)) dir w).1
  pub temporary_failed :
      (prefix suffix : Bytes) (dir : FilePath) (w : World) (k : ErrorKind)
      → (x.tempfile_in (some (prefix, suffix)) dir w).0 ≡ err k
      → ChangesOnly nowhere w (x.tempfile_in (some (prefix, suffix)) dir w).1
  pub persisted :
      (h : Handle) (p : FilePath) (w : World)
      → (x.persist h p w).0 ≡ ok tt
      → (at_path p (x.persist h p w).1 ≡ at_path h.path w)
        × ChangesOnly (λ q. q == p || q == h.path) w (x.persist h p w).1
  pub persist_failed :
      (h : Handle) (p : FilePath) (w : World) (k : ErrorKind)
      → (x.persist h p w).0 ≡ err k
      → ChangesOnly nowhere w (x.persist h p w).1
  pub drop_keeps : (h : Handle) (w : World) → ChangesOnly (only h.path) w (x.drop_temporary h w).1
