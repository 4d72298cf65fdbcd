-- ===== src/Tests/Machine.antt =====
-- A cache with one entry, for the runs.
use unixd.Prelude.{[], ◌∷◌, ◌++◌, Option, none, some, Bytes, ascii, list_eq, nat_eq}
use unixd.Cache.Policy.{caller_default}
use unixd.Cache.Os.{FilePath, Node, World, file, directory}
use unixd.Cache.Key.{Key}
use unixd.Cache.Entry.{Inner, Header, Serde, default_limits}

abbrev pub test_digest : Bytes
test_digest = ascii "0123456789abcdef0123456789abcdef0123456789abcdef0123456789abcdef"

abbrev pub test_key : Key
test_key = record { namespace = ascii "ns"; digest = test_digest }

abbrev pub test_inner : Inner
test_inner = record { root = ascii "r" ∷ []; schema = 1; limits = default_limits }

-- Every file with a byte in it is the entry of `test_key`, stored at 5, fresh until 10, stale until 20.
abbrev pub test_header : Header
test_header = record {
  format = 1;
  schema = 1;
  namespace = ascii "ns";
  digest = test_digest;
  stored_at_ms = 5;
  fresh_until_ms = 10;
  stale_until_ms = 20;
  source = caller_default;
}

abbrev parsed_header : Bytes → Option Header
parsed_header [] = none
parsed_header (b ∷ bytes) = some test_header

abbrev pub test_serde : Serde Bytes
test_serde = record {
  to_vec = λ written. some written.value;
  header_from_slice = parsed_header;
  value_from_slice = λ b. some b;
}

abbrev pub a_directory : Node
a_directory = record {
  file_type = directory;
  uid = 7;
  dev = 0;
  ino = 1;
  mode = 0o700;
  content = [];
  modified = some 0;
}

abbrev pub a_file : Node
a_file = record {
  file_type = file;
  uid = 7;
  dev = 0;
  ino = 2;
  mode = 0o600;
  content = ascii "value";
  modified = some 0;
}

abbrev pub entry_at : FilePath
entry_at = ascii "r" ∷ ascii "entries" ∷ (test_digest ++ ascii ".json") ∷ []

abbrev pub lock_at : FilePath
lock_at = ascii "r" ∷ ascii "locks" ∷ (test_digest ++ ascii ".lock") ∷ []

-- The cache's directories, the entry, and its lock, which another process holds; the time is 12.
abbrev pub test_world : World
test_world = record {
  nodes =
      (ascii "r" ∷ [], a_directory)
      ∷ (ascii "r" ∷ ascii "entries" ∷ [], a_directory)
      ∷ (ascii "r" ∷ ascii "locks" ∷ [], a_directory)
      ∷ (entry_at, a_file)
      ∷ (lock_at, a_file)
      ∷ [];
  held = lock_at ∷ [];
  faults = [];
  clock = λ n. 12;
  euid = 7;
  next_ino = 9;
}
