-- ===== src/Tests/CacheRuns.antt =====
-- The cache's theorems on the machine of Machine.antt.
use unixd.Prelude.{
  ◌≡◌, ◌≢◌, err, ◌≤◌, refl, [], ◌∷◌, true, false, some, ok, Bytes, ascii, list_eq, list_beq, lookup,
  modify, saturating_add, nat_eq, ◌==◌, arith, length, suc, u64_max, take, min, ◌+◌, ◌<◌,
}
use unixd.Cache.Policy
use unixd.Cache.Policy.{caller_default}
use unixd.Cache.Os
use unixd.Cache.Fs
use unixd.Cache.Private
use unixd.Cache.Private.Files
use unixd.Cache.Private.Locks
use unixd.Cache.Entry
use unixd.Cache.Read
use unixd.Cache.Os.{FilePath, World}
use unixd.Cache.Fs.{is_held, at_path}
use unixd.Cache.Footprint.{data_in}
use unixd.Cache.Entry.{
  Lookup, stale, fresh, consistent, millis, entries_dir, entry_path, lock_path, is_digest,
}
use unixd.Cache.Entry.Scan.{read_header_text}
use unixd.Cache.Entry.ScanLaws.{header_text, read_header_text_lem}
use unixd.Cache.Read.{read, cache_lookup, classify}
use unixd.Cache.Read.Served.{Serves, read-Serves}
use unixd.Cache.Read.Untouched.{cache_lookup_keeps}
use unixd.Cache.Private.{ensure_dir, ensure_dir_loop, out_of_fuel}
use unixd.Cache.Private.Fuel.{Real, ensure_dir_lem}
use unixd.Cache.Prune
use unixd.Cache.Prune.{Prune, skip}
use unixd.Cache.Private.Honest.{Honest}
use unixd.Cache.Prune.Run.{prune}
use unixd.Cache.Prune.Entries
use unixd.Cache.Entry.Scan
use unixd.Cache.Prune.Spared.{prune-spares}
use unixd.Cache.Store.Horizons.{header, cached, classify-entry_of}
use unixd.Tests.External.{plain_external, plain_laws}
use unixd.Tests.Machine.{
  test_inner, test_key, test_digest, test_serde, test_world, entry_at, a_file, a_directory,
}

abbrev served : Lookup Bytes
served =
    stale (record { value = ascii "value"; stored_at_ms = 5; age_ms = 7; source = caller_default })

test_read : (read plain_external test_serde test_inner test_key false test_world).0 ≡ ok served
unfolding read Os.◌>>=◌ Private.ensure_dir Os.attempt Fs.symlink_metadata lookup list_beq
    Private.owned Private.set_mode Os.lift_io Fs.set_permissions Files.read modify entry_path
    Fs.metadata saturating_add consistent Os.now_ms Entry.at millis Entry.modified_ms
    Fs.set_modified Fs.syscall Os.ignore Files.read_opened Files.read_refused Files.read_to_end
    Files.touch Private.ensure_dir_loop Private.remove classify Read.discard Read.mismatched
    Read.read_entry Read.read_found Read.read_value Read.touch_used
test_read = refl

read-Serves_example :
    Serves test_serde test_inner test_key
      (data_in (entry_path test_inner test_digest) test_world.nodes)
      12
      served
read-Serves_example =
    read-Serves test_serde test_inner test_key plain_external false plain_laws (omega arith)
      test_world served test_read

apart : (entry_at == entries_dir test_inner) ≡ false
unfolding list_beq
apart = refl

cache_lookup_keeps_example :
    data_in entry_at (cache_lookup plain_external test_serde test_inner test_key test_world).1.nodes
    ≡ data_in entry_at test_world.nodes
cache_lookup_keeps_example =
    cache_lookup_keeps plain_external plain_laws test_serde test_inner test_key test_world entry_at
      apart

test_is_digest : is_digest test_digest ≡ true
unfolding is_digest
test_is_digest = refl

test_held : is_held (lock_path test_inner test_digest) test_world.held ≡ true
unfolding is_held lock_path list_beq
test_held = refl

prune-spares_example :
    (is_held
        (lock_path test_inner test_digest)
        (prune plain_external test_serde.header_from_slice test_inner skip test_world).1.held
      ≡ true)
    × (data_in
          (entry_path test_inner test_digest)
          (prune plain_external test_serde.header_from_slice test_inner skip test_world).1.nodes
        ≡ data_in (entry_path test_inner test_digest) test_world.nodes)
prune-spares_example =
    prune-spares plain_external plain_laws test_serde.header_from_slice test_inner test_digest
      test_is_digest skip test_world test_held

test_there : at_path entry_at test_world ≡ some a_file
unfolding lookup list_beq
test_there = refl

read_header_text_lem_example :
    read_header_text entry_at 100 test_world
    ≡ (ok (header_text (take 100 a_file.content)), test_world)
read_header_text_lem_example = read_header_text_lem entry_at 100 test_world a_file refl test_there

abbrev test_policy : Policy.Policy
test_policy = record { fresh = 5_000_000; stale_if_error = 10_000_000; source = caller_default }

classify-entry_of_example :
    (consistent (header test_inner test_key test_policy (ascii "value") 5 12) ≡ true)
    × (12 ≤ min (5 + millis 5_000_000) u64_max
        → classify test_inner
            (header test_inner test_key test_policy (ascii "value") 5 12)
            12
            (ascii "value")
          ≡ fresh (cached test_inner test_key test_policy (ascii "value") 5 12))
    × (min (5 + millis 5_000_000) u64_max < 12
        → classify test_inner
            (header test_inner test_key test_policy (ascii "value") 5 12)
            12
            (ascii "value")
          ≡ stale (cached test_inner test_key test_policy (ascii "value") 5 12))
    × ((header test_inner test_key test_policy (ascii "value") 5 12).stale_until_ms
        ≡ min ((5 + millis 5_000_000) + millis 10_000_000) u64_max)
classify-entry_of_example =
    classify-entry_of test_inner test_key test_policy (ascii "value") 5 12 (omega arith)

-- A cache with one entry, past its stale horizon.
abbrev small_world : World
small_world = record test_world {
  nodes =
      (ascii "r" ∷ [], a_directory)
      ∷ (ascii "r" ∷ ascii "entries" ∷ [], a_directory)
      ∷ (entry_at, a_file)
      ∷ [];
  held = [];
  clock = λ n. 25;
}

abbrev test_outcome : Prune
test_outcome = record {
  before_entries = 1;
  before_bytes = 5;
  after_entries = 0;
  after_bytes = 0;
  expired_removed = 1;
  unused_removed = 0;
  capacity_removed = 0;
  temporary_removed = 0;
  locks_removed = 0;
}

ensure_dir_lem_example :
    ((ensure_dir (entries_dir test_inner) test_world).0 ≢ err out_of_fuel)
    × (ensure_dir_loop (suc (length test_world.faults) + 4) (entries_dir test_inner) test_world
        ≡ ensure_dir (entries_dir test_inner) test_world)
unfolding Real
ensure_dir_lem_example = ensure_dir_lem (entries_dir test_inner) test_world 4 tt
