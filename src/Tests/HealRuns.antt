-- ===== src/Tests/HealRuns.antt =====
-- The theorem on a miss under the key's lock, for an entry that is past its stale horizon.
use unixd.Prelude.{◌≡◌, refl, true, ok, list_beq, lookup, modify, erase, arith, saturating_add}
use unixd.Cache.Os
use unixd.Cache.Os.{World}
use unixd.Cache.Fs
use unixd.Cache.Private
use unixd.Cache.Private.Files
use unixd.Cache.Entry
use unixd.Cache.Entry.{miss, entry_path}
use unixd.Cache.Read
use unixd.Cache.Read.{read}
use unixd.Cache.Read.Healed.{Healed, read-Healed}
use unixd.Tests.External.{plain_external, plain_laws, plain_read_laws}
use unixd.Tests.Machine.{test_inner, test_key, test_serde, test_world}

abbrev late_world : World
late_world = record test_world { clock = λ n. 25 }

test_miss : (read plain_external test_serde test_inner test_key true late_world).0 ≡ ok miss
unfolding read Os.◌>>=◌ Private.ensure_dir Os.attempt Fs.symlink_metadata lookup list_beq
    Private.owned Private.set_mode Os.lift_io Fs.set_permissions Files.read modify entry_path
    Fs.metadata saturating_add Entry.consistent Os.now_ms Entry.at Entry.millis Entry.modified_ms
    Fs.set_modified Fs.syscall Os.ignore Files.read_opened Files.read_refused Files.read_to_end
    Files.touch Private.ensure_dir_loop Private.remove Read.classify Read.discard Read.mismatched
    Read.read_entry Read.read_found Read.read_value Read.touch_used Fs.remove_file erase
test_miss = refl

read-Healed_example :
    Healed plain_external plain_laws plain_read_laws test_serde test_inner test_key
      (omega arith)
      late_world
      (read plain_external test_serde test_inner test_key true late_world).1
read-Healed_example =
    read-Healed plain_external plain_laws plain_read_laws test_serde test_inner test_key
      (omega arith) late_world refl test_miss
