-- ===== src/Tests/ClearRuns.antt =====
-- The theorem on the clearing of the cache, on the machine of External.antt.
use unixd.Prelude.{◌≡◌, refl, none, ok, ascii, ◌++◌, lookup, insert, erase, modify, list_beq}
use unixd.Cache.Os
use unixd.Cache.Os.{join}
use unixd.Cache.Fs
use unixd.Cache.Fs.{at_path}
use unixd.Cache.Private
use unixd.Cache.Private.Locks
use unixd.Cache.Private.Honest.{Honest}
use unixd.Cache.Entry.{entries_dir, locks_dir}
use unixd.Cache.Manage.{clear}
use unixd.Cache.Manage.Cleared.{clear-empties}
use unixd.Tests.External.{plain_external, plain_laws}
use unixd.Tests.Machine.{test_inner, test_digest, test_world}

test_honest : Honest test_world.faults
unfolding Honest
test_honest = tt

test_clear : (clear plain_external test_inner test_world).0 ≡ ok tt
unfolding clear Os.◌>>=◌ list_beq Private.ensure_dir Os.attempt Fs.symlink_metadata lookup
    Private.owned Private.set_mode Os.lift_io Fs.set_permissions modify Fs.syscall
    Private.ensure_dir_at Private.ensure_dir_loop Private.sync_dir Fs.sync_all erase
    Private.validate_root Os.or_error Locks.open_lock Fs.metadata Fs.wait_lock_kept insert
    Fs.read_dir Private.remove Fs.remove_file
test_clear = refl

clear-empties_example :
    (at_path
        (join (entries_dir test_inner) (test_digest ++ ascii ".json"))
        (clear plain_external test_inner test_world).1
      ≡ none)
    × (at_path
          (join (locks_dir test_inner) (test_digest ++ ascii ".json"))
          (clear plain_external test_inner test_world).1
        ≡ none)
clear-empties_example =
    clear-empties plain_external plain_laws test_inner test_world test_honest test_clear
      (test_digest ++ ascii ".json")
