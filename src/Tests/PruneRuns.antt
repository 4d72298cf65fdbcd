-- ===== src/Tests/PruneRuns.antt =====
-- The theorem on what a prune removes for capacity, on a cache that is over its limits.
use unixd.Prelude.{[], ◌∷◌, ascii}
use unixd.Cache.Os
use unixd.Cache.Os.{World, Node}
use unixd.Cache.Fs
use unixd.Cache.Private
use unixd.Cache.Private.Locks
use unixd.Cache.Entry
use unixd.Cache.Entry.{Inner, Limits, default_limits}
use unixd.Cache.Entry.Scan
use unixd.Cache.Prune
use unixd.Cache.Prune.Entries
use unixd.Cache.Prune.Targets
use unixd.Cache.Prune.PassRules.{target_entries}
use unixd.Cache.Private.Honest.{Honest}
use unixd.Tests.Machine.{test_inner, test_world, a_directory, a_file, entry_at}

-- No entry is allowed.
abbrev full_inner : Inner
full_inner = record test_inner {
  limits = record default_limits { hard_entries = 0; target_entries = 0 };
}

abbrev an_entry : Node
an_entry = record a_file { content = ascii "{\"digest\":1,\"value\":2}" }

abbrev full_world : World
full_world = record test_world {
  nodes =
      (ascii "r" ∷ [], a_directory)
      ∷ (ascii "r" ∷ ascii "entries" ∷ [], a_directory)
      ∷ (entry_at, an_entry)
      ∷ [];
  held = [];
  clock = λ n. 15;
}

abbrev full_outcome : Prune.Prune
full_outcome = record {
  before_entries = 1;
  before_bytes = 22;
  after_entries = 0;
  after_bytes = 0;
  expired_removed = 0;
  unused_removed = 0;
  capacity_removed = 1;
  temporary_removed = 0;
  locks_removed = 0;
}
