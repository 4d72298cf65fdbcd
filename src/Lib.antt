-- ===== src/Lib.antt =====
-- A model of the two crates of this repository, the disk cache crates/unixd-cache and the daemon
-- transport crates/unixd, with the theorems that make them correct.
--
-- crates/unixd-cache. A key is built from named parts (key.rs, in Cache/Key.antt) and hashed to the
-- name of one file in the directory of entries. The cache (cache.rs) looks keys up (Cache/Read.antt),
-- stores them (Cache/Store.antt), prunes (Cache/Prune.antt and its children: the locks and the usage,
-- the pass over the files, the pass that reaches the targets, and the whole), and opens, locks and
-- clears (Cache/Manage.antt), by default at the root of Cache/DefaultRoot.antt; its errors are in
-- Cache/Error.antt, its limits, entries and file names in Cache/Entry.antt, the search for a header in
-- Cache/Entry/Scan.antt, the horizons and failures of policy.rs in Cache/Policy.antt, and the private
-- files of private.rs in Cache/Private.antt and its children Locks and Files. How any number of callers
-- share the lock file of one key, call by call, are the steps of Cache/Private/Protocol.antt.
--   All of these are actions on one world (Cache/Os.antt): a table of nodes by their paths, the lock
-- files that other processes hold, the readings of the clock that are to come, and a list of faults.
-- Each system call (Cache/Fs.antt) takes one entry of that list and fails if one stands there, so a
-- theorem about all worlds speaks of a failure at every call. Effects stay when an error is returned.
-- Other processes act between two operations, and within one only where a lock is waited for. What the
-- crates rustix and tempfile do is the record `External`, with the laws of Cache/ExternalLaws.antt;
-- serde_json is `Serde`, and sha2 is `Sha256` with the laws of Cache/Key/Digest.antt.
--   What an action may change is stated by relations between the world before and after
-- (Cache/Effects.antt), with a rule for each way to build an action and for each call
-- (Cache/Footprint.antt, Cache/Private/Footprint.antt, Cache/Private/FileFootprint.antt), what it
-- returns by predicates on its result (Cache/Returns.antt, and for a prune's counting
-- Cache/Prune/Passes.antt), by what holds where it returns (Cache/Runs.antt, and for the files a prune
-- removes Cache/Prune/Removed.antt); Cache/Paths.antt tells the cache's paths apart. A lookup where no
-- call fails is in Cache/Read/Calm.antt, calls that answer `NotFound` truly in
-- Cache/Private/Honest.antt; the store's temporary file and its renaming are followed in
-- Cache/Store/Filling.antt and Cache/Store/Atomic.antt, and the other keys' entries in
-- Cache/Store/Kept.antt.
--
-- crates/unixd. The client (client.rs, in Daemon/Client.antt) sends one request and reads one reply;
-- the server (server.rs, in Daemon/Server.antt) answers one connection by a handler; their frames'
-- contents are in Daemon/Envelope.antt (envelope.rs, limits.rs), and Daemon/Exchange.antt puts the two
-- together. The accept loop and its drain (serve.rs) are the steps of Daemon/Serve.antt, the sharing of
-- concurrent work (single_flight.rs) those of Daemon/SingleFlight.antt, the store of secrets
-- (secrets.rs) is Daemon/Secrets.antt, and the installation of a service (install.rs) is
-- Daemon/UnitFiles.antt and Daemon/Install.antt on Linux and Daemon/Launchd.antt on macOS, with a fault
-- at any of its effects and the answers of launchd as they come. serde_json, plist and the line codec
-- of tokio_util are parameters. A socket is what the kernel does with it: for each attempt the instant
-- before it and its outcome.
--
-- Numbers are natural numbers; `u64` saturates where the source saturates, and the subtraction of
-- instants and of sizes stops at zero as there. Durations are nanoseconds. A text or a file is the list
-- of its bytes.
--
-- Two loops run on fuel. `ensure_dir` calls itself only after a failed call, so it has one round more
-- than the world has faults; `lock_exclusive` calls itself only where its file was deleted while it
-- waited for a holder, or after a failed call, so it has two rounds more than there are faults and held
-- locks. The loops of the printed numbers have a round for each value, of which each divides by the
-- base.
--
-- Not modelled: the hardening of the process and the zeroing of memory; the write timeout of the
-- server; `path::absolute`; the texts of the daemon's errors; the creation of sockets and signal
-- handlers; outside of the lock protocol, a second process that acts in the middle of an operation
-- other than by holding locks and by the faults.
--
-- Prelude.antt passes on the shared names of the libraries and of its children; PathBuf.antt has the
-- paths of the standard library as bytes. Tests.antt has the runs of the theorems at concrete inputs.
pub mod Prelude
pub mod PathBuf
pub mod Cache
pub mod Daemon
pub mod Tests
