-- ===== src/Tests/StoreRuns.antt =====
-- The theorems on the store, on the machine of External.antt.
use unixd.Prelude.{
  ◌∷◌, ◌≡◌, ◌≤◌, refl, ap, true, false, Bool, ◌&&◌, ok, ascii, Bytes, list_beq, Option, none, some,
  lookup, modify, insert, erase, saturating_add, nat_beq, nat_eq, list_eq, ◌==◌, ==_iff, leb,
  length, u64_max, arith, Bool-cases, inl, inr,
}
use unixd.Cache.Policy
use unixd.Cache.Policy.{Source, caller_default, cache_control}
use unixd.Cache.Os
use unixd.Cache.Os.{World}
use unixd.Cache.Fs
use unixd.Cache.Private
use unixd.Cache.Private.Files
use unixd.Cache.Entry
use unixd.Cache.Entry.{entry_path, is_digest, Serde, Header, Written}
use unixd.Cache.Read.{cache_lookup}
use unixd.Cache.Read.Calm.{calm}
use unixd.Cache.Store.{write_atomic, store_locked}
use unixd.Cache.Store
use unixd.Cache.Store.Horizons.{header_of}
use unixd.Cache.Store.RoundTrip.{RoundTrips, OwnDirectory, promised, cache_lookup-store_locked}
use unixd.Cache.Store.Atomic.{Replaced, write_atomic-Replaced}
use unixd.Cache.Store.{store}
use unixd.Cache.Store.Kept.{store_spares}
use unixd.Cache.Read.{KeyLock}
use unixd.Cache.Fs.{is_held}
use unixd.Cache.Entry.{lock_path}
use unixd.Cache.Footprint.{data_in}
use unixd.Tests.External.{plain_external, plain_laws, plain_temporary_laws, plain_read_laws}
use unixd.Tests.Machine.{a_directory, test_key, test_inner, test_digest, test_world}

test_is_digest : is_digest test_digest ≡ true
unfolding is_digest
test_is_digest = refl

write_atomic-Replaced_example :
    Replaced
      (entry_path test_inner test_digest)
      (ascii "new")
      test_world
      (write_atomic plain_external test_inner test_digest (ascii "new") test_world)
write_atomic-Replaced_example =
    write_atomic-Replaced plain_external plain_temporary_laws test_inner test_digest (ascii "new")
      test_is_digest test_world

-- A cache whose only entry is one that is stored at 12, fresh until 17 and stale until 27.
abbrev policy : Policy.Policy
policy = record { fresh = 5_000_000; stale_if_error = 10_000_000; source = caller_default }

abbrev stored_header : Header
stored_header = record {
  format = 1;
  schema = 1;
  namespace = ascii "ns";
  digest = test_digest;
  stored_at_ms = 12;
  fresh_until_ms = 17;
  stale_until_ms = 27;
  source = caller_default;
}

abbrev same_source : Source → Bool
same_source caller_default = true
same_source cache_control = false

same_header : Header → Header → Bool
same_header a b =
    ((nat_beq a.format b.format && nat_beq a.schema b.schema)
      && (a.namespace == b.namespace && a.digest == b.digest))
    && ((nat_beq a.stored_at_ms b.stored_at_ms && nat_beq a.fresh_until_ms b.fresh_until_ms)
        && (nat_beq a.stale_until_ms b.stale_until_ms
            && (same_source a.source && same_source b.source)))

same_header-eq : (a b : Header) → same_header a b ≡ true → b ≡ a
unfolding same_header
same_header-eq a b e =
    ground
      (arith, ==_iff a.namespace b.namespace, ==_iff a.digest b.digest, sources a.source b.source)
  where
    sources : (a b : Source) → same_source a ≡ true → same_source b ≡ true → a ≡ b
    sources caller_default caller_default ea eb = refl
    sources caller_default cache_control ea eb = absurd (cc)
    sources cache_control b ea eb = absurd (cc)

abbrev if_small : Bool → Bytes → Option Bytes
if_small true value = some value
if_small false value = none

one_entry : Serde Bytes
unfolding same_header
one_entry = record {
  to_vec =
      λ e. if_small (same_header (header_of e) stored_header && leb (length e.value) 100) e.value;
  header_from_slice = λ b. some stored_header;
  value_from_slice = λ b. some b;
}

one_entry_laws : RoundTrips one_entry
unfolding one_entry
one_entry_laws = record {
  parses = λ e bytes.
      parsed e bytes (same_header (header_of e) stored_header) (leb (length e.value) 100)
        (same_header-eq (header_of e) stored_header);
  fits = λ e bytes. small e bytes (same_header (header_of e) stored_header);
}
  where
    parsed :
        (e : Written Bytes) (bytes : Bytes) (a b : Bool)
        → (a ≡ true → stored_header ≡ header_of e)
        → if_small (a && b) e.value ≡ some bytes
        → (some stored_header ≡ some (header_of e)) × (some bytes ≡ some e.value)
    parsed e bytes true true same h = (ap some (same refl), cc)
    parsed e bytes true false same h = absurd (cc)
    parsed e bytes false b same h = absurd (cc)

    small :
        (e : Written Bytes) (bytes : Bytes) (a : Bool)
        → if_small (a && leb (length e.value) 100) e.value ≡ some bytes
        → length bytes ≤ u64_max
    small e bytes true h = elim (Bool-cases (leb (length e.value) 100)) [
      | inl short ↦ ground (arith, short)
      | inr long ↦ absurd (ground (arith, long))
    ]
    small e bytes false h = absurd (cc)

abbrev after_store : World
after_store =
    (store_locked plain_external one_entry test_inner test_key policy (ascii "new") test_world).1

test_stored :
    (store_locked plain_external one_entry test_inner test_key policy (ascii "new") test_world).0
    ≡ ok none
unfolding store_locked Os.◌>>=◌ Os.now_ms one_entry Store.entry_of list_beq write_atomic
    Private.ensure_dir Os.attempt Fs.symlink_metadata lookup Private.owned Private.set_mode
    Os.lift_io Fs.set_permissions modify Files.or_drop Fs.write_all Fs.set_modified Fs.sync_all
    entry_path Entry.millis Fs.syscall Private.ensure_dir_at Private.ensure_dir_loop
    Private.sync_dir insert saturating_add same_header erase Entry.at
test_stored = refl

test_directory : OwnDirectory test_inner after_store
unfolding store_locked Os.◌>>=◌ Os.now_ms one_entry Store.entry_of list_beq write_atomic
    Private.ensure_dir Os.attempt Fs.symlink_metadata lookup Private.owned Private.set_mode
    Os.lift_io Fs.set_permissions modify Files.or_drop Fs.write_all Fs.set_modified Fs.sync_all
    entry_path Entry.millis Fs.syscall Private.ensure_dir_at Private.ensure_dir_loop
    Private.sync_dir insert saturating_add same_header erase Entry.at
test_directory = record { dir = a_directory; there = refl; is_directory = refl; mine = refl }

cache_lookup-store_locked_example :
    (cache_lookup plain_external one_entry test_inner test_key (calm after_store)).0
    ≡ ok (
        promised plain_external plain_temporary_laws plain_read_laws one_entry one_entry_laws
          test_inner test_key policy
          (ascii "new")
          test_is_digest
          (omega arith)
          12
          (after_store.clock 0))
cache_lookup-store_locked_example =
    cache_lookup-store_locked plain_external plain_temporary_laws plain_read_laws one_entry
      one_entry_laws test_inner test_key policy (ascii "new") test_is_digest (omega arith)
      test_world (omega arith) test_stored test_directory

-- Another key's entry.
abbrev other_digest : Bytes
other_digest = ascii "f123456789abcdef0123456789abcdef0123456789abcdef0123456789abcdef"

other_is_digest : is_digest other_digest ≡ true
unfolding is_digest
other_is_digest = refl

-- The stored key's lock, and a world in which another process holds the other key's.
abbrev own_lock : KeyLock
own_lock = record {
  key = test_key;
  lock_file = record { path = lock_path test_inner test_key.digest };
}

abbrev contended : World
contended = record test_world {
  nodes = (entry_path test_inner other_digest, a_directory) ∷ test_world.nodes;
  held = lock_path test_inner other_digest ∷ test_world.held;
}

other_is_held : is_held (lock_path test_inner other_digest) contended.held ≡ true
unfolding is_held lock_path list_beq
other_is_held = refl

store_spares_example :
    data_in
      (entry_path test_inner other_digest)
      (store plain_external one_entry test_inner own_lock policy (ascii "new") contended).1.nodes
    ≡ data_in (entry_path test_inner other_digest) contended.nodes
store_spares_example =
    store_spares plain_external plain_laws plain_temporary_laws one_entry test_inner own_lock refl
      policy (ascii "new") other_digest other_is_digest (λ e. ground (arith, e)) contended
      (inl other_is_held)
