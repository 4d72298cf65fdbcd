-- ===== src/Cache/Entry.antt =====
-- crates/unixd-cache/src/cache.rs: the limits, the entry as it is written and read, and the file names.
-- File names are UTF-8 texts, as bytes; serde_json is a parameter.
pub mod Scan
pub mod ScanLaws
use unixd.Prelude.{
  ℕ, ◌+◌, ◌*◌, ◌/◌, ◌^◌, min, Bool, true, false, ◌&&◌, ◌||◌, List, [], ◌∷◌, ◌++◌, Option, none,
  some, Bytes, ascii, list_eq, nat_eq, ◌==◌, if◌then◌else◌, leb, length, u64_max, saturating_sub,
  Duration, from_secs,
}
use unixd.Cache.Error.{Error}
use unixd.Cache.Policy.{Source}
use unixd.Cache.Key.{Key, format}
use unixd.Cache.Os.{FilePath, Node, join}

pub record Limits : Type 0 where
  pub max_entry_bytes : ℕ
  pub hard_entries : ℕ
  pub hard_bytes : ℕ
  pub target_entries : ℕ
  pub target_bytes : ℕ
  pub unused_after : Duration
  pub sweep_every : Duration
  pub touch_after : Duration

abbrev pub from_hours : ℕ → Duration
from_hours hours = from_secs (hours * 3600)

abbrev pub default_limits : Limits
default_limits = record {
  max_entry_bytes = 8 * 1024 * 1024;
  hard_entries = 10_000;
  hard_bytes = 256 * 1024 * 1024;
  target_entries = 8_000;
  target_bytes = 200 * 1024 * 1024;
  unused_after = from_hours (30 * 24);
  sweep_every = from_hours 24;
  touch_after = from_hours 1;
}

-- `u64::try_from(duration.as_millis()).unwrap_or(u64::MAX)`
unfoldable pub millis : Duration → ℕ
millis duration = min (duration / 1_000_000) u64_max

-- `modified_ms`: 0 for a time before the epoch.
unfoldable pub modified_ms : Node → ℕ
unfolding millis
modified_ms metadata = elim metadata.modified [ none ↦ 0 | some time ↦ millis time ]

-- `at`, in nanoseconds since the epoch.
unfoldable pub at : ℕ → ℕ
at ms = ms * 1_000_000

-- The entry as written.
pub record Written (T : Type 0) : Type 0 where
  pub format : ℕ
  pub schema : ℕ
  pub namespace : Bytes
  pub digest : Bytes
  pub stored_at_ms : ℕ
  pub fresh_until_ms : ℕ
  pub stale_until_ms : ℕ
  pub source : Source
  pub value : T

-- Everything but the value.
pub record Header : Type 0 where
  pub format : ℕ
  pub schema : ℕ
  pub namespace : Bytes
  pub digest : Bytes
  pub stored_at_ms : ℕ
  pub fresh_until_ms : ℕ
  pub stale_until_ms : ℕ
  pub source : Source

unfoldable pub consistent : Header → Bool
consistent self =
    self.format == format
    && (leb self.stored_at_ms self.fresh_until_ms && leb self.fresh_until_ms self.stale_until_ms)

-- serde_json on the caller's value type and on the header.
pub record Serde (T : Type 0) : Type 0 where
  pub to_vec : Written T → Option Bytes
  pub header_from_slice : Bytes → Option Header
  pub value_from_slice : Bytes → Option T

pub record Cached (T : Type 0) : Type 0 where
  pub value : T
  pub stored_at_ms : ℕ
  pub age_ms : ℕ
  pub source : Source

pub data Lookup (T : Type 0) : Type 0 where
  miss : Lookup T
  fresh : Cached T → Lookup T
  stale : Cached T → Lookup T

-- `Usage`, and its `remove` with saturation.
pub record Usage : Type 0 where
  pub entries : ℕ
  pub bytes : ℕ

unfoldable pub remove_usage : Usage → ℕ → Usage
remove_usage self bytes = record {
  entries = saturating_sub self.entries 1;
  bytes = saturating_sub self.bytes bytes;
}

-- `Inner`; its clock is the world's.
pub record Inner : Type 0 where
  pub root : FilePath
  pub schema : ℕ
  pub limits : Limits

abbrev pub entries_name : Bytes
entries_name = ascii "entries"

abbrev pub locks_name : Bytes
locks_name = ascii "locks"

abbrev pub maintenance_name : Bytes
maintenance_name = ascii "maintenance.lock"

abbrev pub prune_lock_name : Bytes
prune_lock_name = ascii "prune.lock"

abbrev pub temporary_suffix : Bytes
temporary_suffix = ascii ".tmp"

abbrev pub entries_dir : Inner → FilePath
entries_dir inner = join inner.root entries_name

abbrev pub locks_dir : Inner → FilePath
locks_dir inner = join inner.root locks_name

unfoldable pub entry_path : Inner → Bytes → FilePath
entry_path inner digest = join (entries_dir inner) (digest ++ ascii ".json")

unfoldable pub lock_path : Inner → Bytes → FilePath
lock_path inner digest = join (locks_dir inner) (digest ++ ascii ".lock")

unfoldable pub is_ascii_hexdigit : ℕ → Bool
is_ascii_hexdigit byte =
    (leb b'0' byte && leb byte b'9')
    || ((leb b'a' byte && leb byte b'f') || (leb b'A' byte && leb byte b'F'))

unfoldable pub all_hex : Bytes → Bool
unfolding is_ascii_hexdigit
all_hex [] = true
all_hex (byte ∷ bytes) = is_ascii_hexdigit byte && all_hex bytes

unfoldable pub is_digest : Bytes → Bool
unfolding all_hex
is_digest digest = length digest == 64 && all_hex digest

unfoldable pub strip_suffix : Bytes → Bytes → Option Bytes
strip_suffix suffix [] = if [] == suffix then some [] else none
strip_suffix suffix (byte ∷ bytes) =
    if (byte ∷ bytes) == suffix
    then some []
    else elim (strip_suffix suffix bytes) [ none ↦ none | some rest ↦ some (byte ∷ rest) ]

-- `starts_with('.')` and `strip_prefix('.')`.
unfoldable pub strip_dot : Bytes → Option Bytes
strip_dot [] = none
strip_dot (byte ∷ bytes) = if byte == b'.' then some bytes else none

-- The first part of `split('.')`.
unfoldable pub until_dot : Bytes → Bytes
until_dot [] = []
until_dot (byte ∷ bytes) = if byte == b'.' then [] else byte ∷ until_dot bytes

keep_digest : Option Bytes → Option Bytes
keep_digest none = none
keep_digest (some digest) = if is_digest digest then some digest else none

-- `entry_digest` and `temporary_digest`, of the path's file name.
unfoldable pub entry_digest : Bytes → Option Bytes
unfolding keep_digest strip_suffix is_digest
entry_digest name = keep_digest (strip_suffix (ascii ".json") name)

unfoldable pub temporary_digest : Bytes → Option Bytes
unfolding keep_digest strip_dot until_dot is_digest
temporary_digest name = elim (strip_dot name) [
  | none ↦ none
  | some rest ↦ keep_digest (some (until_dot rest))
]

ends_with : Bytes → Bytes → Bool
ends_with suffix name = elim (strip_suffix suffix name) [ none ↦ false | some _ ↦ true ]

unfoldable pub is_temporary : Bytes → Bool
unfolding strip_dot ends_with strip_suffix
is_temporary name = elim (strip_dot name) [
  | none ↦ false
  | some _ ↦ ends_with temporary_suffix name
]
