-- ===== src/Cache/Key.antt =====
-- crates/unixd-cache/src/key.rs: a key is a namespace and the digest of its named parts. The SHA-256
-- hasher is the crate sha2's, a parameter; `BTreeMap` is an association list sorted by name.
pub mod Order
pub mod Encoding
pub mod Digest
use Prim.Native.Nat.{compare, Ordering}
use unixd.Prelude.{
  ℕ, zero, suc, ◌+◌, ◌/◌, ◌%◌, ◌≤◌, min, Bytes, ascii, List, [], ◌∷◌, ◌++◌, Option, none, some,
  Result, ok, err, length, u64_max,
}
use unixd.Cache.Error.{Error, duplicate_key_part}

-- What the crate sha2 gives.
pub record Sha256 : Type 1 where
  pub Hasher : Type 0
  pub start : Hasher
  pub update : Hasher → Bytes → Hasher
  pub finalize : Hasher → Bytes

abbrev pub format : ℕ
format = 1

pub record Key : Type 0 where
  pub namespace : Bytes
  pub digest : Bytes

abbrev pub Parts : Type 0
Parts = List (Bytes × Bytes)

pub record KeyBuilder : Type 0 where
  pub namespace : Bytes
  pub parts : Parts

unfoldable pub builder : Bytes → KeyBuilder
builder namespace = record { namespace = namespace; parts = [] }

-- `str` compares byte by byte.
unfoldable pub compare_bytes : Bytes → Bytes → Ordering
compare_bytes [] [] = Ordering.eq
compare_bytes [] (y ∷ ys) = Ordering.lt
compare_bytes (x ∷ xs) [] = Ordering.gt
compare_bytes (x ∷ xs) (y ∷ ys) = elim (compare x y) [
  | Ordering.lt ↦ Ordering.lt
  | Ordering.gt ↦ Ordering.gt
  | Ordering.eq ↦ compare_bytes xs ys
]

-- `BTreeMap::insert`: the map, and the value that was there.
unfoldable pub insert : Bytes → Bytes → Parts → Option Bytes × Parts
insert name value [] = (none, (name, value) ∷ [])
insert name value ((k, v) ∷ rest) =
    let below = insert name value rest in
    elim (compare_bytes name k) [
      | Ordering.lt ↦ (none, (name, value) ∷ (k, v) ∷ rest)
      | Ordering.eq ↦ (some v, (k, value) ∷ rest)
      | Ordering.gt ↦ (below.0, (k, v) ∷ below.1)
    ]

unfoldable pub part : KeyBuilder → Bytes → Bytes → Result Error KeyBuilder
part self name value =
    let (old, parts) = insert name value self.parts in
    elim old [ some _ ↦ err (duplicate_key_part name) | none ↦ ok (record self { parts = parts }) ]

-- `u64::to_le_bytes`, for any count of bytes.
unfoldable pub le_bytes : ℕ → ℕ → Bytes
le_bytes zero n = []
le_bytes (suc k) n = n % 256 ∷ le_bytes k (n / 256)

-- The nibble's digit; a byte's nibbles stay below 16.
unfoldable pub digit : ℕ → Bytes → ℕ
digit n [] = 0
digit zero (d ∷ ds) = d
digit (suc n) (d ∷ ds) = digit n ds

abbrev pub digits : Bytes
digits = ascii "0123456789abcdef"

unfoldable pub hex : Bytes → Bytes
hex [] = []
hex (byte ∷ bytes) = digit (byte / 16) digits ∷ digit (byte % 16) digits ∷ hex bytes

module _ (sha : Sha256) where
  open sha use {Hasher, start, update, finalize}

  unfoldable pub feed : Hasher → Bytes → Hasher
  feed hasher field = update (update hasher (le_bytes 8 (min (length field) u64_max))) field

  -- The loop of `build` over the sorted parts.
  unfoldable pub feed_parts : Hasher → Parts → Hasher
  feed_parts hasher [] = hasher
  feed_parts hasher ((name, value) ∷ rest) = feed_parts (feed (feed hasher name) value) rest

  unfoldable pub build : KeyBuilder → Key
  unfolding feed feed_parts
  build self = record {
    namespace = self.namespace;
    digest =
        hex (finalize (feed_parts (feed (update start (format ∷ [])) self.namespace) self.parts));
  }
