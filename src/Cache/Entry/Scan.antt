-- ===== src/Cache/Entry/Scan.antt =====
-- `read_header` of crates/unixd-cache/src/cache.rs: the text of an entry up to its `value` key.
use unixd.Prelude.{
  ℕ, zero, suc, ◌+◌, ◌-◌, Bool, true, false, ◌&&◌, List, [], ◌∷◌, ◌++◌, Option, none, some, Bytes,
  ascii, nat_eq, ◌==◌, if◌then◌else◌, length, take, drop, Result, ok, err,
}
use unixd.Cache.Error.{Error, ErrorKind}
use unixd.Cache.Os.{M, FilePath, Node, pure, ◌>>=◌, ◌>>◌, attempt}
use unixd.Cache.Fs.{syscall, symlink_metadata}

abbrev pub value_key : Bytes
value_key = ascii ",\"value\":"

-- Whether the bytes begin with the key: one window of `windows(len)`.
unfoldable pub begins : Bytes → Bytes → Bool
begins [] bytes = true
begins (k ∷ key) [] = false
begins (k ∷ key) (b ∷ bytes) = k == b && begins key bytes

-- `windows(key.len()).position(|window| window == key)`
unfoldable pub position : Bytes → Bytes → Option ℕ
unfolding begins
position key [] = if begins key [] then some 0 else none
position key (b ∷ bytes) =
    if begins key (b ∷ bytes)
    then some 0
    else elim (position key bytes) [ none ↦ none | some i ↦ some (suc i) ]

abbrev as_option : {A : Type 0} → Result ErrorKind A → Option A
as_option (ok a) = some a
as_option (err _) = none

-- One `fill_buf`: the next chunk, unless the read fails.
unfoldable pub fill_buf : Bytes → M Error (Option Bytes)
unfolding syscall
fill_buf chunk w = let (r, w') = syscall (pure chunk) w in (ok (as_option r), w')

-- What a round of the loop answers: the text found, or the rest of the loop.
unfoldable pub scanned : Bytes → ℕ → M Error (Option Bytes) → Option ℕ → M Error (Option Bytes)
scanned all start rest none = rest
scanned all start rest (some end) = pure (some (take (start + end) all ++ b'}' ∷ []))

unfoldable pub scan_chunk : Bytes → M Error (Option Bytes) → Option Bytes → M Error (Option Bytes)
unfolding position scanned
scan_chunk seen rest none = pure none
scan_chunk seen rest (some chunk) =
    let start = length seen - (length value_key - 1) in
    scanned (seen ++ chunk) start rest (position value_key (drop start (seen ++ chunk)))

-- The loop over the chunks that the file's reader gives; the file ends with the list. The search
-- starts so far back in what was read before that a key across the border is found.
unfoldable pub scan : Bytes → List Bytes → M Error (Option Bytes)
unfolding fill_buf scan_chunk
scan seen [] = do fill_buf []; pure none
scan seen (chunk ∷ chunks) =
    let rest = scan (seen ++ chunk) chunks in do read ← fill_buf chunk; scan_chunk seen rest read

-- `BufReader` reads its file in blocks of 8 KiB.
unfoldable pub split_at : ℕ → ℕ → Bytes → List Bytes
split_at zero size bytes = []
split_at (suc fuel) size [] = []
split_at (suc fuel) size (b ∷ bytes) =
    take size (b ∷ bytes) ∷ split_at fuel size (drop size (b ∷ bytes))

unfoldable pub chunks_of : ℕ → Bytes → List Bytes
unfolding split_at
chunks_of size bytes = split_at (length bytes) size bytes

unfoldable pub scan_opened : ℕ → Result ErrorKind Node → M Error (Option Bytes)
unfolding scan chunks_of
scan_opened limit (err _) = pure none
scan_opened limit (ok node) = scan [] (chunks_of 8192 (take limit node.content))

unfoldable pub read_header_text : FilePath → ℕ → M Error (Option Bytes)
unfolding scan_opened
read_header_text path limit = do opened ← attempt (symlink_metadata path); scan_opened limit opened
