-- ===== src/Cache/Entry/ScanLaws.antt =====
-- The search of `read_header` of crates/unixd-cache/src/cache.rs by blocks, and by one look at the text.
use mathlib.Core.List.{append_assoc, append-nil}
use unixd.Prelude.{
  ok, ℕ, zero, suc, ◌+◌, ◌-◌, ◌≤◌, ◌<◌, ◌≡◌, refl, ◌∙◌, ap, true, ◌&&◌, List, [], ◌∷◌, ◌++◌, Option,
  none, some, Bytes, ascii, nat_eq, length, take, drop, arith, inl, inr, Bool-cases, Option-cases,
  length-drop, take-append-drop,
}
use unixd.Cache.Os.{World, FilePath, Node, ◌>>=◌, attempt}
use unixd.Cache.Fs.{at_path, symlink_metadata}
use unixd.Cache.Entry.Scan.{
  value_key, begins, position, scan, split_at, chunks_of, read_header_text,
}

begins-append : (key xs ys : Bytes) → length key ≤ length xs → begins key (xs ++ ys) ≡ begins key xs
unfolding begins
begins-append [] xs ys h = refl
begins-append (k ∷ key) [] ys h = absurd (omega arith)
begins-append (k ∷ key) (x ∷ xs) ys h =
    ap (λ b. nat_eq.eqb k x && b) (begins-append key xs ys (omega arith))

begins-length : (key xs : Bytes) → begins key xs ≡ true → length key ≤ length xs
unfolding begins
begins-length [] xs h = omega arith
begins-length (k ∷ key) [] h = cc
begins-length (k ∷ key) (x ∷ xs) h = ground (arith, begins-length key xs)

-- An occurrence lies within the text.
position-length : (key xs : Bytes) (i : ℕ) → position key xs ≡ some i → i + length key ≤ length xs
unfolding position
position-length key [] i h = ground (arith, begins-length key [])
position-length key (x ∷ xs) i h = elim (Bool-cases (begins key (x ∷ xs))) [
  | inl b ↦ ground (arith, begins-length key (x ∷ xs))
  | inr b ↦ elim (Option-cases (position key xs)) [
    | inl n ↦ ground arith
    | inr (j, e) ↦ let r = position-length key xs j e in ground arith
  ]
]

abbrev shift : ℕ → Option ℕ → Option ℕ
shift d none = none
shift d (some i) = some (d + i)

shift-zero : (o : Option ℕ) → o ≡ shift 0 o
shift-zero none = refl
shift-zero (some i) = ap some (omega arith)

module _ (k : ℕ) (tail : Bytes) where
  abbrev key : Bytes
  key = k ∷ tail

  -- More text after the first occurrence does not move it.
  position-append_some :
      (xs ys : Bytes) (i : ℕ) → position key xs ≡ some i → position key (xs ++ ys) ≡ some i
  unfolding position begins
  position-append_some [] ys i h = cc
  position-append_some (x ∷ xs) ys i h =
      let fits = position-length key (x ∷ xs) i h in
      let same = begins-append key (x ∷ xs) ys (omega arith) in
      elim (Option-cases (position key xs)) [
        | inl n ↦ ground arith
        | inr (j, e) ↦ let r = position-append_some xs ys j e in ground arith
      ]

  -- With no occurrence in what was read, the search may start one byte short of a key before its end.
  position-drop :
      (d : ℕ) (xs ys : Bytes)
      → d ≤ length xs - length tail
      → position key xs ≡ none
      → position key (xs ++ ys) ≡ shift d (position key (drop d (xs ++ ys)))
  unfolding position begins
  position-drop zero xs ys h n = shift-zero _
  position-drop (suc d) [] ys h n = absurd (omega arith)
  position-drop (suc d) (x ∷ xs) ys h n =
      let same = begins-append key (x ∷ xs) ys (omega arith) in
      let r = position-drop d xs ys (omega arith) (ground arith) in
      elim (Option-cases (position key (drop d (xs ++ ys)))) [
        | inl e ↦ ground arith
        | inr (j, e) ↦ ground arith
      ]

take-append {ℓ} :
    {A : Type ℓ} (n : ℕ) (xs ys : List A) → n ≤ length xs → take n (xs ++ ys) ≡ take n xs
take-append zero xs ys h = refl
take-append (suc n) [] ys h = absurd (omega arith)
take-append (suc n) (x ∷ xs) ys h = ap (λ t. x ∷ t) (take-append n xs ys (omega arith))

abbrev cut : Bytes → Option ℕ → Option Bytes
cut text none = none
cut text (some end) = some (take end text ++ b'}' ∷ [])

-- One search of a whole text, cut before the key and closed.
unfoldable pub header_text : Bytes → Option Bytes
header_text text = cut text (position value_key text)

abbrev pub concat : List Bytes → Bytes
concat [] = []
concat (chunk ∷ chunks) = chunk ++ concat chunks

module _ (w : World) (quiet : w.faults ≡ []) where
  scan-eq-header_text :
      (seen : Bytes) (chunks : List Bytes)
      → position value_key seen ≡ none
      → scan seen chunks w ≡ (ok (header_text (seen ++ concat chunks)), w)
  unfolding scan header_text ◌>>=◌
  scan-eq-header_text seen [] n = rw (append-nil seen) (ground arith)
  scan-eq-header_text seen (chunk ∷ chunks) n =
      let start = length seen - (length value_key - 1) in
      let all = seen ++ chunk in
      let step = position-drop b',' (ascii "\"value\":") start seen chunk (omega arith) n in
      rw (← append_assoc seen chunk (concat chunks))
        (elim (Option-cases (position value_key (drop start all))) [
          | inl e ↦
              let later = scan-eq-header_text all chunks (step ∙ ap (shift start) e) in ground arith
          | inr (end, e) ↦
              let here : position value_key all ≡ some (start + end) = step ∙ ap (shift start) e in
              let there =
                position-append_some b',' (ascii "\"value\":") all (concat chunks) (start + end)
                  here in
              let fits = position-length value_key all (start + end) here in
              let same = take-append (start + end) all (concat chunks) (omega arith) in ground arith
        ])

  -- However the file's reader splits an entry into chunks, when no read fails, `read_header` parses
  -- the text before the first `,"value":`, closed by a brace, or finds none where the text has no
  -- such key.
  pub scan-chunks : (chunks : List Bytes) → scan [] chunks w ≡ (ok (header_text (concat chunks)), w)
  scan-chunks chunks = scan-eq-header_text [] chunks (unfold position begins in refl)

concat-split_at :
    (fuel size : ℕ) (bytes : Bytes)
    → length bytes ≤ fuel
    → 0 < size
    → concat (split_at fuel size bytes) ≡ bytes
unfolding split_at
concat-split_at zero size [] h p = refl
concat-split_at zero size (b ∷ bytes) h p = absurd (omega arith)
concat-split_at (suc fuel) size [] h p = refl
concat-split_at (suc fuel) size (b ∷ bytes) h p =
    rw
      (concat-split_at fuel size (drop size (b ∷ bytes))
        (omega (arith, length-drop size (b ∷ bytes))) p)
      (take-append-drop size (b ∷ bytes))

-- When no call fails, `read_header` reads of a file at most `limit` bytes, in blocks, and parses the
-- text before the first `,"value":` in them, closed by a brace; where they have no such key it finds
-- nothing. A key that lies across two blocks is found like any other.
pub read_header_text_lem :
    (path : FilePath) (limit : ℕ) (w : World) (node : Node)
    → w.faults ≡ []
    → at_path path w ≡ some node
    → read_header_text path limit w ≡ (ok (header_text (take limit node.content)), w)
unfolding read_header_text symlink_metadata ◌>>=◌ attempt
read_header_text_lem path limit w node quiet there =
    let blocks =
      concat-split_at (length (take limit node.content)) 8192 (take limit node.content)
        (omega arith) (omega arith) in
    let read = scan-chunks w quiet (chunks_of 8192 (take limit node.content)) in ground arith
