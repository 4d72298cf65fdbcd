-- ===== src/Cache/Private/ReadResult.antt =====
-- What `private::read` of crates/unixd-cache/src/private.rs returns.
use unixd.Prelude.{
  ℕ, ◌+◌, ◌≤◌, ◌≡◌, sym, ◌∙◌, ap, true, false, not, ◌||◌, List, [], ◌∷◌, Option, none, some, Result,
  ok, err, Bytes, list_eq, nat_eq, arith, length, take, take-length, saturating_add, u64_max, min,
  inl, inr, Bool-cases, Result-cases, ltb, if◌then◌else◌,
}
use unixd.Cache.Error.{Error, ErrorKind, not_found, already_exists, other}
use unixd.Cache.Os.{FilePath, Node, Handle, World, M, is_file, pure, attempt, lift_io}
use unixd.Cache.Fs.{External, read_only, syscall, take_fault, metadata, symlink_metadata, at_path}
use unixd.Cache.Effects.{bind_ok}
use unixd.Cache.ExternalLaws.{OpenLaws}
use unixd.Cache.Private.Files
use unixd.Cache.Private.Files.{read_opened, read_refused, read_to_end}

syscall-pure : {A : Type 0} (a b : A) (w : World) → (syscall (pure a) w).0 ≡ ok b → a ≡ b
unfolding syscall
syscall-pure a b w h = go w.faults h
  where
    go : (fs : List (Option ErrorKind)) → (take_fault fs (pure a) w).0 ≡ ok b → a ≡ b
    go [] h = cc
    go (none ∷ fs) h = cc
    go (some k ∷ fs) h = cc

pub lift_ok :
    {A : Type 0} (m : M ErrorKind A) (w : World) (a : A) → (lift_io m w).0 ≡ ok a → (m w).0 ≡ ok a
unfolding lift_io
lift_ok m w a h = elim (Result-cases (m w).0) [
  | inl (b, e) ↦ ground (arith, e)
  | inr (k, e) ↦ absurd (ground (arith, e))
]

-- What a successful read of a file is.
pub record Opened (limit : ℕ) (bytes : Bytes) (node : Node) (found : Option Node) : Type 0 where
  pub there : found ≡ some node
  pub regular : is_file node.file_type ≡ true
  pub within : length node.content ≤ limit
  pub whole : bytes ≡ node.content

pub metadata_ok : (h : Handle) (w : World) (m : Node) → (metadata h w).0 ≡ ok m → h.node ≡ m
unfolding metadata
metadata_ok h w m e = syscall-pure h.node m w e

read_to_end_ok :
    (h : Handle) (n : ℕ) (w : World) (b : Bytes)
    → (read_to_end h n w).0 ≡ ok b
    → b ≡ take n h.node.content
unfolding read_to_end
read_to_end_ok h n w b e = sym (syscall-pure (take n h.node.content) b w e)

accepted :
    (limit : ℕ) (m : Node) (b bytes : Bytes) (node : Node) (found : Option Node)
    → limit ≤ u64_max
    → (not (is_file m.file_type) || ltb limit (length m.content)) ≡ false
    → found ≡ some m
    → b ≡ take (saturating_add limit 1) m.content
    → ◌≡◌ {A = Result Error (Option (Bytes × Node))}
        (ok (if ltb limit (min (length b) u64_max) then none else some (b, m)))
        (ok (some (bytes, node)))
    → Opened limit bytes node found
unfolding saturating_add
accepted limit m b bytes node found small fits there taken e =
    let whole = take-length (min (limit + 1) u64_max) m.content in
    record {
      there = ground (arith, whole);
      regular = ground arith;
      within = ground arith;
      whole = ground (arith, whole);
    }

opened_ok :
    (p : FilePath) (limit : ℕ) (h : Handle) (w : World) (bytes : Bytes) (node : Node)
    → limit ≤ u64_max
    → (read_opened p limit (ok h) w).0 ≡ ok (some (bytes, node))
    → Opened limit bytes node (some h.node)
unfolding read_opened
opened_ok p limit h w bytes node small e =
    let (m, hm, rest) = bind_ok (lift_io (metadata h)) _ w e in
    let same = metadata_ok h w m (lift_ok (metadata h) w m hm) in
    elim (Bool-cases (not (is_file m.file_type) || ltb limit (length m.content))) [
      | inl refused ↦ cc (rw refused at rest)
      | inr fits ↦
          let (b, hb, last) =
            bind_ok (lift_io (read_to_end h (saturating_add limit 1))) _ _ (rw fits at rest) in
          let taken = read_to_end_ok h _ _ b (lift_ok _ _ b hb) in
          accepted limit m b bytes node (some h.node) small fits (ap some same)
            (taken ∙ ap (λ (n : Node). take (saturating_add limit 1) n.content) same) last
    ]

refused_ok :
    (k : ErrorKind) (r : Result ErrorKind Node) (w : World) (bytes : Bytes) (node : Node)
    → (read_refused k r w).0 ≡ ok (some (bytes, node))
    → ⊥
unfolding read_refused
refused_ok k (ok n) w bytes node e = ground arith
refused_ok k (err not_found) w bytes node e = cc
refused_ok k (err already_exists) w bytes node e = cc
refused_ok k (err (other i)) w bytes node e = cc

unopened_ok :
    (p : FilePath) (limit : ℕ) (k : ErrorKind) (w : World) (bytes : Bytes) (node : Node)
    → (read_opened p limit (err k) w).0 ≡ ok (some (bytes, node))
    → ⊥
unfolding read_opened
unopened_ok p limit not_found w bytes node e = cc
unopened_ok p limit already_exists w bytes node e =
    let (r, _, rest) = bind_ok (attempt (symlink_metadata p)) _ w e in
    refused_ok _ r _ bytes node rest
unopened_ok p limit (other i) w bytes node e =
    let (r, _, rest) = bind_ok (attempt (symlink_metadata p)) _ w e in
    refused_ok _ r _ bytes node rest

pub attempt_ok :
    {E F A : Type 0} (m : M E A) (w : World) (r : Result E A)
    → (attempt {F = F} m w).0 ≡ ok r
    → (m w).0 ≡ r
unfolding attempt
attempt_ok m w r e = cc

module _ (x : External) (laws : OpenLaws x) where
  -- A file that `private::read` returns is the regular file at the path, whole and within the limit.
  pub read_ok :
      (p : FilePath) (limit : ℕ) (w : World) (bytes : Bytes) (node : Node)
      → limit ≤ u64_max
      → (Files.read x p limit w).0 ≡ ok (some (bytes, node))
      → Opened limit bytes node (at_path p w)
  unfolding Files.read
  read_ok p limit w bytes node small e =
      let (r, hr, rest) = bind_ok (attempt (x.open_file read_only p)) _ w e in
      by_result r (attempt_ok (x.open_file read_only p) w r hr) rest
    where
      by_result :
          (r : Result ErrorKind Handle)
          → (x.open_file read_only p w).0 ≡ r
          → (read_opened p limit r (attempt {F = Error} (x.open_file read_only p) w).1).0
            ≡ ok (some (bytes, node))
          → Opened limit bytes node (at_path p w)
      by_result (ok h) opened rest =
          rw (laws.open_reads p w h opened) (opened_ok p limit h _ bytes node small rest)
      by_result (err k) opened rest = absurd (unopened_ok p limit k _ bytes node rest)
