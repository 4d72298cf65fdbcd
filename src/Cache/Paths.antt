-- ===== src/Cache/Paths.antt =====
-- The paths of a cache are distinct: an entry's from the directories', the lock files', and those of
-- other digests and of temporary files.
use unixd.Prelude.{
  ◌+◌, ◌≡◌, ◌≢◌, refl, sym, ap, true, false, [], ◌∷◌, ◌++◌, Bytes, ascii, list_eq, nat_eq, ◌==◌,
  ==_iff, arith, length, length-append, Bool-cases, inl, inr, some, Option-cases,
}
use unixd.Cache.Os.{FilePath, join}
use unixd.Cache.Fs.{is_below}
use unixd.Cache.Entry.{
  Inner, entries_dir, locks_dir, entries_name, locks_name, entry_path, strip_suffix, strip_dot,
  entry_digest, is_digest, is_temporary,
}

pub ne→== : (p q : FilePath) → p ≢ q → (p == q) ≡ false
ne→== p q h = elim (Bool-cases (p == q)) [ inl e ↦ absurd (h ((==_iff p q).0 e)) | inr e ↦ e ]

pub join-ne_self : (p : FilePath) (name : Bytes) → join p name ≢ p
join-ne_self p name e = omega (arith, ap length e, length-append p (name ∷ []))

pub entry_path-ne-entries_dir :
    (inner : Inner) (digest : Bytes) → (entry_path inner digest == entries_dir inner) ≡ false
unfolding entry_path
entry_path-ne-entries_dir inner digest = ne→== _ _ (join-ne_self (entries_dir inner) _)

pub entries_dir-ne-entry_path :
    (inner : Inner) (digest : Bytes) → (entries_dir inner == entry_path inner digest) ≡ false
unfolding entry_path
entries_dir-ne-entry_path inner digest = ne→== _ _ (λ e. join-ne_self (entries_dir inner) _ (sym e))

pub join_inj : (p q : FilePath) (a b : Bytes) → join p a ≡ join q b → (p ≡ q) × (a ≡ b)
join_inj [] [] a b e = (refl, cc)
join_inj [] (y ∷ q) a b e = absurd (omega (arith, ap length e, length-append q (b ∷ [])))
join_inj (x ∷ p) [] a b e = absurd (omega (arith, ap length e, length-append p (a ∷ [])))
join_inj (x ∷ p) (y ∷ q) a b e = let (r, s) = join_inj p q a b (cc) in (cc, s)

pub length-join : (p : FilePath) (name : Bytes) → length (join p name) ≡ length p + 1
length-join p name = length-append p (name ∷ [])

-- Below a path of its own length there is only the path itself.
pub is_below_level : (p q : FilePath) → length p ≡ length q → is_below p q ≡ true → p ≡ q
unfolding is_below
is_below_level [] [] h e = refl
is_below_level [] (y ∷ q) h e = absurd (omega arith)
is_below_level (x ∷ p) [] h e = cc
is_below_level (x ∷ p) (y ∷ q) h e =
    let r = is_below_level p q (omega arith) in ground (arith, ==_iff x y, r)

locks-ne-entries : locks_name ≢ entries_name
locks-ne-entries e = ground (arith, e)

-- What lies in the directory of locks is no entry.
pub lock-ne-entry :
    (inner : Inner) (name digest : Bytes) → join (locks_dir inner) name ≢ entry_path inner digest
unfolding entry_path
lock-ne-entry inner name digest e =
    locks-ne-entries
      (join_inj inner.root inner.root locks_name entries_name
        (join_inj (locks_dir inner) (entries_dir inner) name _ e).0).1

pub locks_dir-ne-entry :
    (inner : Inner) (digest : Bytes) → locks_dir inner ≢ entry_path inner digest
unfolding entry_path
locks_dir-ne-entry inner digest e = omega (
  arith,
  ap length e,
  length-join inner.root locks_name,
  length-join inner.root entries_name,
  length-join (entries_dir inner) (digest ++ ascii ".json"),
)

-- A path in the directory of entries that is a digest's has the digest's file name.
pub in_entries_inj :
    (inner : Inner) (name digest : Bytes)
    → join (entries_dir inner) name ≡ entry_path inner digest
    → name ≡ digest ++ ascii ".json"
unfolding entry_path
in_entries_inj inner name digest e = (join_inj (entries_dir inner) (entries_dir inner) name _ e).1

pub in_entries_below :
    (inner : Inner) (name digest : Bytes)
    → is_below (join (entries_dir inner) name) (entry_path inner digest) ≡ true
    → join (entries_dir inner) name ≡ entry_path inner digest
unfolding entry_path
in_entries_below inner name digest b =
    is_below_level _ _
      (omega (
        arith,
        length-join (entries_dir inner) name,
        length-join (entries_dir inner) (digest ++ ascii ".json"),
      ))
      b

pub in_locks_below :
    (inner : Inner) (name digest : Bytes)
    → is_below (join (locks_dir inner) name) (entry_path inner digest) ≡ false
unfolding entry_path
in_locks_below inner name digest =
    elim (Bool-cases (is_below (join (locks_dir inner) name) (entry_path inner digest))) [
      | inl b ↦ absurd (
          lock-ne-entry inner name digest (
            is_below_level _ _
              (omega (
                arith,
                length-join (locks_dir inner) name,
                length-join (entries_dir inner) (digest ++ ascii ".json"),
                length-join inner.root locks_name,
                length-join inner.root entries_name,
              ))
              b))
      | inr b ↦ b
    ]

strip_suffix-some :
    (suffix name rest : Bytes) → strip_suffix suffix name ≡ some rest → name ≡ rest ++ suffix
unfolding strip_suffix
strip_suffix-some suffix [] rest h = ground (arith, ==_iff [] suffix)
strip_suffix-some suffix (b ∷ name) rest h = elim (Option-cases (strip_suffix suffix name)) [
  | inl n ↦ ground (arith, ==_iff (b ∷ name) suffix)
  | inr (r, e) ↦ ground (arith, ==_iff (b ∷ name) suffix, strip_suffix-some suffix name r e)
]

pub entry_digest-some :
    (name digest : Bytes) → entry_digest name ≡ some digest → name ≡ digest ++ ascii ".json"
unfolding entry_digest
entry_digest-some name digest h = elim (Option-cases (strip_suffix (ascii ".json") name)) [
  | inl n ↦ absurd (ground (arith, n))
  | inr (r, e) ↦ let s = strip_suffix-some (ascii ".json") name r e in ground (arith, e, s)
]

-- A temporary file's name begins with a dot, and a digest does not.
pub temporary-ne-entry :
    (name digest : Bytes)
    → is_temporary name ≡ true
    → is_digest digest ≡ true
    → name ≢ digest ++ ascii ".json"
unfolding is_temporary is_digest strip_dot
temporary-ne-entry name [] t d e = ground arith
temporary-ne-entry [] (c ∷ digest) t d e = cc
temporary-ne-entry (b ∷ name) (c ∷ digest) t d e = ground arith
