-- ===== src/Cache/Error/Texts.antt =====
-- The texts of the errors of crates/unixd-cache/src/error.rs. The text of a kind of I/O error is the
-- standard library's.
use unixd.Prelude.{ℕ, zero, suc, ◌≡◌, refl, ap, [], ◌∷◌, ◌++◌, Bytes, ascii, arith, drop, ++_cancel}
use unixd.Cache.Error.{Error, ErrorKind, unsafe_root, io, lock, duplicate_key_part, encode}

-- `Display for Error`
unfoldable pub display : (ErrorKind → Bytes) → Error → Bytes
display kind_text unsafe_root = ascii "cache root is not a private directory"
display kind_text (io kind) = ascii "cache I/O failed: " ++ kind_text kind
display kind_text lock = ascii "cache lock could not be taken"
display kind_text (duplicate_key_part name) = ascii "key part `" ++ (name ++ ascii "` given twice")
display kind_text encode = ascii "value could not be serialized"

byte_at : ℕ → Bytes → ℕ
byte_at i [] = 0
byte_at zero (c ∷ text) = c
byte_at (suc i) (c ∷ text) = byte_at i text

-- The text tells which error it was: two errors have the same text only if they are the same, provided that
-- the texts of the kinds of I/O errors are distinct.
pub display_inj :
    (kind_text : ErrorKind → Bytes)
    → ((k k' : ErrorKind) → kind_text k ≡ kind_text k' → k ≡ k')
    → (x y : Error) → display kind_text x ≡ display kind_text y
    → x ≡ y
unfolding display byte_at
display_inj kind_text distinct unsafe_root unsafe_root e = refl
display_inj kind_text distinct unsafe_root (io k') e = absurd (omega (arith, ap (byte_at 6) e))
display_inj kind_text distinct unsafe_root lock e = absurd (omega (arith, ap (byte_at 6) e))
display_inj kind_text distinct unsafe_root (duplicate_key_part a') e =
    absurd (omega (arith, ap (byte_at 0) e))
display_inj kind_text distinct unsafe_root encode e = absurd (omega (arith, ap (byte_at 0) e))
display_inj kind_text distinct (io k) unsafe_root e = absurd (omega (arith, ap (byte_at 6) e))
display_inj kind_text distinct (io k) (io k') e = ap io (distinct k k' (ap (drop 18) e))
display_inj kind_text distinct (io k) lock e = absurd (omega (arith, ap (byte_at 6) e))
display_inj kind_text distinct (io k) (duplicate_key_part a') e =
    absurd (omega (arith, ap (byte_at 0) e))
display_inj kind_text distinct (io k) encode e = absurd (omega (arith, ap (byte_at 0) e))
display_inj kind_text distinct lock unsafe_root e = absurd (omega (arith, ap (byte_at 6) e))
display_inj kind_text distinct lock (io k') e = absurd (omega (arith, ap (byte_at 6) e))
display_inj kind_text distinct lock lock e = refl
display_inj kind_text distinct lock (duplicate_key_part a') e =
    absurd (omega (arith, ap (byte_at 0) e))
display_inj kind_text distinct lock encode e = absurd (omega (arith, ap (byte_at 0) e))
display_inj kind_text distinct (duplicate_key_part a) unsafe_root e =
    absurd (omega (arith, ap (byte_at 0) e))
display_inj kind_text distinct (duplicate_key_part a) (io k') e =
    absurd (omega (arith, ap (byte_at 0) e))
display_inj kind_text distinct (duplicate_key_part a) lock e =
    absurd (omega (arith, ap (byte_at 0) e))
display_inj kind_text distinct (duplicate_key_part a) (duplicate_key_part a') e =
    ap duplicate_key_part (++_cancel a a' (ascii "` given twice") (ap (drop 10) e))
display_inj kind_text distinct (duplicate_key_part a) encode e =
    absurd (omega (arith, ap (byte_at 0) e))
display_inj kind_text distinct encode unsafe_root e = absurd (omega (arith, ap (byte_at 0) e))
display_inj kind_text distinct encode (io k') e = absurd (omega (arith, ap (byte_at 0) e))
display_inj kind_text distinct encode lock e = absurd (omega (arith, ap (byte_at 0) e))
display_inj kind_text distinct encode (duplicate_key_part a') e =
    absurd (omega (arith, ap (byte_at 0) e))
display_inj kind_text distinct encode encode e = refl
