-- ===== src/Tests/ErrorRuns.antt =====
-- The theorem on the texts of the cache's errors, for short texts of the kinds.
use unixd.Prelude.{◌≡◌, refl, [], ◌∷◌, Bytes, ascii}
use unixd.Cache.Error.{ErrorKind, duplicate_key_part, not_found, already_exists, other}
use unixd.Cache.Error.Texts.{display, display_inj}

abbrev short_text : ErrorKind → Bytes
short_text not_found = []
short_text already_exists = b'a' ∷ []
short_text (other n) = b'a' ∷ n ∷ []

short_texts_distinct : (k k' : ErrorKind) → short_text k ≡ short_text k' → k ≡ k'
short_texts_distinct not_found not_found e = refl
short_texts_distinct not_found already_exists e = absurd (cc)
short_texts_distinct not_found (other n) e = absurd (cc)
short_texts_distinct already_exists not_found e = absurd (cc)
short_texts_distinct already_exists already_exists e = refl
short_texts_distinct already_exists (other n) e = absurd (cc)
short_texts_distinct (other n) not_found e = absurd (cc)
short_texts_distinct (other n) already_exists e = absurd (cc)
short_texts_distinct (other n) (other m) e = cc

test_text :
    display short_text (duplicate_key_part (ascii "path")) ≡ ascii "key part `path` given twice"
unfolding display
test_text = refl

display_inj_example : duplicate_key_part (ascii "path") ≡ duplicate_key_part (ascii "path")
display_inj_example =
    display_inj short_text short_texts_distinct (duplicate_key_part (ascii "path"))
      (duplicate_key_part (ascii "path")) refl
