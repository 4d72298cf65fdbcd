-- ===== src/Tests/KeyRuns.antt =====
-- The theorems on keys, with a hash that keeps its message, each byte below 256.
use mathlib.Core.List.{Permᴰ}
use unixd.Prelude.{◌%◌, ◌≡◌, ◌<◌, refl, [], ◌∷◌, ◌++◌, ok, Bytes, ascii, All, arith}
use unixd.Cache.Key.{Sha256, KeyBuilder, Parts, builder, part, insert, compare_bytes}
use unixd.Cache.Key.Order.{add_parts, add_parts-perm}
use unixd.Cache.Key.Digest.{Sha256Laws, build_inj}

abbrev wrap : Bytes → Bytes
wrap [] = []
wrap (b ∷ bytes) = b % 256 ∷ wrap bytes

wrap_bytes : (m : Bytes) → All (λ b. b < 256) (wrap m)
wrap_bytes [] = tt
wrap_bytes (b ∷ bytes) = (omega arith, wrap_bytes bytes)

abbrev toy_sha : Sha256
toy_sha = record { Hasher = Bytes; start = []; update = λ h m. h ++ m; finalize = wrap }

toy_laws : Sha256Laws toy_sha
toy_laws = record {
  digest = wrap;
  reads = λ h. h;
  reads-start = refl;
  reads-update = λ h m. refl;
  finalize-reads = λ h. refl;
  digest_bytes = wrap_bytes;
}

abbrev test_parts : Parts
test_parts = (ascii "kind", ascii "user") ∷ (ascii "id", ascii "42") ∷ []

abbrev swapped_parts : Parts
swapped_parts = (ascii "id", ascii "42") ∷ (ascii "kind", ascii "user") ∷ []

abbrev test_builder : KeyBuilder
test_builder = record { namespace = ascii "ns"; parts = swapped_parts }

build_inj_example : test_builder ≡ test_builder
build_inj_example =
    build_inj toy_sha toy_laws test_builder test_builder
      (omega arith, ((omega arith, omega arith), ((omega arith, omega arith), tt)))
      (omega arith, ((omega arith, omega arith), ((omega arith, omega arith), tt))) (λ e. refl) refl

test_added : add_parts (builder (ascii "ns")) test_parts ≡ ok test_builder
unfolding add_parts builder part insert compare_bytes
test_added = refl

add_parts-perm_example : add_parts (builder (ascii "ns")) swapped_parts ≡ ok test_builder
add_parts-perm_example =
    add_parts-perm (builder (ascii "ns")) test_builder test_parts swapped_parts
      (∣ Permᴰ.swap refl refl ∣₁) test_added
