-- ===== src/Cache/Key/Digest.antt =====
-- The digest of a key of crates/unixd-cache/src/key.rs through the hasher, and what sha2 documents.
use mathlib.Core.List.{append_assoc, append-nil}
use unixd.Prelude.{◌<◌, ◌≡◌, sym, ◌∙◌, ap, Bytes, [], ◌∷◌, ◌++◌, All}
use unixd.Cache.Key.{Sha256, KeyBuilder, Parts, hex, feed, feed_parts, build}
use unixd.Cache.Key.Encoding.{fields, frame, frames, message, message_inj, hex_inj, Fits}

-- What the crate sha2 documents: successive updates hash what one update of their concatenation
-- does, and a digest is bytes.
pub record Sha256Laws (sha : Sha256) : Type 0 where
  pub digest : Bytes → Bytes
  pub reads : sha.Hasher → Bytes
  pub reads-start : reads sha.start ≡ []
  pub reads-update : (h : sha.Hasher) (m : Bytes) → reads (sha.update h m) ≡ reads h ++ m
  pub finalize-reads : (h : sha.Hasher) → sha.finalize h ≡ digest (reads h)
  pub digest_bytes : (m : Bytes) → All (λ b. b < 256) (digest m)

module _ (sha : Sha256) (laws : Sha256Laws sha) where
  open sha use {Hasher, start, update, finalize}
  open laws use {digest, reads, reads-start, reads-update, finalize-reads, digest_bytes}

  reads-feed : (h : Hasher) (f : Bytes) → reads (feed sha h f) ≡ reads h ++ frame f
  unfolding feed
  reads-feed h f = simp (reads-update, append_assoc)

  reads-feed_parts :
      (h : Hasher) (ps : Parts) → reads (feed_parts sha h ps) ≡ reads h ++ frames (fields ps)
  unfolding feed_parts
  reads-feed_parts h [] = sym (append-nil _)
  reads-feed_parts h ((n, v) ∷ ps) =
      reads-feed_parts (feed sha (feed sha h n) v) ps ∙ simp (reads-feed, append_assoc)

  -- `build` hashes `message`.
  pub build-message : (b : KeyBuilder) → (build sha b).digest ≡ hex (digest (message b))
  unfolding build
  build-message b = ap hex (
      finalize-reads _
      ∙ ap digest
          (reads-feed_parts _ b.parts ∙ simp (reads-feed, reads-update, reads-start, append_assoc)))

  -- Two builders whose texts fit in memory have the same digest only if they have the same namespace
  -- and the same parts, provided that the hash does not collide on their two messages.
  pub build_inj :
      (b c : KeyBuilder)
      → Fits b
      → Fits c
      → (digest (message b) ≡ digest (message c) → message b ≡ message c)
      → (build sha b).digest ≡ (build sha c).digest
      → b ≡ c
  build_inj b c hb hc no_collision e = message_inj b c hb hc (
      no_collision (
        hex_inj _ _ (digest_bytes _) (digest_bytes _)
          (sym (build-message b) ∙ e ∙ build-message c)))
