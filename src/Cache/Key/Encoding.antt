-- ===== src/Cache/Key/Encoding.antt =====
-- What `build` of crates/unixd-cache/src/key.rs hashes: fields with their lengths in front.
use mathlib.Core.List.{append_assoc}
use mathlib.Core.Path.{ap₂}
use native.Mathlib.Nat.{pow-suc}
use unixd.Prelude.{
  ℕ, zero, suc, ◌+◌, ◌*◌, ◌/◌, ◌%◌, ◌^◌, ◌≤◌, ◌<◌, min, ◌≡◌, refl, sym, ◌∙◌, ap, Bytes, List, [],
  ◌∷◌, ◌++◌, arith, true, length, holds_under, holds_under-lt, ◌==◌, nat_eq, nat_beq_iff, ltb,
  if◌then◌else◌, ◌-◌, u64_max, All,
}
use unixd.Cache.Key.{KeyBuilder, Parts, format, le_bytes, digit, digits, hex}

-- What the bytes of `to_le_bytes` stand for.
from_le : Bytes → ℕ
from_le [] = 0
from_le (b ∷ bs) = b + 256 * from_le bs

from_le-le_bytes : (k n : ℕ) → n < 256 ^ k → from_le (le_bytes k n) ≡ n
unfolding from_le le_bytes
from_le-le_bytes zero n h = omega arith
from_le-le_bytes (suc k) n h =
    omega (arith, from_le-le_bytes k (n / 256) (omega (arith, pow-suc 256 k)))

length-le_bytes : (k n : ℕ) → length (le_bytes k n) ≡ k
unfolding le_bytes
length-le_bytes zero n = refl
length-le_bytes (suc k) n = ap suc (length-le_bytes k (n / 256))

append_inj {ℓ} :
    {A : Type ℓ} (xs ys : List A) (us vs : List A)
    → length xs ≡ length ys
    → xs ++ us ≡ ys ++ vs
    → (xs ≡ ys) × (us ≡ vs)
append_inj [] [] us vs h e = (refl, e)
append_inj [] (y ∷ ys) us vs h e = absurd (omega arith)
append_inj (x ∷ xs) [] us vs h e = absurd (omega arith)
append_inj (x ∷ xs) (y ∷ ys) us vs h e =
    let (p, q) = append_inj xs ys us vs (omega arith) (cc) in (cc, q)

-- One field as `feed` writes it.
abbrev pub frame : Bytes → Bytes
frame field = le_bytes 8 (min (length field) u64_max) ++ field

frame_inj :
    (f g : Bytes) (us vs : Bytes)
    → length f ≤ u64_max
    → length g ≤ u64_max
    → frame f ++ us ≡ frame g ++ vs
    → (f ≡ g) × (us ≡ vs)
frame_inj f g us vs hf hg e =
    let e' : le_bytes 8 (min (length f) u64_max) ++ (f ++ us)
        ≡ le_bytes 8 (min (length g) u64_max) ++ (g ++ vs) =
      sym (append_assoc _ f us) ∙ e ∙ append_assoc _ g vs in
    let (p, q) =
      append_inj (le_bytes 8 (min (length f) u64_max)) (le_bytes 8 (min (length g) u64_max))
        (f ++ us) (g ++ vs) (length-le_bytes 8 _ ∙ sym (length-le_bytes 8 _)) e' in
    append_inj f g us vs
      (omega (
        arith,
        from_le-le_bytes 8 (min (length f) u64_max) (omega arith),
        from_le-le_bytes 8 (min (length g) u64_max) (omega arith),
        ap from_le p,
      ))
      q

-- The fields that the hasher is fed, in order.
abbrev pub fields : Parts → List Bytes
fields [] = []
fields ((name, value) ∷ rest) = name ∷ value ∷ fields rest

abbrev pub frames : List Bytes → Bytes
frames [] = []
frames (f ∷ fs) = frame f ++ frames fs

-- Everything that is hashed for a builder.
abbrev pub message : KeyBuilder → Bytes
message b = format ∷ frames (b.namespace ∷ fields b.parts)

-- A text in memory is no longer than a `u64` counts.
abbrev pub IsShort : Bytes → Type 0
IsShort f = length f ≤ u64_max

abbrev pub Fits : KeyBuilder → Type 0
Fits b = IsShort b.namespace × All (λ (p : Bytes × Bytes). IsShort p.0 × IsShort p.1) b.parts

frame-ne-nil : (f us : Bytes) → frame f ++ us ≡ [] → ⊥
unfolding le_bytes
frame-ne-nil f us e = cc

frames_parts_inj :
    (ps qs : Parts)
    → All (λ (p : Bytes × Bytes). IsShort p.0 × IsShort p.1) ps
    → All (λ (p : Bytes × Bytes). IsShort p.0 × IsShort p.1) qs
    → frames (fields ps) ≡ frames (fields qs)
    → ps ≡ qs
frames_parts_inj [] [] hp hq e = refl
frames_parts_inj [] ((m, w) ∷ qs) hp hq e = absurd (frame-ne-nil m _ (sym e))
frames_parts_inj ((n, v) ∷ ps) [] hp hq e = absurd (frame-ne-nil n _ e)
frames_parts_inj ((n, v) ∷ ps) ((m, w) ∷ qs) ((hn, hv), hp) ((hm, hw), hq) e =
    let (p, e') =
      frame_inj n m (frame v ++ frames (fields ps)) (frame w ++ frames (fields qs)) hn hm e in
    let (q, e'') = frame_inj v w _ _ hv hw e' in let r = frames_parts_inj ps qs hp hq e'' in cc

-- Two builders are hashed from the same bytes only if they have the same namespace and parts: the
-- lengths in front of the fields keep `("ab", "c")` and `("a", "bc")` apart.
pub message_inj : (b c : KeyBuilder) → Fits b → Fits c → message b ≡ message c → b ≡ c
message_inj b c (hb, hp) (hc, hq) e =
    let (p, e') =
      frame_inj b.namespace c.namespace (frames (fields b.parts)) (frames (fields c.parts)) hb hc
        (cc) in
    let q = frames_parts_inj b.parts c.parts hp hq e' in
    λ i. record { namespace = p i; parts = q i }

-- The digit's value, for the digits that `hex` writes.
value : ℕ → ℕ
value c = if ltb c 58 then c - 48 else c - 87

digit_table : holds_under (λ n. value (digit n digits) == n) 16 ≡ true
unfolding holds_under value digit
digit_table = refl

value-digit : (n : ℕ) → n < 16 → value (digit n digits) ≡ n
value-digit n h = (nat_beq_iff _ n).0 (holds_under-lt _ 16 n h digit_table)

from_hex : Bytes → Bytes
from_hex (a ∷ b ∷ rest) = (value a * 16 + value b) ∷ from_hex rest
from_hex _ = []

from_hex-hex : (bytes : Bytes) → All (λ b. b < 256) bytes → from_hex (hex bytes) ≡ bytes
unfolding from_hex hex
from_hex-hex [] h = refl
from_hex-hex (b ∷ bs) (h, hs) =
    let low = value-digit (b % 16) (omega arith) in
    let high = value-digit (b / 16) (omega arith) in ap₂ ◌∷◌ (omega arith) (from_hex-hex bs hs)

pub hex_inj :
    (xs ys : Bytes) → All (λ b. b < 256) xs → All (λ b. b < 256) ys → hex xs ≡ hex ys → xs ≡ ys
hex_inj xs ys hx hy e = sym (from_hex-hex xs hx) ∙ ap from_hex e ∙ from_hex-hex ys hy
