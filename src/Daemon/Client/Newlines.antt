-- ===== src/Daemon/Client/Newlines.antt =====
-- Where the first newline of a text stands, for the frames of crates/unixd/src/client.rs.
use unixd.Prelude.{
  ℕ, zero, suc, ◌+◌, ◌≡◌, ◌≤◌, ◌<◌, inl, inr, refl, ap, ◌∙◌, Option, none, some, Bytes, nat_eq, [],
  ◌∷◌, ◌++◌, take, length, arith, Option-cases,
}
use unixd.Daemon.Client.{newline_at}

pub newline_at-append_some :
    (xs ys : Bytes) (n : ℕ) → newline_at xs ≡ some n → newline_at (xs ++ ys) ≡ some n
unfolding newline_at
newline_at-append_some [] ys n e = cc
newline_at-append_some (x ∷ xs) ys n e = elim (Option-cases (newline_at xs)) [
  | inl without ↦ ground (arith, without)
  | inr (m, at) ↦ let later = newline_at-append_some xs ys m at in ground (arith, at, later)
]

abbrev pub shift : ℕ → Option ℕ → Option ℕ
shift d none = none
shift d (some n) = some (d + n)

pub newline_at-append_none :
    (xs ys : Bytes)
    → newline_at xs ≡ none
    → newline_at (xs ++ ys) ≡ shift (length xs) (newline_at ys)
unfolding newline_at
newline_at-append_none [] ys e = elim (Option-cases (newline_at ys)) [
  | inl without ↦ rw without refl
  | inr (m, at) ↦ rw at (ap some (omega arith))
]
newline_at-append_none (x ∷ xs) ys e = elim (Option-cases (newline_at xs)) [
  | inl without ↦
      let rest = newline_at-append_none xs ys without in
      elim (Option-cases (newline_at ys)) [
        | inl none_after ↦ ground (arith, without, rest, none_after)
        | inr (m, at) ↦ ground (arith, without, rest, at)
      ]
  | inr (m, at) ↦ absurd (ground (arith, at))
]

pub still_none :
    (frame chunk : Bytes)
    → newline_at frame ≡ none
    → newline_at chunk ≡ none
    → newline_at (frame ++ chunk) ≡ none
still_none frame chunk f c = newline_at-append_none frame chunk f ∙ ap (shift (length frame)) c

pub newline_at-length : (xs : Bytes) (n : ℕ) → newline_at xs ≡ some n → n < length xs
unfolding newline_at
newline_at-length [] n e = cc
newline_at-length (x ∷ xs) n e = elim (Option-cases (newline_at xs)) [
  | inl without ↦ ground (arith, without)
  | inr (m, at) ↦ let later = newline_at-length xs m at in ground (arith, at, later)
]

pub take-append : (n : ℕ) (xs ys : Bytes) → n ≤ length xs → take n (xs ++ ys) ≡ take n xs
take-append zero xs ys h = refl
take-append (suc n) [] ys h = absurd (omega arith)
take-append (suc n) (x ∷ xs) ys h = ap (λ t. x ∷ t) (take-append n xs ys (omega arith))
