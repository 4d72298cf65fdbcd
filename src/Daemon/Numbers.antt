-- ===== src/Daemon/Numbers.antt =====
-- How numbers print in messages and identifiers, as by `{}` and `{:x}`.
use unixd.Prelude.{ℕ, zero, suc, ◌+◌, ◌/◌, ◌%◌, [], ◌∷◌, Bytes, nat_eq, ◌==◌, if◌then◌else◌, ltb}

abbrev digit : ℕ → ℕ
digit d = if ltb d 10 then 48 + d else 87 + d

-- The digits before those of `printed`; `n + 1` rounds are enough, since each divides by the base.
unfoldable pub radix_loop : ℕ → ℕ → ℕ → Bytes → Bytes
radix_loop base zero n printed = printed
radix_loop base (suc fuel) n printed =
    let rest = radix_loop base fuel (n / base) (digit (n % base) ∷ printed) in
    if n / base == 0 then digit (n % base) ∷ printed else rest

unfoldable pub decimal : ℕ → Bytes
unfolding radix_loop
decimal n = radix_loop 10 (suc n) n []

unfoldable pub lower_hex : ℕ → Bytes
unfolding radix_loop
lower_hex n = radix_loop 16 (suc n) n []
