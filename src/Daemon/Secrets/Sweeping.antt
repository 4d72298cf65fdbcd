-- ===== src/Daemon/Secrets/Sweeping.antt =====
-- The sweep of crates/unixd/src/secrets.rs, as later calls see it.
use mathlib.Core.Option
use unixd.Prelude.{
  ℕ, ◌≡◌, ◌≤◌, refl, sym, ap, ◌∙◌, true, Option, none, some, Bytes, list_eq, nat_eq, ◌==◌, ==_iff,
  subst, arith, List, [], ◌∷◌, Bool-cases, inl, inr,
}
use unixd.Daemon.Secrets.{
  HeldSecret, SecretStore, past, expired, assign, put, put_with, get, remove, clear, sweep,
  unexpired, Call, put_call, put_with_call, get_call, remove_call, clear_call, sweep_call, step,
  run, get_held,
}

past_mono :
    (now later since bound : ℕ)
    → now ≤ later
    → past now since bound ≡ true
    → past later since bound ≡ true
unfolding past
past_mono now later since bound h e = ground arith

module _ {S : Type 0} where
  expired_mono :
      (held : HeldSecret S) (now later : ℕ)
      → now ≤ later
      → expired held now ≡ true
      → expired held later ≡ true
  unfolding expired
  expired_mono held now later h e = ground (
    arith,
    past_mono now later held.read held.idle h,
    past_mono now later held.stored held.max_age h,
  )

  unexpired_later :
      (now later : ℕ) (o : Option (HeldSecret S))
      → now ≤ later
      → unexpired later (unexpired now o) ≡ unexpired later o
  unfolding unexpired
  unexpired_later now later none h = refl
  unexpired_later now later (some held) h = elim (Bool-cases (expired held now)) [
    | inl gone ↦ rw (gone, expired_mono held now later h gone) refl
    | inr alive ↦ rw alive refl
  ]

  -- Two stores that hold the same as far as anyone can see from `now` on.
  record Alike (now : ℕ) (a b : SecretStore S) : Type 0 where
    limits : a.limits ≡ b.limits
    secrets : (key : Bytes) → unexpired now (a.secrets key) ≡ unexpired now (b.secrets key)

  Alike-later :
      (now later : ℕ) (a b : SecretStore S) → now ≤ later → Alike now a b → Alike later a b
  Alike-later now later a b h same = record {
    limits = same.limits;
    secrets = λ key.
        sym (unexpired_later now later (a.secrets key) h)
        ∙ ap (unexpired later) (same.secrets key)
        ∙ unexpired_later now later (b.secrets key) h;
  }

  assign-Alike :
      (now : ℕ) (a b : SecretStore S) (key : Bytes) (o : Option (HeldSecret S))
      → Alike now a b
      → Alike now
          (record a { secrets = assign key o a.secrets })
          (record b { secrets = assign key o b.secrets })
  unfolding assign
  assign-Alike now a b key o same = record { limits = same.limits; secrets = at }
    where
      at :
          (k : Bytes)
          → unexpired now (assign key o a.secrets k) ≡ unexpired now (assign key o b.secrets k)
      at k = elim (Bool-cases (key == k)) [
        | inl own ↦ rw own refl
        | inr apart ↦ rw apart (same.secrets k)
      ]

  -- What a `get` leaves of what it finds unexpired.
  got : ℕ → Option (HeldSecret S) → Option (HeldSecret S)
  got now none = none
  got now (some held) = some (record held { read = now })

  abbrev secret_of : HeldSecret S → S
  secret_of h = h.secret

  abbrev assigned : SecretStore S → Bytes → Option (HeldSecret S) → SecretStore S
  assigned a key o = record a { secrets = assign key o a.secrets }

  get_held_lem :
      (key : Bytes) (now : ℕ) (a : SecretStore S) (o : Option (HeldSecret S))
      → a.secrets key ≡ o
      → ((get_held key (λ s. s) now a o).0 ≡ Option.map secret_of (unexpired now o))
        × Alike now (get_held key (λ s. s) now a o).1 (assigned a key (got now (unexpired now o)))
  unfolding unexpired got assign get_held
  get_held_lem key now a none e = (
    refl,
    record {
      limits = refl;
      secrets = λ k. elim (Bool-cases (key == k)) [
        | inl own ↦
            rw (own, ap (λ o. unexpired now (a.secrets o)) (sym ((==_iff key k).0 own)), e) refl
        | inr apart ↦ rw apart refl
      ];
    },
  )
  get_held_lem key now a (some held) e = elim (Bool-cases (expired held now)) [
    | inl gone ↦ rw gone (refl, record { limits = refl; secrets = λ k. refl })
    | inr alive ↦ rw alive (refl, record { limits = refl; secrets = λ k. refl })
  ]

  Alike-chain : (now : ℕ) (a b c : SecretStore S) → Alike now a b → Alike now b c → Alike now a c
  Alike-chain now a b c f g = record {
    limits = f.limits ∙ g.limits;
    secrets = λ k. f.secrets k ∙ g.secrets k;
  }

  Alike-back : (now : ℕ) (a b : SecretStore S) → Alike now a b → Alike now b a
  Alike-back now a b f = record { limits = sym f.limits; secrets = λ k. sym (f.secrets k) }

  get-Alike :
      (key : Bytes) (now : ℕ) (a b : SecretStore S)
      → Alike now a b
      → ((get key (λ s. s) now a).0 ≡ (get key (λ s. s) now b).0)
        × Alike now (get key (λ s. s) now a).1 (get key (λ s. s) now b).1
  unfolding get
  get-Alike key now a b same =
      let (ra, la) = get_held_lem key now a (a.secrets key) refl in
      let (rb, lb) = get_held_lem key now b (b.secrets key) refl in
      let at = same.secrets key in
      let middle =
        subst
          (λ o.
            Alike now (assigned a key (got now (unexpired now (a.secrets key))))
              (assigned b key (got now o)))
          at (assign-Alike now a b key _ same) in
      (
        ra ∙ ap (Option.map secret_of) at ∙ sym rb,
        Alike-chain now _ _ _ la (Alike-chain now _ _ _ middle (Alike-back now _ _ lb)),
      )

  step-Alike :
      (call : Call S) (now : ℕ) (a b : SecretStore S)
      → Alike now a b
      → ((step call now a).0 ≡ (step call now b).0)
        × Alike now (step call now a).1 (step call now b).1
  unfolding step put put_with remove clear sweep
  step-Alike (put_call key secret) now a b same = (
    refl,
    subst
        (λ l.
          Alike now (assigned a key (some (fresh a.limits.idle a.limits.max_age)))
            (assigned b key (some (fresh l.idle l.max_age))))
        same.limits (assign-Alike now a b key _ same),
  )
    where
      fresh : ℕ → ℕ → HeldSecret S
      fresh idle max_age = record {
        secret = secret;
        stored = now;
        read = now;
        idle = idle;
        max_age = max_age;
      }
  step-Alike (put_with_call key secret idle max_age) now a b same =
      (refl, assign-Alike now a b key _ same)
  step-Alike (get_call key) now a b same = get-Alike key now a b same
  step-Alike (remove_call key) now a b same = (refl, assign-Alike now a b key none same)
  step-Alike clear_call now a b same = (refl, record { limits = same.limits; secrets = λ k. refl })
  step-Alike sweep_call now a b same =
      (refl, record { limits = same.limits; secrets = λ k. ap (unexpired now) (same.secrets k) })

  -- The instants of the calls are not before `now` and do not decrease.
  unfoldable pub InOrder : ℕ → List (ℕ × Call S) → Type 0
  InOrder now [] = Unit {0}
  InOrder now ((later, call) ∷ calls) = (now ≤ later) × InOrder later calls

  run-Alike :
      (calls : List (ℕ × Call S)) (now : ℕ) (a b : SecretStore S)
      → InOrder now calls
      → Alike now a b
      → run calls a ≡ run calls b
  unfolding run InOrder
  run-Alike [] now a b order same = refl
  run-Alike ((later, call) ∷ calls) now a b (h, order) same =
      let (r, next) = step-Alike call later a b (Alike-later now later a b h same) in
      let rest = run-Alike calls later _ _ order next in cc (r, rest)

  -- A sweep cannot be seen: whatever is called from its instant on, with a clock that does not go
  -- back, every call returns what it would have returned without the sweep.
  pub run-sweep :
      (now : ℕ) (calls : List (ℕ × Call S)) (store : SecretStore S)
      → InOrder now calls
      → run calls (sweep now store) ≡ run calls store
  unfolding sweep
  run-sweep now calls store order = run-Alike calls now _ _ order (record {
    limits = refl;
    secrets = λ k. unexpired_later now now (store.secrets k) (omega arith);
  })
