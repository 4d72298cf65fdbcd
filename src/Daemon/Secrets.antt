-- ===== src/Daemon/Secrets.antt =====
-- crates/unixd/src/secrets.rs: the store of secrets. Each method takes the lock of the map once, so an
-- operation is one function of the store and of the instant it reads from the clock. Instants are
-- nanoseconds since the clock's start; the subtraction of two stops at zero. The process hardening and
-- the zeroing of freed memory (the crate secrecy) are not modelled: a secret that is in no map entry is gone.
pub mod Sweeping
pub mod Provenance
use unixd.Prelude.{
  ℕ, ◌-◌, Bool, true, false, not, ◌&&◌, ◌||◌, Option, none, some, Bytes, list_eq, nat_eq, ◌==◌,
  if◌then◌else◌, leb, Duration, from_secs, List, [], ◌∷◌,
}

pub record SecretLimits : Type 0 where
  pub idle : Duration
  pub max_age : Duration
  pub sweep_every : Duration

-- `Default for SecretLimits`
abbrev pub default_secret_limits : SecretLimits
default_secret_limits = record {
  idle = from_secs 600;
  max_age = from_secs 7200;
  sweep_every = from_secs 60;
}

pub record HeldSecret (S : Type 0) : Type 0 where
  pub secret : S
  pub stored : ℕ
  pub read : ℕ
  pub idle : Duration
  pub max_age : Duration

unfoldable pub past : ℕ → ℕ → Duration → Bool
past now since bound = not (bound == 0) && leb bound (now - since)

unfoldable pub expired : {S : Type 0} → HeldSecret S → ℕ → Bool
unfolding past
expired held now = past now held.read held.idle || past now held.stored held.max_age

pub record SecretStore (S : Type 0) : Type 0 where
  pub limits : SecretLimits
  pub secrets : Bytes → Option (HeldSecret S)

module _ {S : Type 0} where
  -- `SecretStore::new`, without the task that sweeps.
  unfoldable pub new : SecretLimits → SecretStore S
  new limits = record { limits = limits; secrets = λ _. none }

  -- `HashMap::insert` and `HashMap::remove`.
  unfoldable pub assign :
      Bytes
      → Option (HeldSecret S)
      → (Bytes → Option (HeldSecret S))
      → Bytes
      → Option (HeldSecret S)
  assign key held secrets k = if key == k then held else secrets k

  unfoldable pub put_with : Bytes → S → Duration → Duration → ℕ → SecretStore S → SecretStore S
  unfolding assign
  put_with key secret idle max_age now store = record store {
    secrets =
        assign key
          (some
            (record { secret = secret; stored = now; read = now; idle = idle; max_age = max_age }))
          store.secrets;
  }

  unfoldable pub put : Bytes → S → ℕ → SecretStore S → SecretStore S
  unfolding put_with
  put key secret now store = put_with key secret store.limits.idle store.limits.max_age now store

  unfoldable pub get_held :
      {R : Type 0}
      → Bytes
      → (S → R)
      → ℕ
      → SecretStore S
      → Option (HeldSecret S)
      → Option R × SecretStore S
  unfolding expired assign
  get_held key read now store none = (none, store)
  get_held key read now store (some held) =
      if expired held now
      then (none, record store { secrets = assign key none store.secrets })
      else (
        some (read held.secret),
        record store { secrets = assign key (some (record held { read = now })) store.secrets },
      )

  unfoldable pub get : {R : Type 0} → Bytes → (S → R) → ℕ → SecretStore S → Option R × SecretStore S
  unfolding get_held
  get key read now store = get_held key read now store (store.secrets key)

  unfoldable pub remove : Bytes → SecretStore S → SecretStore S
  unfolding assign
  remove key store = record store { secrets = assign key none store.secrets }

  unfoldable pub clear : SecretStore S → SecretStore S
  clear store = record store { secrets = λ _. none }

  -- `retain`'s test, for one key.
  unfoldable pub unexpired : ℕ → Option (HeldSecret S) → Option (HeldSecret S)
  unfolding expired
  unexpired now none = none
  unexpired now (some held) = if expired held now then none else some held

  unfoldable pub sweep : ℕ → SecretStore S → SecretStore S
  unfolding unexpired
  sweep now store = record store { secrets = λ key. unexpired now (store.secrets key) }

-- The calls a user of the store can make, and those of the task that sweeps.
pub data Call (S : Type 0) : Type 0 where
  put_call : Bytes → S → Call S
  put_with_call : Bytes → S → Duration → Duration → Call S
  get_call : Bytes → Call S
  remove_call : Bytes → Call S
  clear_call : Call S
  sweep_call : Call S

module _ {S : Type 0} where
  -- One call at an instant; a `get` reads the whole secret.
  unfoldable pub step : Call S → ℕ → SecretStore S → Option S × SecretStore S
  unfolding put put_with get remove clear sweep
  step (put_call key secret) now store = (none, put key secret now store)
  step (put_with_call key secret idle max_age) now store =
      (none, put_with key secret idle max_age now store)
  step (get_call key) now store = get key (λ s. s) now store
  step (remove_call key) now store = (none, remove key store)
  step clear_call now store = (none, clear store)
  step sweep_call now store = (none, sweep now store)

  -- What the calls return, in their order.
  unfoldable pub run : List (ℕ × Call S) → SecretStore S → List (Option S)
  unfolding step
  run [] store = []
  run ((now, call) ∷ calls) store = let (r, store') = step call now store in r ∷ run calls store'
