-- ===== src/Daemon/Secrets/Provenance.antt =====
-- The store of crates/unixd/src/secrets.rs against the history of its calls.
use unixd.Prelude.{
  ℕ, ◌-◌, ◌≡◌, ◌<◌, ◌⊎◌, refl, sym, ap, ◌∙◌, false, Option, none, some, Bytes, list_eq, nat_eq,
  ◌==◌, ==_iff, arith, List, [], ◌∷◌, Bool-cases, inl, inr, if◌then◌else◌, Duration,
}
use unixd.Daemon.Secrets.{
  HeldSecret, SecretLimits, SecretStore, new, past, expired, assign, put, put_with, get, remove,
  clear, sweep, unexpired, Call, put_call, put_with_call, get_call, remove_call, clear_call,
  sweep_call, step, get_held,
}

module _ {S : Type 0} (limits : SecretLimits) where
  -- The store after a history of calls, the latest call first.
  unfoldable pub after : List (ℕ × Call S) → SecretStore S
  unfolding step new
  after [] = new limits
  after ((now, call) ∷ history) = (step call now (after history)).1

  -- The put of the secret that the history leaves under a key: when, what, and its two lifetimes.
  unfoldable pub last_put : Bytes → List (ℕ × Call S) → Option (ℕ × S × Duration × Duration)
  last_put key [] = none
  last_put key ((now, put_call k secret) ∷ history) =
      if k == key then some (now, secret, limits.idle, limits.max_age) else last_put key history
  last_put key ((now, put_with_call k secret idle max_age) ∷ history) =
      if k == key then some (now, secret, idle, max_age) else last_put key history
  last_put key ((now, get_call k) ∷ history) = last_put key history
  last_put key ((now, remove_call k) ∷ history) = if k == key then none else last_put key history
  last_put key ((now, clear_call) ∷ history) = none
  last_put key ((now, sweep_call) ∷ history) = last_put key history

  abbrev record_of : HeldSecret S → ℕ × S × Duration × Duration
  record_of held = (held.stored, held.secret, held.idle, held.max_age)

  get_limits :
      (key : Bytes) (now : ℕ) (store : SecretStore S) (o : Option (HeldSecret S))
      → (get_held key (λ s. s) now store o).1.limits ≡ store.limits
  unfolding get_held
  get_limits key now store none = refl
  get_limits key now store (some held) = elim (Bool-cases (expired held now)) [
    | inl gone ↦ rw gone refl
    | inr alive ↦ rw alive refl
  ]

  limits_kept : (history : List (ℕ × Call S)) → (after history).limits ≡ limits
  unfolding after step new put put_with get remove clear sweep
  limits_kept [] = refl
  limits_kept ((now, put_call k secret) ∷ history) = limits_kept history
  limits_kept ((now, put_with_call k secret idle max_age) ∷ history) = limits_kept history
  limits_kept ((now, get_call k) ∷ history) =
      get_limits k now (after history) ((after history).secrets k) ∙ limits_kept history
  limits_kept ((now, remove_call k) ∷ history) = limits_kept history
  limits_kept ((now, clear_call) ∷ history) = limits_kept history
  limits_kept ((now, sweep_call) ∷ history) = limits_kept history

  -- What the store holds is what the history's last put of the key says.
  Recorded : List (ℕ × Call S) → SecretStore S → Type 0
  Recorded history store =
      (key : Bytes) (held : HeldSecret S)
      → store.secrets key ≡ some held
      → last_put key history ≡ some (record_of held)

  get-Recorded :
      (history : List (ℕ × Call S)) (store : SecretStore S)
      → Recorded history store
      → (k : Bytes) (now : ℕ) (o : Option (HeldSecret S)) → store.secrets k ≡ o
      → Recorded history (get_held k (λ s. s) now store o).1
  unfolding Recorded get_held assign
  get-Recorded history store was k now none found key held e = was key held e
  get-Recorded history store was k now (some old) found key held e =
      elim (Bool-cases (expired old now)) [
        | inl gone ↦ elim (Bool-cases (k == key)) [
          | inl own ↦ cc (rw (gone, own) at e)
          | inr apart ↦ was key held (rw (gone, apart) at e)
        ]
        | inr alive ↦ elim (Bool-cases (k == key)) [
          | inl own ↦
              let put_old = was key old (ap store.secrets (sym ((==_iff k key).0 own)) ∙ found) in
              cc (put_old, rw (alive, own) at e)
          | inr apart ↦ was key held (rw (alive, apart) at e)
        ]
      ]

  unexpired-some :
      (now : ℕ) (o : Option (HeldSecret S)) (held : HeldSecret S)
      → unexpired now o ≡ some held
      → o ≡ some held
  unfolding unexpired
  unexpired-some now none held e = cc
  unexpired-some now (some old) held e = elim (Bool-cases (expired old now)) [
    | inl gone ↦ cc (rw gone at e)
    | inr alive ↦ rw alive at e
  ]

  after-Recorded : (history : List (ℕ × Call S)) → Recorded history (after history)
  unfolding Recorded after last_put step new put put_with get remove clear sweep assign unexpired
  after-Recorded [] key held e = cc
  after-Recorded ((now, put_call k secret) ∷ history) key held e = elim (Bool-cases (k == key)) [
    | inl own ↦ let l = limits_kept history in rw own (cc (l, rw own at e))
    | inr apart ↦ rw apart (after-Recorded history key held (rw apart at e))
  ]
  after-Recorded ((now, put_with_call k secret idle max_age) ∷ history) key held e =
      elim (Bool-cases (k == key)) [
        | inl own ↦ rw own (cc (rw own at e))
        | inr apart ↦ rw apart (after-Recorded history key held (rw apart at e))
      ]
  after-Recorded ((now, get_call k) ∷ history) key held e =
      get-Recorded history (after history) (after-Recorded history) k now _ refl key held e
  after-Recorded ((now, remove_call k) ∷ history) key held e = elim (Bool-cases (k == key)) [
    | inl own ↦ cc (rw own at e)
    | inr apart ↦ rw apart (after-Recorded history key held (rw apart at e))
  ]
  after-Recorded ((now, clear_call) ∷ history) key held e = cc
  after-Recorded ((now, sweep_call) ∷ history) key held e =
      after-Recorded history key held (unexpired-some now _ held e)

  alive_young :
      (held : HeldSecret S) (now : ℕ)
      → expired held now ≡ false
      → (held.max_age ≡ 0) ⊎ (now - held.stored < held.max_age)
  unfolding expired past
  alive_young held now e = ground arith

  -- A secret that `get` returns at the end of any history of calls is the one that the history's
  -- last put of that key gave, no remove or clear having come after it; and unless its maximum age
  -- is turned off, less than that age has passed since that put, however often it was read.
  pub get-last_put :
      (history : List (ℕ × Call S)) (key : Bytes) (now : ℕ) (secret : S)
      → (get key (λ s. s) now (after history)).0 ≡ some secret
      → (stored : ℕ) × (idle : Duration) × (max_age : Duration) × (last_put key history
          ≡ some (stored, secret, idle, max_age))
        × ((max_age ≡ 0) ⊎ (now - stored < max_age))
  unfolding get Recorded
  get-last_put history key now secret e = by ((after history).secrets key) refl e
    where
      by :
          (o : Option (HeldSecret S))
          → (after history).secrets key ≡ o
          → (get_held key (λ s. s) now (after history) o).0 ≡ some secret
          → (stored : ℕ) × (idle : Duration) × (max_age : Duration) × (last_put key history
              ≡ some (stored, secret, idle, max_age))
            × ((max_age ≡ 0) ⊎ (now - stored < max_age))
      by none found e = cc
      by (some held) found e = elim (Bool-cases (expired held now)) [
        | inl gone ↦ cc (rw gone at e)
        | inr alive ↦
            let was = after-Recorded history key held found in
            (
              held.stored,
              held.idle,
              held.max_age,
              cc (was, rw alive at e),
              alive_young held now alive,
            )
      ]
