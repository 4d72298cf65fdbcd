-- ===== src/Cache/Private/Protocol/Others.antt =====
-- What a step of one caller of the lock protocol of crates/unixd-cache/src/private.rs leaves to the others.
use unixd.Prelude.{
  ℕ, ◌≡◌, ◌≢◌, refl, Bool, true, false, List, [], ◌∷◌, Option, none, some, nat_eq, ◌==◌,
  if◌then◌else◌, arith, Bool-cases, inl, inr, subst,
}
use unixd.Cache.Private.Protocol.{
  Pc, outside, entered, opened, locked, holding, deleted, clearing, Maintenance, shared, exclusive,
  System, Call, lock_shared, open_lock, lock, names, give_up, remove_file, remove_fails, close,
  leave, lock_maintenance, remove_lock, leave_clear, die, without, goes, owned_by, kept_by, open_at,
  lock_free, is_named, enter_at, leave_at, clear_at, dies, step_at,
}

unfoldable pub is_in : ℕ → List ℕ → Bool
is_in t [] = false
is_in t (j ∷ readers) = if j == t then true else is_in t readers

is_in-without : (t j : ℕ) (readers : List ℕ) → j ≢ t → is_in j (without t readers) ≡ is_in j readers
unfolding is_in without
is_in-without t j [] ne = refl
is_in-without t j (i ∷ readers) ne = ground (arith, is_in-without t j readers ne)

abbrev pub reads : ℕ → Maintenance → Bool
reads t (exclusive _) = false
reads t (shared readers) = is_in t readers

-- What a caller's place says of the shared state.
abbrev pub Fits : System → ℕ → Pc → Type 0
Fits s t outside = Unit
Fits s t entered = reads t s.maintenance ≡ true
Fits s t (opened i) = reads t s.maintenance ≡ true
Fits s t (locked i) = (reads t s.maintenance ≡ true) × (s.owner i ≡ some t)
Fits s t (holding i) = (reads t s.maintenance ≡ true) × (s.owner i ≡ some t) × (s.named ≡ some i)
Fits s t (deleted i) = (reads t s.maintenance ≡ true) × (s.owner i ≡ some t)
Fits s t clearing = s.maintenance ≡ exclusive t

pub record Inv (s : System) : Type 0 where
  pub fits : (t : ℕ) → Fits s t (s.pc t)

-- What of the shared state another caller may rely on, over a step of the caller `t`.
pub record Spares (s : System) (j : ℕ) (u : System) : Type 0 where
  reading : reads j s.maintenance ≡ true → reads j u.maintenance ≡ true
  alone : s.maintenance ≡ exclusive j → u.maintenance ≡ exclusive j
  owning : (i : ℕ) → s.owner i ≡ some j → u.owner i ≡ some j
  naming :
      (i : ℕ)
      → reads j s.maintenance ≡ true
      → s.owner i ≡ some j
      → s.named ≡ some i
      → u.named ≡ some i

abbrev pub OnSome : (System → Type 0) → Option System → Type 0
OnSome P none = Unit
OnSome P (some u) = P u

pub OnSome-some :
    (P : System → Type 0) (o : Option System) (u : System) → OnSome P o → o ≡ some u → P u
OnSome-some P none u h e = absurd (cc)
OnSome-some P (some v) u h e = subst P (inner v u e) h
  where
    inner : (v u : System) → ◌≡◌ {A = Option System} (some v) (some u) → v ≡ u
    inner v u e = cc

pub Fits-Spares : (s u : System) (j : ℕ) (q : Pc) → Spares s j u → Fits s j q → Fits u j q
Fits-Spares s u j outside k h = tt
Fits-Spares s u j entered k h = k.reading h
Fits-Spares s u j (opened i) k h = k.reading h
Fits-Spares s u j (locked i) k h = (k.reading h.0, k.owning i h.1)
Fits-Spares s u j (holding i) k h = (k.reading h.0, k.owning i h.1, k.naming i h.0 h.1 h.2)
Fits-Spares s u j (deleted i) k h = (k.reading h.0, k.owning i h.1)
Fits-Spares s u j clearing k h = k.alone h

module _ {j : ℕ} where
  Spares-refl : (s : System) → Spares s j s
  Spares-refl s = record {
    reading = λ h. h;
    alone = λ h. h;
    owning = λ i h. h;
    naming = λ i r h n. n;
  }

  Spares-trans : (s u v : System) → Spares s j u → Spares u j v → Spares s j v
  Spares-trans s u v a b = record {
    reading = λ h. b.reading (a.reading h);
    alone = λ h. b.alone (a.alone h);
    owning = λ i h. b.owning i (a.owning i h);
    naming = λ i r h n. b.naming i (a.reading r) (a.owning i h) (a.naming i r h n);
  }

  Spares-goes : (s u : System) (t : ℕ) (p : Pc) → Spares s j u → Spares s j (goes t p u)
  Spares-goes s u t p k = record {
    reading = λ h. k.reading h;
    alone = λ h. k.alone h;
    owning = λ i h. k.owning i h;
    naming = λ i r h n. k.naming i r h n;
  }

-- A step of `t` and another caller `j`.
module _ (t j : ℕ) (ne : j ≢ t) where
  released : (s : System) (i : ℕ) → s.owner i ≡ some t → Spares s j (owned_by i none s)
  released s i mine = record {
    reading = λ h. h;
    alone = λ h. h;
    owning = λ k h. ground arith;
    naming = λ k r h n. n;
  }

  taken : (s : System) (i : ℕ) → s.owner i ≡ none → Spares s j (owned_by i (some t) s)
  taken s i free = record {
    reading = λ h. h;
    alone = λ h. h;
    owning = λ k h. ground arith;
    naming = λ k r h n. n;
  }

  Spares-enter :
      (s : System) (m : Maintenance) → s.maintenance ≡ m → OnSome (Spares s j) (enter_at m t s)
  unfolding is_in
  Spares-enter s (exclusive _) e = tt
  Spares-enter s (shared readers) e = record {
    reading = λ h. ground arith;
    alone = λ h. cc;
    owning = λ i h. h;
    naming = λ i r h n. n;
  }

  Spares-leave : (s : System) (m : Maintenance) → s.maintenance ≡ m → Spares s j (leave_at m t s)
  Spares-leave s (exclusive _) e = Spares-goes s s t outside (Spares-refl s)
  Spares-leave s (shared readers) e = record {
    reading = λ h. ground (arith, is_in-without t j readers ne);
    alone = λ h. cc;
    owning = λ i h. h;
    naming = λ i r h n. n;
  }

  Spares-clear :
      (s : System) (m : Maintenance) → s.maintenance ≡ m → OnSome (Spares s j) (clear_at m t s)
  unfolding is_in
  Spares-clear s (exclusive _) e = tt
  Spares-clear s (shared (_ ∷ _)) e = tt
  Spares-clear s (shared []) e = record {
    reading = λ h. ground arith;
    alone = λ h. cc;
    owning = λ i h. h;
    naming = λ i r h n. ground arith;
  }

  Spares-open : (s : System) (o : Option ℕ) → s.named ≡ o → OnSome (Spares s j) (open_at o t s)
  Spares-open s (some i) e = Spares-goes s s t (opened i) (Spares-refl s)
  Spares-open s none e = record {
    reading = λ h. h;
    alone = λ h. h;
    owning = λ i h. h;
    naming = λ i r h n. cc;
  }

  Spares-lock :
      (s : System) (i : ℕ) (o : Option ℕ) → s.owner i ≡ o → OnSome (Spares s j) (lock_free o i t s)
  Spares-lock s i (some _) e = tt
  Spares-lock s i none e = Spares-goes s _ t (locked i) (taken s i e)

  closes :
      (s : System) (i : ℕ)
      → s.owner i ≡ some t
      → Spares s j (leave_at s.maintenance t (owned_by i none s))
  closes s i mine =
      Spares-trans s _ _ (released s i mine) (Spares-leave (owned_by i none s) s.maintenance refl)

  unshared :
      (s : System)
      → s.maintenance ≡ exclusive t
      → Spares s j (goes t outside (kept_by (shared []) s))
  unshared s alone = record {
    reading = λ h. absurd (ground (arith, alone));
    alone = λ h. absurd (ground (arith, alone));
    owning = λ i h. h;
    naming = λ i r h n. n;
  }

  Spares-dies : (s : System) (p : Pc) → Fits s t p → Spares s j (dies p t s)
  unfolding dies
  Spares-dies s outside h = Spares-refl s
  Spares-dies s entered h = Spares-leave s s.maintenance refl
  Spares-dies s (opened i) h = Spares-leave s s.maintenance refl
  Spares-dies s (locked i) h = closes s i h.1
  Spares-dies s (holding i) h = closes s i h.1
  Spares-dies s (deleted i) h = closes s i h.1
  Spares-dies s clearing h = unshared s h

  pub Spares-step :
      (p : Pc) (call : Call) (s : System) → Fits s t p → OnSome (Spares s j) (step_at p call t s)
  unfolding step_at
  Spares-step p die s h = Spares-dies s p h
  Spares-step outside lock_shared s h = Spares-enter s s.maintenance refl
  Spares-step outside lock_maintenance s h = Spares-clear s s.maintenance refl
  Spares-step entered open_lock s h = Spares-open s s.named refl
  Spares-step entered leave s h = Spares-leave s s.maintenance refl
  Spares-step (opened i) lock s h = Spares-lock s i (s.owner i) refl
  Spares-step (opened i) give_up s h = Spares-goes s s t entered (Spares-refl s)
  Spares-step (locked i) names s h = elim (Bool-cases (is_named s.named i)) [
    | inl e ↦ rw e (Spares-goes s s t (holding i) (Spares-refl s))
    | inr e ↦ rw e (Spares-goes s _ t entered (released s i h.1))
  ]
  Spares-step (holding i) remove_file s h = record {
    reading = λ r. r;
    alone = λ r. r;
    owning = λ k o. o;
    naming = λ k r o n. absurd (ground (arith, h.1, h.2));
  }
  Spares-step (holding i) remove_fails s h = Spares-goes s s t (deleted i) (Spares-refl s)
  Spares-step (deleted i) close s h = Spares-goes s _ t entered (released s i h.1)
  Spares-step clearing remove_lock s h = record {
    reading = λ r. r;
    alone = λ r. r;
    owning = λ k o. o;
    naming = λ k r o n. absurd (ground (arith, h));
  }
  Spares-step clearing leave_clear s h = unshared s h
  Spares-step _ _ s h = tt
