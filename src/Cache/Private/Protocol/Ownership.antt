-- ===== src/Cache/Private/Protocol/Ownership.antt =====
-- The lock protocol of crates/unixd-cache/src/private.rs leaves no lock behind: who owns an inode's lock is
-- at a place that knows of it.
use unixd.Prelude.{
  ℕ, ◌≡◌, ◌≢◌, refl, [], ◌∷◌, Option, none, some, nat_eq, ◌==◌, ==_iff, arith, Bool-cases,
  Option-cases, inl, inr,
}
use unixd.Cache.Private.Protocol.{
  Pc, outside, entered, opened, locked, holding, deleted, clearing, Maintenance, shared, exclusive,
  System, Call, lock_shared, open_lock, lock, names, give_up, remove_file, remove_fails, close,
  leave, lock_maintenance, remove_lock, leave_clear, die, goes, owned_by, open_at, lock_free,
  is_named, enter_at, leave_at, clear_at, dies, step_at, step, Reachable, start, next,
}
use unixd.Cache.Private.Protocol.Others.{OnSome, OnSome-some}
use unixd.Cache.Private.Protocol.Still.{Still, Still-step}

-- The inode that a caller has locked.
abbrev pub locks : Pc → Option ℕ
locks (locked i) = some i
locks (holding i) = some i
locks (deleted i) = some i
locks _ = none

-- The locks of `t` are those that its place shows.
abbrev Owns : ℕ → System → Type 0
Owns t s = (i : ℕ) → s.owner i ≡ some t → locks (s.pc t) ≡ some i

-- No step of `t` gives a lock to another caller.
abbrev Gains : ℕ → System → System → Type 0
Gains t s u = (i j : ℕ) → j ≢ t → u.owner i ≡ some j → s.owner i ≡ some j

module _ (t : ℕ) where
  at_goes : (s : System) (p : Pc) → (goes t p s).pc t ≡ p
  at_goes s p = ground arith

  Owns-goes :
      (s : System) (p : Pc)
      → ((i : ℕ) → s.owner i ≡ some t → locks p ≡ some i)
      → Owns t (goes t p s)
  Owns-goes s p h i e = ground (arith, h i)

  -- A caller with no lock.
  free :
      (s : System) (p : Pc)
      → locks p ≡ none
      → Owns t s
      → s.pc t ≡ p
      → (i : ℕ) → s.owner i ≡ some t
      → ⊥
  free s p unlocked own at i e = ground (arith, own i e, unlocked, at)

  freed :
      (s : System) (k : ℕ) (p : Pc)
      → locks p ≡ some k
      → Owns t s
      → s.pc t ≡ p
      → (i : ℕ) → (owned_by k none s).owner i ≡ some t
      → ⊥
  freed s k p only own at i e = ground (arith, own i, only, at)

  Owns-leave :
      (s : System) (m : Maintenance) → ((i : ℕ) → s.owner i ≡ some t → ⊥) → Owns t (leave_at m t s)
  Owns-leave s (shared readers) nothing i e = absurd (nothing i e)
  Owns-leave s (exclusive _) nothing i e = absurd (nothing i e)

  Owns-dies : (s : System) (p : Pc) → s.pc t ≡ p → Owns t s → Owns t (dies p t s)
  unfolding dies
  Owns-dies s outside at own = own
  Owns-dies s entered at own = Owns-leave s s.maintenance (free s entered refl own at)
  Owns-dies s (opened i) at own = Owns-leave s s.maintenance (free s (opened i) refl own at)
  Owns-dies s (locked i) at own =
      Owns-leave (owned_by i none s) s.maintenance (freed s i (locked i) refl own at)
  Owns-dies s (holding i) at own =
      Owns-leave (owned_by i none s) s.maintenance (freed s i (holding i) refl own at)
  Owns-dies s (deleted i) at own =
      Owns-leave (owned_by i none s) s.maintenance (freed s i (deleted i) refl own at)
  Owns-dies s clearing at own = λ i e. absurd (free s clearing refl own at i e)

  module _ (s : System) (own : Owns t s) where
    Owns-enter : (m : Maintenance) → s.pc t ≡ outside → OnSome (Owns t) (enter_at m t s)
    Owns-enter (exclusive _) at = tt
    Owns-enter (shared readers) at = λ i e. absurd (free s outside refl own at i e)

    Owns-clear : (m : Maintenance) → s.pc t ≡ outside → OnSome (Owns t) (clear_at m t s)
    Owns-clear (shared []) at = λ i e. absurd (free s outside refl own at i e)
    Owns-clear (shared (_ ∷ _)) at = tt
    Owns-clear (exclusive _) at = tt

    Owns-open : (o : Option ℕ) → s.pc t ≡ entered → OnSome (Owns t) (open_at o t s)
    Owns-open none at = λ i e. absurd (free s entered refl own at i e)
    Owns-open (some k) at = λ i e. absurd (free s entered refl own at i e)

    Owns-lock : (k : ℕ) (o : Option ℕ) → s.pc t ≡ opened k → OnSome (Owns t) (lock_free o k t s)
    Owns-lock k (some _) at = tt
    Owns-lock k none at = Owns-goes (owned_by k (some t) s) (locked k) (λ i e.
        elim (Bool-cases (k == i)) [
          | inl same ↦ ground (arith, same)
          | inr other ↦ absurd (free s (opened k) refl own at i (ground (arith, e, other)))
        ])

    Owns-step : (p : Pc) (call : Call) → s.pc t ≡ p → OnSome (Owns t) (step_at p call t s)
    unfolding step_at
    Owns-step p die at = Owns-dies s p at own
    Owns-step outside lock_shared at = Owns-enter s.maintenance at
    Owns-step outside lock_maintenance at = Owns-clear s.maintenance at
    Owns-step entered open_lock at = Owns-open s.named at
    Owns-step entered leave at = Owns-leave s s.maintenance (free s entered refl own at)
    Owns-step (opened k) lock at = Owns-lock k (s.owner k) at
    Owns-step (opened k) give_up at = λ i e. absurd (free s (opened k) refl own at i e)
    Owns-step (locked k) names at = elim (Bool-cases (is_named s.named k)) [
      | inl n ↦ rw n (Owns-goes s (holding k) (λ i e. ground (arith, own i e, at)))
      | inr n ↦ rw n (
          Owns-goes (owned_by k none s) entered
            (λ i e. absurd (freed s k (locked k) refl own at i e)))
    ]
    Owns-step (holding k) remove_file at =
        Owns-goes (record s { named = none }) (deleted k) (λ i e. ground (arith, own i e, at))
    Owns-step (holding k) remove_fails at =
        Owns-goes s (deleted k) (λ i e. ground (arith, own i e, at))
    Owns-step (deleted k) close at =
        Owns-goes (owned_by k none s) entered
          (λ i e. absurd (freed s k (deleted k) refl own at i e))
    Owns-step clearing remove_lock at = own
    Owns-step clearing leave_clear at = λ i e. absurd (free s clearing refl own at i e)
    Owns-step _ _ at = tt

-- No lock goes to a caller that does not move.
module _ (t : ℕ) where
  Gains-refl : (s : System) → Gains t s s
  Gains-refl s i j ne e = e

  Gains-none : (s : System) (k : ℕ) → Gains t s (owned_by k none s)
  Gains-none s k i j ne e = ground arith

  Gains-leave : (s : System) (m : Maintenance) → Gains t s (leave_at m t s)
  Gains-leave s (shared _) i j ne e = e
  Gains-leave s (exclusive _) i j ne e = e

  Gains-close :
      (s : System) (k : ℕ) (m : Maintenance) → Gains t s (leave_at m t (owned_by k none s))
  Gains-close s k (shared _) i j ne e = ground arith
  Gains-close s k (exclusive _) i j ne e = ground arith

  Gains-dies : (s : System) (p : Pc) → Gains t s (dies p t s)
  unfolding dies
  Gains-dies s outside = Gains-refl s
  Gains-dies s entered = Gains-leave s s.maintenance
  Gains-dies s (opened k) = Gains-leave s s.maintenance
  Gains-dies s (locked k) = Gains-close s k s.maintenance
  Gains-dies s (holding k) = Gains-close s k s.maintenance
  Gains-dies s (deleted k) = Gains-close s k s.maintenance
  Gains-dies s clearing = λ i j ne e. e

  Gains-enter : (s : System) (m : Maintenance) → OnSome (Gains t s) (enter_at m t s)
  Gains-enter s (shared _) = λ i j ne e. e
  Gains-enter s (exclusive _) = tt

  Gains-clear : (s : System) (m : Maintenance) → OnSome (Gains t s) (clear_at m t s)
  Gains-clear s (shared []) = λ i j ne e. e
  Gains-clear s (shared (_ ∷ _)) = tt
  Gains-clear s (exclusive _) = tt

  Gains-open : (s : System) (o : Option ℕ) → OnSome (Gains t s) (open_at o t s)
  Gains-open s none = λ i j ne e. e
  Gains-open s (some k) = λ i j ne e. e

  Gains-lock : (s : System) (k : ℕ) (o : Option ℕ) → OnSome (Gains t s) (lock_free o k t s)
  Gains-lock s k none = λ i j ne e. ground arith
  Gains-lock s k (some _) = tt

  Gains-step : (s : System) (p : Pc) (call : Call) → OnSome (Gains t s) (step_at p call t s)
  unfolding step_at
  Gains-step s p die = Gains-dies s p
  Gains-step s outside lock_shared = Gains-enter s s.maintenance
  Gains-step s outside lock_maintenance = Gains-clear s s.maintenance
  Gains-step s entered open_lock = Gains-open s s.named
  Gains-step s entered leave = Gains-leave s s.maintenance
  Gains-step s (opened k) lock = Gains-lock s k (s.owner k)
  Gains-step s (opened k) give_up = λ i j ne e. e
  Gains-step s (locked k) names = elim (Bool-cases (is_named s.named k)) [
    | inl n ↦ rw n (λ i j ne e. e)
    | inr n ↦ rw n (Gains-none s k)
  ]
  Gains-step s (holding k) remove_file = λ i j ne e. e
  Gains-step s (holding k) remove_fails = λ i j ne e. e
  Gains-step s (deleted k) close = Gains-none s k
  Gains-step s clearing remove_lock = λ i j ne e. e
  Gains-step s clearing leave_clear = λ i j ne e. e
  Gains-step s _ _ = tt

step-Owns :
    (s u : System) (call : Call) (t : ℕ)
    → ((j : ℕ) → Owns j s)
    → step call t s ≡ some u
    → (j : ℕ) → Owns j u
unfolding step
step-Owns s u call t own e j i h = elim (Bool-cases (j == t)) [
  | inl same ↦
      let it = (==_iff j t).0 same in
      rw it (OnSome-some (Owns t) _ u (Owns-step t s (own t) (s.pc t) call refl) e i (rw it at h))
  | inr other_caller ↦
      let ne : j ≢ t = λ q. ground (arith, q) in
      let before = OnSome-some (Gains t s) _ u (Gains-step t s (s.pc t) call) e i j ne h in
      rw (OnSome-some (Still t j ne s) _ u (Still-step t j ne (s.pc t) call s) e) (own j i before)
]

Reachable-Owns : {s : System} → Reachable s → (t : ℕ) → Owns t s
Reachable-Owns (start named fresh) t = λ i e. absurd (ground (arith, e))
Reachable-Owns (next {s} {u} r call t e) j = step-Owns s u call t (Reachable-Owns r) e j

pub nobody_owns :
    {s : System} → Reachable s → ((j : ℕ) → locks (s.pc j) ≡ none) → (i : ℕ) → s.owner i ≡ none
nobody_owns {s} r idle i = elim (Option-cases (s.owner i)) [
  | inl unowned ↦ unowned
  | inr (j, owned) ↦ absurd (ground (arith, Reachable-Owns r j i owned, idle j))
]
