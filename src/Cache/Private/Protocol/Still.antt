-- ===== src/Cache/Private/Protocol/Still.antt =====
-- A step of one caller of the lock protocol of crates/unixd-cache/src/private.rs moves no other caller.
use unixd.Prelude.{
  ℕ, ◌≡◌, ◌≢◌, refl, [], ◌∷◌, Option, none, some, nat_eq, arith, Bool-cases, inl, inr,
}
use unixd.Cache.Private.Protocol.{
  Pc, outside, entered, opened, locked, holding, deleted, clearing, Maintenance, shared, exclusive,
  System, Call, lock_shared, open_lock, lock, names, give_up, remove_file, remove_fails, close,
  leave, lock_maintenance, remove_lock, leave_clear, die, owned_by, open_at, lock_free, is_named,
  enter_at, leave_at, clear_at, dies, step_at,
}
use unixd.Cache.Private.Protocol.Others.{OnSome}

-- A step of `t` and another caller `j`.
module _ (t j : ℕ) (ne : j ≢ t) where
  Still-leave : (s : System) (m : Maintenance) → (leave_at m t s).pc j ≡ s.pc j
  Still-leave s (shared _) = ground arith
  Still-leave s (exclusive _) = ground arith

  Still-dies : (s : System) (p : Pc) → (dies p t s).pc j ≡ s.pc j
  unfolding dies
  Still-dies s outside = refl
  Still-dies s entered = Still-leave s s.maintenance
  Still-dies s (opened i) = Still-leave s s.maintenance
  Still-dies s (locked i) = Still-leave (owned_by i none s) s.maintenance
  Still-dies s (holding i) = Still-leave (owned_by i none s) s.maintenance
  Still-dies s (deleted i) = Still-leave (owned_by i none s) s.maintenance
  Still-dies s clearing = ground arith

  abbrev pub Still : System → System → Type 0
  Still s u = u.pc j ≡ s.pc j

  Still-enter : (s : System) (m : Maintenance) → OnSome (Still s) (enter_at m t s)
  Still-enter s (shared _) = ground arith
  Still-enter s (exclusive _) = tt

  Still-clear : (s : System) (m : Maintenance) → OnSome (Still s) (clear_at m t s)
  Still-clear s (shared []) = ground arith
  Still-clear s (shared (_ ∷ _)) = tt
  Still-clear s (exclusive _) = tt

  Still-open : (s : System) (o : Option ℕ) → OnSome (Still s) (open_at o t s)
  Still-open s none = ground arith
  Still-open s (some i) = ground arith

  Still-lock : (s : System) (i : ℕ) (o : Option ℕ) → OnSome (Still s) (lock_free o i t s)
  Still-lock s i none = ground arith
  Still-lock s i (some _) = tt

  pub Still-step : (p : Pc) (call : Call) (s : System) → OnSome (Still s) (step_at p call t s)
  unfolding step_at
  Still-step p die s = Still-dies s p
  Still-step outside lock_shared s = Still-enter s s.maintenance
  Still-step outside lock_maintenance s = Still-clear s s.maintenance
  Still-step entered open_lock s = Still-open s s.named
  Still-step entered leave s = Still-leave s s.maintenance
  Still-step (opened i) lock s = Still-lock s i (s.owner i)
  Still-step (opened i) give_up s = ground arith
  Still-step (locked i) names s = elim (Bool-cases (is_named s.named i)) [
    | inl e ↦ rw e (ground arith)
    | inr e ↦ rw e (ground arith)
  ]
  Still-step (holding i) remove_file s = ground arith
  Still-step (holding i) remove_fails s = ground arith
  Still-step (deleted i) close s = ground arith
  Still-step clearing remove_lock s = refl
  Still-step clearing leave_clear s = ground arith
  Still-step _ _ s = tt
