-- ===== src/Cache/Private/Protocol/Exclusion.antt =====
-- Mutual exclusion of the lock protocol of crates/unixd-cache/src/private.rs.
use unixd.Prelude.{
  ℕ, ◌≡◌, ◌≢◌, refl, sym, suc, true, [], ◌∷◌, Option, none, some, nat_eq, ◌==◌, ==_iff, arith,
  Bool-cases, inl, inr, subst,
}
use unixd.Cache.Private.Protocol.{
  Pc, outside, entered, opened, locked, holding, deleted, clearing, Maintenance, shared, exclusive,
  System, Call, lock_shared, open_lock, lock, names, give_up, remove_file, remove_fails, close,
  leave, lock_maintenance, remove_lock, leave_clear, die, without, goes, owned_by, kept_by, open_at,
  lock_free, is_named, enter_at, leave_at, clear_at, dies, step_at, step, Reachable, start, next,
}
use unixd.Cache.Private.Protocol.Others.{
  is_in, reads, Fits, Inv, Spares, OnSome, OnSome-some, Fits-Spares, Spares-step,
}
use unixd.Cache.Private.Protocol.Still.{Still, Still-step}

pub is_named-some : (o : Option ℕ) (i : ℕ) → is_named o i ≡ true → o ≡ some i
is_named-some none i h = cc
is_named-some (some k) i h = ground arith

-- What the caller itself knows after its step.
module _ (t : ℕ) where
  abbrev Own : System → Type 0
  Own u = Fits u t (u.pc t)

  here : (s : System) (p : Pc) → (goes t p s).pc t ≡ p
  here s p = ground arith

  Own-goes : (s : System) (p : Pc) → Fits (goes t p s) t p → Own (goes t p s)
  Own-goes s p h = rw (here s p) h

  Own-leave : (s : System) (m : Maintenance) → Own (leave_at m t s)
  Own-leave s (shared readers) = Own-goes (kept_by (shared (without t readers)) s) outside tt
  Own-leave s (exclusive _) = Own-goes s outside tt

  Own-dies : (s : System) (p : Pc) → s.pc t ≡ p → Fits s t p → Own (dies p t s)
  unfolding dies
  Own-dies s outside e h = rw e tt
  Own-dies s entered e h = Own-leave s s.maintenance
  Own-dies s (opened i) e h = Own-leave s s.maintenance
  Own-dies s (locked i) e h = Own-leave (owned_by i none s) s.maintenance
  Own-dies s (holding i) e h = Own-leave (owned_by i none s) s.maintenance
  Own-dies s (deleted i) e h = Own-leave (owned_by i none s) s.maintenance
  Own-dies s clearing e h = Own-goes (kept_by (shared []) s) outside tt

  Own-enter : (s : System) (m : Maintenance) → OnSome Own (enter_at m t s)
  unfolding is_in
  Own-enter s (shared readers) = Own-goes (kept_by (shared (t ∷ readers)) s) entered (ground arith)
  Own-enter s (exclusive _) = tt

  Own-clear : (s : System) (m : Maintenance) → OnSome Own (clear_at m t s)
  Own-clear s (shared []) = Own-goes (kept_by (exclusive t) s) clearing refl
  Own-clear s (shared (_ ∷ _)) = tt
  Own-clear s (exclusive _) = tt

  Own-open : (s : System) (o : Option ℕ) → reads t s.maintenance ≡ true → OnSome Own (open_at o t s)
  Own-open s none h =
      Own-goes (record s { named = some s.fresh; fresh = suc s.fresh }) (opened s.fresh) h
  Own-open s (some i) h = Own-goes s (opened i) h

  Own-lock :
      (s : System) (i : ℕ) (o : Option ℕ)
      → reads t s.maintenance ≡ true
      → OnSome Own (lock_free o i t s)
  Own-lock s i none h = Own-goes (owned_by i (some t) s) (locked i) (h, ground arith)
  Own-lock s i (some _) h = tt

  Own-step :
      (p : Pc) (call : Call) (s : System)
      → s.pc t ≡ p
      → Fits s t p
      → OnSome Own (step_at p call t s)
  unfolding step_at
  Own-step p die s e h = Own-dies s p e h
  Own-step outside lock_shared s e h = Own-enter s s.maintenance
  Own-step outside lock_maintenance s e h = Own-clear s s.maintenance
  Own-step entered open_lock s e h = Own-open s s.named h
  Own-step entered leave s e h = Own-leave s s.maintenance
  Own-step (opened i) lock s e h = Own-lock s i (s.owner i) h
  Own-step (opened i) give_up s e h = Own-goes s entered h
  Own-step (locked i) names s e h = elim (Bool-cases (is_named s.named i)) [
    | inl n ↦ rw n (Own-goes s (holding i) (h.0, h.1, is_named-some s.named i n))
    | inr n ↦ rw n (Own-goes (owned_by i none s) entered h.0)
  ]
  Own-step (holding i) remove_file s e h =
      Own-goes (record s { named = none }) (deleted i) (h.0, h.1)
  Own-step (holding i) remove_fails s e h = Own-goes s (deleted i) (h.0, h.1)
  Own-step (deleted i) close s e h = Own-goes (owned_by i none s) entered h.0
  Own-step clearing remove_lock s e h = rw e h
  Own-step clearing leave_clear s e h = Own-goes (kept_by (shared []) s) outside tt
  Own-step _ _ s e h = tt

step-Inv : (s u : System) (call : Call) (t : ℕ) → Inv s → step call t s ≡ some u → Inv u
unfolding step
step-Inv s u call t inv e = record { fits = fits }
  where
    fits : (j : ℕ) → Fits u j (u.pc j)
    fits j = elim (Bool-cases (j == t)) [
      | inl same ↦
          subst (λ k. Fits u k (u.pc k)) (sym ((==_iff j t).0 same))
            (OnSome-some (Own t) _ u (Own-step t (s.pc t) call s refl (inv.fits t)) e)
      | inr other_caller ↦
          let ne : j ≢ t = λ q. ground (arith, q) in
          rw (OnSome-some (Still t j ne s) _ u (Still-step t j ne (s.pc t) call s) e) (
            Fits-Spares s u j (s.pc j)
              (OnSome-some (Spares s j) _ u (Spares-step t j ne (s.pc t) call s (inv.fits t)) e)
              (inv.fits j))
    ]

Reachable-Inv : {s : System} → Reachable s → Inv s
Reachable-Inv (start named fresh) = record { fits = λ t. tt }
Reachable-Inv (next {s} {u} r call t e) = step-Inv s u call t (Reachable-Inv r) e

-- However callers, prunes, clears and deaths of processes are interleaved, no two callers have a `Held`
-- of the key at once; and the file of the one that has it is the one at the key's path, and locked by
-- it, so that whoever opens the path finds it locked.
pub Reachable-exclusion :
    {s : System} (t j i k : ℕ)
    → Reachable s
    → s.pc t ≡ holding i
    → (s.named ≡ some i) × (s.owner i ≡ some t) × (s.pc j ≡ holding k → j ≡ t)
Reachable-exclusion {s} t j i k r at =
    let mine = subst (Fits s t) at ((Reachable-Inv r).fits t) in
    (
      mine.2,
      mine.1,
      λ other_at.
          let theirs = subst (Fits s j) other_at ((Reachable-Inv r).fits j) in
          ground (arith, mine, theirs),
    )
