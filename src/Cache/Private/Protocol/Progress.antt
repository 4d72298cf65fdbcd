-- ===== src/Cache/Private/Protocol/Progress.antt =====
-- The loop of `lock_exclusive` of crates/unixd-cache/src/private.rs gets a lock that nobody has.
use unixd.Prelude.{
  ℕ, zero, suc, ◌≡◌, refl, ap, ◌∙◌, Bool, false, Option, none, some, nat_eq, ==_refl, if◌then◌else◌,
  arith, Bool-cases, Option-cases, inl, inr, ◌⊎◌,
}
use unixd.Cache.Private.Protocol.{
  Pc, entered, opened, locked, holding, System, Call, open_lock, lock, names, goes, owned_by,
  open_at, lock_free, is_named, step_at, step, Reachable, loop_call, after, taken, calls_alone,
}
use unixd.Cache.Private.Protocol.Exclusion.{is_named-some}
use unixd.Cache.Private.Protocol.Ownership.{locks, nobody_owns}

-- What is left of the loop once the caller stands at `p`.
abbrev Gets : ℕ → ℕ → Option System → Type 0
Gets n t o = (u : System) × (k : ℕ) × (after o (calls_alone n t) ≡ some u) × (u.pc t ≡ holding k)

abbrev Unlocked : System → Type 0
Unlocked s = (k : ℕ) → s.owner k ≡ none

module _ (t : ℕ) where
  from_holding : (n : ℕ) (s : System) (k : ℕ) → s.pc t ≡ holding k → Gets n t (some s)
  unfolding calls_alone
  from_holding zero s k at = (s, k, refl, at)
  from_holding (suc n) s k at =
      let (u, j, ran, got) = from_holding n s k at in (u, j, rw at ran, got)

  abbrev named_or_not : System → ℕ → Bool → Option System
  named_or_not s k b =
      if b then some (goes t (holding k) s) else some (goes t entered (owned_by k none s))

  -- One call of the loop.
  move :
      (n : ℕ) (s u : System)
      → taken (loop_call (s.pc t)) t s ≡ some u
      → Gets n t (some u)
      → Gets (suc n) t (some s)
  unfolding calls_alone
  move n s u e (v, k, ran, got) = (v, k, rw e ran, got)

  -- The call that the loop makes at `p`.
  turn :
      (s : System) (p : Pc) (call : Call)
      → s.pc t ≡ p
      → loop_call p ≡ some call
      → taken (loop_call (s.pc t)) t s ≡ step_at p call t s
  unfolding step
  turn s p call at next_call =
      ap (λ q. taken (loop_call q) t s) at
      ∙ ap (λ o. taken o t s) next_call
      ∙ ap (λ q. step_at q call t s) at

  from_locked :
      (n : ℕ) (s : System) (k : ℕ) → s.pc t ≡ locked k → s.named ≡ some k → Gets (suc n) t (some s)
  unfolding step_at
  from_locked n s k at there =
      move n s (goes t (holding k) s) step_names (from_holding n _ k (ground arith))
    where
      step_names : taken (loop_call (s.pc t)) t s ≡ some (goes t (holding k) s)
      step_names =
          turn s (locked k) names at refl
          ∙ ap (named_or_not s k) (ap (λ o. is_named o k) there ∙ ==_refl k)

  from_opened :
      (n : ℕ) (s : System) (k : ℕ)
      → s.pc t ≡ opened k
      → s.owner k ≡ none
      → s.named ≡ some k
      → Gets (suc (suc n)) t (some s)
  unfolding step_at
  from_opened n s k at unlocked there =
      move (suc n) s _ step_lock (from_locked n _ k (ground arith) there)
    where
      step_lock : taken (loop_call (s.pc t)) t s ≡ some (goes t (locked k) (owned_by k (some t) s))
      step_lock = turn s (opened k) lock at refl ∙ ap (λ o. lock_free o k t s) unlocked

  from_entered :
      (n : ℕ) (s : System) → s.pc t ≡ entered → Unlocked s → Gets (suc (suc (suc n))) t (some s)
  unfolding step_at
  from_entered n s at unlocked = elim (Option-cases s.named) [
    | inl absent ↦
        move (suc (suc n)) s _ (turn s entered open_lock at refl ∙ ap (λ o. open_at o t s) absent) (
          from_opened n
            (goes t (opened s.fresh) (record s { named = some s.fresh; fresh = suc s.fresh }))
            s.fresh (ground arith) (unlocked s.fresh) refl)
    | inr (k, there) ↦
        move (suc (suc n)) s _ (turn s entered open_lock at refl ∙ ap (λ o. open_at o t s) there)
          (from_opened n (goes t (opened k) s) k (ground arith) (unlocked k) there)
  ]

  -- The file that was opened may be deleted already: then the loop goes round once more.
  from_stale :
      (n : ℕ) (s : System) (k : ℕ)
      → s.pc t ≡ opened k
      → Unlocked s
      → Gets (suc (suc (suc (suc (suc n))))) t (some s)
  unfolding step_at
  from_stale n s k at unlocked = elim (Bool-cases (is_named s.named k)) [
    | inl there ↦
        from_opened (suc (suc (suc n))) s k at (unlocked k) (is_named-some s.named k there)
    | inr gone ↦
        move (suc (suc (suc (suc n)))) s got
          (turn s (opened k) lock at refl ∙ ap (λ o. lock_free o k t s) (unlocked k))
          (move (suc (suc (suc n))) got _ (names_fails gone) (
            from_entered n (goes t entered (owned_by k none got)) (ground arith)
              (λ j. ground (arith, unlocked j))))
  ]
    where
      got : System
      got = goes t (locked k) (owned_by k (some t) s)

      names_fails :
          is_named s.named k ≡ false
          → taken (loop_call (got.pc t)) t got ≡ some (goes t entered (owned_by k none got))
      names_fails gone =
          let here : got.pc t ≡ locked k = ground arith in
          turn got (locked k) names here refl ∙ ap (named_or_not got k) gone

-- A caller that waits for the lock gets it where nobody has it, whatever has been left at the path by
-- others: in any state that is reached, with no caller that has locked a file and with the caller at the
-- start of the loop, or with a file open that may have been deleted since, five calls of its own suffice.
pub Reachable-gets :
    {s : System} (t : ℕ)
    → Reachable s
    → ((j : ℕ) → locks (s.pc j) ≡ none)
    → (s.pc t ≡ entered) ⊎ ((k : ℕ) × (s.pc t ≡ opened k))
    → (u : System) × (k : ℕ) × (calls_alone 5 t s ≡ some u) × (u.pc t ≡ holding k)
Reachable-gets {s} t r idle (inl at) = from_entered t 2 s at (nobody_owns r idle)
Reachable-gets {s} t r idle (inr (k, at)) = from_stale t 0 s k at (nobody_owns r idle)
