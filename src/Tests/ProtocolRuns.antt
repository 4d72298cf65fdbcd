-- ===== src/Tests/ProtocolRuns.antt =====
-- The theorems on the lock protocol in two runs of two callers.
use unixd.Prelude.{ℕ, ◌≡◌, refl, Option, none, some, nat_eq, inr, arith}
use unixd.Cache.Private.Protocol.{
  opened, holding, System, Call, lock_shared, open_lock, lock, names, remove_file, close, Reachable,
  start, next, begin, step, calls_alone,
}
use unixd.Cache.Private.Protocol.Exclusion.{Reachable-exclusion}
use unixd.Cache.Private.Protocol.Ownership.{locks}
use unixd.Cache.Private.Protocol.Progress.{Reachable-gets}

abbrev or_begin : Option System → System
or_begin none = begin none 0
or_begin (some s) = s

abbrev first : Call → ℕ → System
first call t = or_begin (step call t (begin none 4))

abbrev then_call : Call → ℕ → System → System
then_call call t s = or_begin (step call t s)

-- Both callers have opened the file, and the first has the lock.
abbrev contended : System
contended = then_call names 0 (
    then_call lock 0 (
      then_call open_lock 1
        (then_call open_lock 0 (then_call lock_shared 1 (first lock_shared 0)))))

-- The first has dropped its lock, and the second has the deleted file open.
abbrev stale : System
stale = then_call close 0 (then_call remove_file 0 contended)

contended_reachable : Reachable contended
unfolding step
contended_reachable =
    next
      (next
        (next
          (next (next (next (start none 4) lock_shared 0 refl) lock_shared 1 refl) open_lock 0 refl)
          open_lock 1 refl)
        lock 0 refl)
      names 0 refl

stale_reachable : Reachable stale
unfolding step
stale_reachable = next (next contended_reachable remove_file 0 refl) close 0 refl

contended_holding : contended.pc 0 ≡ holding 4
unfolding step
contended_holding = refl

stale_idle : (j : ℕ) → locks (stale.pc j) ≡ none
unfolding step
stale_idle j = ground arith

stale_opened : stale.pc 1 ≡ opened 4
unfolding step
stale_opened = refl

Reachable-exclusion_example :
    (contended.named ≡ some 4)
    × (contended.owner 4 ≡ some 0)
    × (contended.pc 1 ≡ holding 4 → ◌≡◌ {A = ℕ} 1 0)
Reachable-exclusion_example = Reachable-exclusion 0 1 4 4 contended_reachable contended_holding

Reachable-gets_example :
    (u : System) × (k : ℕ) × (calls_alone 5 1 stale ≡ some u) × (u.pc 1 ≡ holding k)
Reachable-gets_example = Reachable-gets 1 stale_reachable stale_idle (inr (4, stale_opened))
