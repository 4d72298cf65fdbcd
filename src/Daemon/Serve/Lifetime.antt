-- ===== src/Daemon/Serve/Lifetime.antt =====
-- How a daemon's run ends (crates/unixd/src/serve.rs).
use unixd.Prelude.{
  ℕ, ◌+◌, ◌-◌, ◌≡◌, ◌⊎◌, inl, inr, refl, sym, ap, ◌∙◌, Bool, true, false, not, ◌&&◌, Option, none,
  some, Result, ok, err, nat_eq, ◌==◌, if◌then◌else◌, arith, Bool-cases, subst, true≢false, ==_iff,
}
use unixd.Daemon.Serve.{
  Lifecycle, connection, aborted, failed, Phase, listening, draining, cutting, returned, Server,
  Event, accept, closed, idle, shutdown, terminate, interrupt, finish, drain_timeout, drained, turn,
  initial, after_accept, finished, selected, waited, step, step_in, Reachable, at_start, by_step,
}

module _ (lifecycle : Lifecycle) where
  abbrev idles : ℕ → Bool
  idles n = n == 0 && not (lifecycle.idle_timeout == 0)

  -- The counter counts the tasks, a timer runs only with no open connection and where one is wished
  -- for, one that should run does or is about to be set, and the return leaves no task behind.
  pub record IsSound (s : Server) : Type 0 where
    pub counted : s.open_count ≡ s.tasks
    pub quiet : s.armed ≡ true → idles s.tasks ≡ true
    pub watched : idles s.tasks ≡ true → (s.armed ≡ true) ⊎ (s.notified ≡ true)
    pub empty : (result : Result ℕ (Unit {0})) → s.phase ≡ returned result → s.tasks ≡ 0

  turned : (s : Server) → s.open_count ≡ s.tasks → s.phase ≡ listening → IsSound (turn lifecycle s)
  unfolding turn
  turned s counted at = record {
    counted = counted;
    quiet = λ h. ap idles (sym counted) ∙ h;
    watched = λ h. inl (ap idles counted ∙ h);
    empty = λ result h. absurd (never result (sym at ∙ h));
  }
    where
      never : (result : Result ℕ (Unit {0})) → ◌≡◌ {A = Phase} listening (returned result) → ⊥
      never result e = cc

  none-some : {s : Server} → ◌≡◌ {A = Option Server} none (some s) → ⊥
  none-some e = cc

  some_same : (s t : Server) → ◌≡◌ {A = Option Server} (some s) (some t) → s ≡ t
  some_same s t e = cc

  -- A guarded step that happens had its guard.
  guarded :
      (b : Bool) (s t : Server)
      → ◌≡◌ {A = Option Server} (if b then some s else none) (some t)
      → (b ≡ true) × (s ≡ t)
  guarded true s t e = (refl, some_same s t e)
  guarded false s t e = absurd (none-some e)

  finished-IsSound : (s t : Server) → finished lifecycle s ≡ some t → IsSound s → IsSound t
  unfolding finished
  finished-IsSound s t e i = elim (Bool-cases (s.tasks == 0)) [
    | inl none_left ↦ absurd (none-some (rw none_left at e))
    | inr some_left ↦ subst IsSound (some_same _ _ (rw some_left at e)) (record {
      counted = ap (λ n. n - 1) i.counted;
      quiet = λ h. absurd (true≢false (sym (busy (i.quiet h)) ∙ some_left));
      watched = λ h. inr refl;
      empty =
          λ result h. absurd (true≢false (sym (ap (λ n. n == 0) (i.empty result h)) ∙ some_left));
    })
  ]
    where
      busy : idles s.tasks ≡ true → (s.tasks == 0) ≡ true
      busy h = ground (arith, h)

  -- A drain starts from the loop.
  drains :
      (s : Server) (result : Result ℕ (Unit {0}))
      → IsSound s
      → IsSound (record s { phase = draining result })
  drains s result i = record {
    counted = i.counted;
    quiet = i.quiet;
    watched = i.watched;
    empty = λ r h. absurd (never r h);
  }
    where
      never : (r : Result ℕ (Unit {0})) → ◌≡◌ {A = Phase} (draining result) (returned r) → ⊥
      never r e = cc

  selected-IsSound :
      (event : Event) (s t : Server)
      → s.phase ≡ listening
      → selected lifecycle event s ≡ some t
      → IsSound s
      → IsSound t
  unfolding selected after_accept
  selected-IsSound (accept connection) s t at e i = subst IsSound (some_same _ _ e) (
      turned (record s { open_count = s.open_count + 1; tasks = s.tasks + 1 })
        (ap (λ n. n + 1) i.counted) at)
  selected-IsSound (accept aborted) s t at e i =
      subst IsSound (some_same _ _ e) (turned s i.counted at)
  selected-IsSound (accept (failed error)) s t at e i =
      subst IsSound (some_same _ _ e) (drains s (err error) i)
  selected-IsSound closed s t at e i = elim (Bool-cases s.notified) [
    | inl permit ↦
        subst IsSound (some_same _ _ (rw permit at e))
          (turned (record s { notified = false }) i.counted at)
    | inr no_permit ↦ absurd (none-some (rw no_permit at e))
  ]
  selected-IsSound idle s t at e i = subst IsSound (guarded s.armed _ t e).1 (drains s (ok tt) i)
  selected-IsSound shutdown s t at e i = subst IsSound (some_same _ _ e) (drains s (ok tt) i)
  selected-IsSound terminate s t at e i = subst IsSound (some_same _ _ e) (drains s (ok tt) i)
  selected-IsSound interrupt s t at e i = subst IsSound (some_same _ _ e) (drains s (ok tt) i)
  selected-IsSound finish s t at e i = finished-IsSound s t e i
  selected-IsSound drain_timeout s t at e i = absurd (none-some e)
  selected-IsSound drained s t at e i = absurd (none-some e)

  waited-IsSound :
      (cut : Bool) (result : Result ℕ (Unit {0})) (event : Event) (s t : Server)
      → waited lifecycle cut result event s ≡ some t
      → IsSound s
      → IsSound t
  unfolding waited
  waited-IsSound cut result finish s t e i = finished-IsSound s t e i
  waited-IsSound cut result drained s t e i = elim (Bool-cases (s.tasks == 0)) [
    | inl none_left ↦ subst IsSound (some_same _ _ (rw none_left at e)) (record {
      counted = i.counted;
      quiet = i.quiet;
      watched = i.watched;
      empty = λ r h. (==_iff s.tasks 0).0 none_left;
    })
    | inr some_left ↦ absurd (none-some (rw some_left at e))
  ]
  waited-IsSound true result drain_timeout s t e i = absurd (none-some e)
  waited-IsSound false result drain_timeout s t e i = subst IsSound (some_same _ _ e) (record {
    counted = i.counted;
    quiet = i.quiet;
    watched = i.watched;
    empty = λ r h. absurd (never r h);
  })
    where
      never : (r : Result ℕ (Unit {0})) → ◌≡◌ {A = Phase} (cutting result) (returned r) → ⊥
      never r e = cc
  waited-IsSound cut result (accept a) s t e i = absurd (none-some e)
  waited-IsSound cut result closed s t e i = absurd (none-some e)
  waited-IsSound cut result idle s t e i = absurd (none-some e)
  waited-IsSound cut result shutdown s t e i = absurd (none-some e)
  waited-IsSound cut result terminate s t e i = absurd (none-some e)
  waited-IsSound cut result interrupt s t e i = absurd (none-some e)

  step_in-IsSound :
      (p : Phase) (event : Event) (s t : Server)
      → s.phase ≡ p
      → step_in lifecycle p event s ≡ some t
      → IsSound s
      → IsSound t
  unfolding step_in
  step_in-IsSound listening event s t at e i = selected-IsSound event s t at e i
  step_in-IsSound (draining result) event s t at e i = waited-IsSound false result event s t e i
  step_in-IsSound (cutting result) event s t at e i = waited-IsSound true result event s t e i
  step_in-IsSound (returned result) event s t at e i = absurd (none-some e)

  -- In every state that a run reaches, whatever the order of connections, ends, signals and timers:
  -- the counter is the number of connections being served; the idle timer runs only with no
  -- connection open and an idle timeout set; while that is so and the loop still accepts, the timer runs or a
  -- notification that restarts the turn is waiting; and a run has returned only with no task left.
  pub Reachable-IsSound : (s : Server) → Reachable lifecycle s → IsSound s
  unfolding initial step
  Reachable-IsSound _ at_start =
      turned
        (record { phase = listening; open_count = 0; tasks = 0; notified = false; armed = false })
        refl refl
  Reachable-IsSound t (by_step {s = s} event r e) =
      step_in-IsSound s.phase event s t refl e (Reachable-IsSound s r)
