-- ===== src/Daemon/SingleFlight/Sharing.antt =====
-- The flights of crates/unixd/src/single_flight.rs and the calls that share them.
use unixd.Prelude.{
  ℕ, suc, ◌≡◌, ◌≢◌, ◌≤◌, ◌<◌, ◌⊎◌, inl, inr, refl, sym, ap, ◌∙◌, true, false, Option, none, some,
  Result, Eq, nat_eq, ◌==◌, ==_iff, ==_refl, arith, Bool-cases, true≢false,
}
use unixd.Daemon.SingleFlight.{
  Flights, FlightError, Joined, assign, start, run, joined, land, Reachable, at_first, calls, lands,
}

module _ {A K : Type 0} ⦃e : Eq K⦄ where
  assign_own : (k : K) (o : Option A) (m : K → Option A) → assign k o m k ≡ o
  unfolding assign
  assign_own k o m = rw (==_refl k) refl

  assign_other :
      (k j : K) (o : Option A) (m : K → Option A) → (k == j) ≡ false → assign k o m j ≡ m j
  unfolding assign
  assign_other k j o m apart = rw apart refl

module _ {K E T : Type 0} ⦃e : Eq K⦄ where
  -- The map holds just the flights whose tasks have not ended.
  pub record IsFlying (s : Flights K E T) : Type 0 where
    pub flying :
        (key : K) (flight : ℕ)
        → s.flights key ≡ some flight
        → (s.key_of flight ≡ some key) × (s.ended flight ≡ none)
    pub known :
        (key : K) (flight : ℕ)
        → s.key_of flight ≡ some key
        → s.ended flight ≡ none
        → s.flights key ≡ some flight
    pub numbered : (key : K) (flight : ℕ) → s.key_of flight ≡ some key → flight < s.next
    pub unstarted : (flight : ℕ) → s.next ≤ flight → s.ended flight ≡ none

  start-IsFlying :
      (key : K) (s : Flights K E T) → s.flights key ≡ none → IsFlying s → IsFlying (start key s)
  unfolding start assign
  start-IsFlying key s free i = record {
    flying = λ k f h. elim (Bool-cases (key == k)) [
      | inl own ↦
          let same : s.next ≡ f = cc (rw own at h) in
          let at : (s.next == f) ≡ true = (==_iff s.next f).1 same in
          (rw at (ap some ((==_iff key k).0 own)), i.unstarted f (omega (arith, same)))
      | inr apart ↦
          let (at, alive) = i.flying k f (rw apart at h) in
          let other_flight : (s.next == f) ≡ false = ground (arith, i.numbered k f at) in
          (rw other_flight at, alive)
    ];
    known = λ k f h alive. elim (Bool-cases (s.next == f)) [
      | inl own ↦
          let same : key ≡ k = cc (rw own at h) in
          rw ((==_iff key k).1 same) (ap some ((==_iff s.next f).0 own))
      | inr apart ↦
          let at = i.known k f (rw apart at h) alive in
          let other_key : (key == k) ≡ false = elim (Bool-cases (key == k)) [
            | inl own ↦ absurd (none-some (sym free ∙ ap s.flights ((==_iff key k).0 own) ∙ at))
            | inr o ↦ o
          ] in
          rw other_key at
    ];
    numbered = λ k f h. elim (Bool-cases (s.next == f)) [
      | inl own ↦ omega (arith, (==_iff s.next f).0 own)
      | inr apart ↦ omega (arith, i.numbered k f (rw apart at h))
    ];
    unstarted = λ f h. i.unstarted f (omega (arith, h));
  }
    where
      none-some : {f : ℕ} → ◌≡◌ {A = Option ℕ} none (some f) → ⊥
      none-some e = cc

  run-IsFlying : (key : K) (s : Flights K E T) → IsFlying s → IsFlying (run key s).1
  unfolding run
  run-IsFlying key s i = by (s.flights key) refl
    where
      by : (o : Option ℕ) → s.flights key ≡ o → IsFlying (joined key o s).1
      by none free = start-IsFlying key s free i
      by (some f) at = i

  land-IsFlying :
      (flight : ℕ) (key : K) (outcome : Joined E T) (s : Flights K E T)
      → s.key_of flight ≡ some key
      → s.ended flight ≡ none
      → IsFlying s
      → IsFlying (land flight key outcome s)
  unfolding land assign
  land-IsFlying flight key outcome s of_key alive i = record {
    flying = λ k f h. elim (Bool-cases (key == k)) [
      | inl own ↦ absurd (none-some (rw own at h))
      | inr apart ↦
          let (at, flying) = i.flying k f (rw apart at h) in
          let other_flight : (flight == f) ≡ false = elim (Bool-cases (flight == f)) [
            | inl own ↦
                let same : some key ≡ some k =
                  sym of_key ∙ ap s.key_of ((==_iff flight f).0 own) ∙ at in
                absurd (true≢false (sym ((==_iff key k).1 (cc same)) ∙ apart))
            | inr o ↦ o
          ] in
          (at, rw other_flight flying)
    ];
    known = λ k f h flying. elim (Bool-cases (flight == f)) [
      | inl own ↦ absurd (some_none (rw own at flying))
      | inr apart ↦
          let at = i.known k f h (rw apart at flying) in
          let other_key : (key == k) ≡ false = elim (Bool-cases (key == k)) [
            | inl own ↦
                let both : some f ≡ some flight =
                  sym at
                  ∙ ap s.flights (sym ((==_iff key k).0 own))
                  ∙ i.known key flight of_key alive in
                absurd (true≢false (sym ((==_iff flight f).1 (cc both)) ∙ apart))
            | inr o ↦ o
          ] in
          rw other_key at
    ];
    numbered = i.numbered;
    unstarted = λ f h.
        let other_flight : (flight == f) ≡ false =
          ground (arith, h, i.numbered key flight of_key) in
        rw other_flight (i.unstarted f h);
  }
    where
      none-some : {f : ℕ} → ◌≡◌ {A = Option ℕ} none (some f) → ⊥
      none-some e = cc

      some_none :
          {r : Result (FlightError E) T}
          → ◌≡◌ {A = Option (Result (FlightError E) T)} (some r) none
          → ⊥
      some_none e = cc

  pub Reachable-IsFlying : (s : Flights K E T) → Reachable s → IsFlying s
  Reachable-IsFlying _ at_first = record {
    flying = λ k f h. cc;
    known = λ k f h alive. cc;
    numbered = λ k f h. cc;
    unstarted = λ f h. refl;
  }
  Reachable-IsFlying _ (calls {s = s} key r) = run-IsFlying key s (Reachable-IsFlying s r)
  Reachable-IsFlying _ (lands {s = s} flight key outcome r at alive) =
      land-IsFlying flight key outcome s at alive (Reachable-IsFlying s r)

  -- However calls and ends of tasks are interleaved, at no time do two flights of one key run.
  pub Reachable-unique :
      (s : Flights K E T) (key : K) (f g : ℕ)
      → Reachable s
      → s.key_of f ≡ some key
      → s.key_of g ≡ some key
      → s.ended f ≡ none
      → s.ended g ≡ none
      → f ≡ g
  Reachable-unique s key f g r hf hg ef eg =
      let i = Reachable-IsFlying s r in
      let same : some f ≡ some g = sym (i.known key f hf ef) ∙ i.known key g hg eg in cc same

  -- A call never joins a flight that has ended: it waits for one of its own key that still runs. It
  -- starts one only where no flight of the key runs, and then starts just one.
  pub run-joins :
      (s : Flights K E T) (key : K)
      → Reachable s
      → ((run key s).1.key_of (run key s).0 ≡ some key)
        × ((run key s).1.ended (run key s).0 ≡ none)
        × (((run key s).1 ≡ s)
            ⊎ (((run key s).1.next ≡ suc s.next)
                × ((f : ℕ) → s.key_of f ≡ some key → s.ended f ≢ none)))
  unfolding run
  run-joins s key r = by (s.flights key) refl
    where
      i : IsFlying s
      i = Reachable-IsFlying s r

      never : {f : ℕ} → ◌≡◌ {A = Option ℕ} none (some f) → ⊥
      never e = cc

      by :
          (o : Option ℕ)
          → s.flights key ≡ o
          → ((joined key o s).1.key_of (joined key o s).0 ≡ some key)
            × ((joined key o s).1.ended (joined key o s).0 ≡ none)
            × (((joined key o s).1 ≡ s)
                ⊎ (((joined key o s).1.next ≡ suc s.next)
                    × ((f : ℕ) → s.key_of f ≡ some key → s.ended f ≢ none)))
      by (some f) at = let (k, alive) = i.flying key f at in (k, alive, inl refl)
      by none free = (
        assign_own s.next (some key) s.key_of,
        i.unstarted s.next (omega arith),
        inr (refl, λ f h alive. never (sym free ∙ i.known key f h alive)),
      )
