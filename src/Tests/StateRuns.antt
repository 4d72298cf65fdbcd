-- ===== src/Tests/StateRuns.antt =====
-- The theorems on the daemon's states at concrete runs.
use unixd.Prelude.{
  ℕ, suc, ◌-◌, ◌≡◌, ◌≢◌, ◌<◌, ◌⊎◌, refl, true, false, List, [], ◌∷◌, none, some, ok, ascii, nat_eq,
  list_eq, list_beq, Duration, arith,
}
use unixd.Daemon.Secrets.{
  SecretLimits, default_secret_limits, SecretStore, new, get, sweep, Call, put_call, put_with_call,
  get_call, run,
}
use unixd.Daemon.Secrets
use unixd.Daemon.Secrets.Sweeping.{InOrder, run-sweep}
use unixd.Daemon.Secrets.Provenance.{after, last_put, get-last_put}
use unixd.Daemon.SingleFlight.{Flights, no_flights, Reachable, at_first, calls}
use unixd.Daemon.SingleFlight
use unixd.Daemon.SingleFlight.Sharing.{Reachable-unique, run-joins}
use unixd.Daemon.Serve.{default_lifecycle, Server, initial, idle, draining, at_start}
use unixd.Daemon.Serve
use unixd.Daemon.Serve.Lifetime.{IsSound, Reachable-IsSound}

abbrev test_store : SecretStore ℕ
test_store = Secrets.put_with (ascii "k") 9 100 200 1 (new default_secret_limits)

abbrev test_calls : List (ℕ × Call ℕ)
test_calls = (60, get_call (ascii "k")) ∷ (170, get_call (ascii "k")) ∷ []

test-InOrder : InOrder 50 test_calls
unfolding InOrder
test-InOrder = (omega arith, (omega arith, tt))

run-sweep_example : run test_calls (sweep 50 test_store) ≡ run test_calls test_store
run-sweep_example = run-sweep 50 test_calls test_store test-InOrder

abbrev test_history : List (ℕ × Call ℕ)
test_history = (60, get_call (ascii "k")) ∷ (1, put_with_call (ascii "k") 9 100 200) ∷ []

test_got : (get (ascii "k") (λ s. s) 150 (after default_secret_limits test_history)).0 ≡ some 9
unfolding get after list_beq
test_got = refl

get-last_put_example :
    (stored : ℕ) × (idle : Duration) × (max_age : Duration) × (last_put default_secret_limits
        (ascii "k")
        test_history
      ≡ some (stored, 9, idle, max_age))
    × ((max_age ≡ 0) ⊎ (150 - stored < max_age))
get-last_put_example = get-last_put default_secret_limits test_history (ascii "k") 150 9 test_got

abbrev one_flight : Flights ℕ ℕ ℕ
one_flight = (SingleFlight.run 3 no_flights).1

test_key_of : one_flight.key_of 0 ≡ some 3
unfolding SingleFlight.run
test_key_of = refl

test_running : one_flight.ended 0 ≡ none
unfolding SingleFlight.run
test_running = refl

Reachable-unique_example : ◌≡◌ {A = ℕ} 0 0
Reachable-unique_example =
    Reachable-unique one_flight 3 0 0 (calls 3 at_first) test_key_of test_key_of test_running
      test_running

run-joins_example :
    ((SingleFlight.run 3 one_flight).1.key_of (SingleFlight.run 3 one_flight).0 ≡ some 3)
    × ((SingleFlight.run 3 one_flight).1.ended (SingleFlight.run 3 one_flight).0 ≡ none)
    × (((SingleFlight.run 3 one_flight).1 ≡ one_flight)
        ⊎ (((SingleFlight.run 3 one_flight).1.next ≡ suc one_flight.next)
            × ((f : ℕ) → one_flight.key_of f ≡ some 3 → one_flight.ended f ≢ none)))
run-joins_example = run-joins one_flight 3 (calls 3 at_first)

Reachable-IsSound_example : IsSound default_lifecycle (initial default_lifecycle)
Reachable-IsSound_example = Reachable-IsSound default_lifecycle (initial default_lifecycle) at_start

abbrev drained_at_once : Server
drained_at_once = record {
  phase = draining (ok tt);
  open_count = 0;
  tasks = 0;
  notified = false;
  armed = true;
}

test_idle : Serve.step default_lifecycle idle (initial default_lifecycle) ≡ some drained_at_once
unfolding Serve.step initial
test_idle = refl
