-- ===== src/Daemon/SingleFlight.antt =====
-- crates/unixd/src/single_flight.rs: the map of flights under its lock, as steps. A flight is numbered
-- as it is started; its task ends once, by a result, a panic, or a cancellation, and the guard
-- `Landed` then forgets it. Waiting for a flight is reading how it ended.
pub mod Sharing
use unixd.Prelude.{
  ℕ, suc, ◌≡◌, Bool, true, false, Option, none, some, Result, ok, err, Eq, nat_eq, ◌==◌,
  if◌then◌else◌,
}

pub data FlightError (E : Type 0) : Type 0 where
  failed : E → FlightError E
  panicked : FlightError E

-- How a task ends: what its work returned, or nothing, after a panic or a cancellation.
pub data Joined (E T : Type 0) : Type 0 where
  returned : Result E T → Joined E T
  lost : Joined E T

unfoldable pub flight_result : {E T : Type 0} → Joined E T → Result (FlightError E) T
flight_result (returned (ok value)) = ok value
flight_result (returned (err error)) = err (failed error)
flight_result lost = err panicked

pub record Flights (K E T : Type 0) : Type 0 where
  pub flights : K → Option ℕ
  pub next : ℕ
  pub key_of : ℕ → Option K  -- the key of each flight that was started
  pub ended : ℕ → Option (Result (FlightError E) T)

module _ {A : Type 0} {K : Type 0} ⦃e : Eq K⦄ where
  unfoldable pub assign : K → Option A → (K → Option A) → K → Option A
  assign k o m j = if k == j then o else m j

module _ {K E T : Type 0} ⦃e : Eq K⦄ where
  -- `SingleFlight::new`
  abbrev pub no_flights : Flights K E T
  no_flights = record { flights = λ k. none; next = 0; key_of = λ f. none; ended = λ f. none }

  -- `start`, and the insertion behind it.
  unfoldable pub start : K → Flights K E T → Flights K E T
  unfolding assign
  start key s = record s {
    flights = assign key (some s.next) s.flights;
    next = suc s.next;
    key_of = assign s.next (some key) s.key_of;
  }

  joined : K → Option ℕ → Flights K E T → ℕ × Flights K E T
  unfolding start
  joined key (some flight) s = (flight, s)
  joined key none s = (s.next, start key s)

  -- What `run` does with the map locked: the flight it waits for.
  unfoldable pub run : K → Flights K E T → ℕ × Flights K E T
  unfolding joined
  run key s = joined key (s.flights key) s

  -- The end of a flight's task, with the drop of its `Landed`.
  unfoldable pub land : ℕ → K → Joined E T → Flights K E T → Flights K E T
  unfolding assign flight_result
  land flight key outcome s = record s {
    flights = assign key none s.flights;
    ended = assign flight (some (flight_result outcome)) s.ended;
  }

  -- Calls and ends of tasks, in any order.
  pub data Reachable : Flights K E T → Type 0 where
    at_first : Reachable no_flights
    calls : {s : Flights K E T} (key : K) → Reachable s → Reachable (run key s).1
    lands :
        {s : Flights K E T} (flight : ℕ) (key : K) (outcome : Joined E T)
        → Reachable s
        → s.key_of flight ≡ some key
        → s.ended flight ≡ none
        → Reachable (land flight key outcome s)
