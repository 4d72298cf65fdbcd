-- ===== src/Daemon/Serve.antt =====
-- crates/unixd/src/serve.rs: `serve_listener` from its first turn to its return, as steps. What tokio's
-- `select!` picks is the event of a step; a task's last two lines, the counter and the notification,
-- are one step. The listening socket and the signal handlers are the service manager's and tokio's.
pub mod Lifetime
use unixd.Prelude.{
  ℕ, suc, zero, ◌+◌, ◌-◌, ◌≡◌, Bool, true, false, not, ◌&&◌, Option, none, some, Result, ok, err,
  nat_eq, ◌==◌, if◌then◌else◌, Duration, from_secs,
}

pub record Lifecycle : Type 0 where
  pub idle_timeout : Duration
  pub drain_timeout : Duration

-- `Default for Lifecycle`
abbrev pub default_lifecycle : Lifecycle
default_lifecycle = record { idle_timeout = from_secs 600; drain_timeout = from_secs 5 }

-- What `listener.accept()` gives: a connection, one that the peer gave up, or another error.
pub data Accept : Type 0 where
  connection aborted : Accept
  failed : ℕ → Accept

pub data Phase : Type 0 where
  listening : Phase
  draining cutting returned : Result ℕ (Unit {0}) → Phase

pub record Server : Type 0 where
  pub phase : Phase
  pub open_count : ℕ  -- the counter of open connections
  pub tasks : ℕ  -- the tasks in the tracker that still run
  pub notified : Bool  -- the permit of `closed`
  pub armed : Bool  -- whether the idle timer of this turn runs

pub data Event : Type 0 where
  accept : Accept → Event
  closed idle shutdown terminate interrupt : Event
  finish : Event  -- a connection's task ends, served or cut
  drain_timeout drained : Event  -- the wait for the tasks: too long, or over

module _ (lifecycle : Lifecycle) where
  -- The `idle` future at the start of a turn of the loop.
  unfoldable pub turn : Server → Server
  turn s = record s { armed = s.open_count == 0 && not (lifecycle.idle_timeout == 0) }

  unfoldable pub initial : Server
  unfolding turn
  initial =
      turn
        (record { phase = listening; open_count = 0; tasks = 0; notified = false; armed = false })

  unfoldable pub after_accept : Accept → Server → Server
  unfolding turn
  after_accept connection s = turn (record s { open_count = s.open_count + 1; tasks = s.tasks + 1 })
  after_accept aborted s = turn s
  after_accept (failed error) s = record s { phase = draining (err error) }

  unfoldable pub finished : Server → Option Server
  finished s =
      if s.tasks == 0
      then none
      else some (record s { open_count = s.open_count - 1; tasks = s.tasks - 1; notified = true })

  -- A branch of the `select!`.
  unfoldable pub selected : Event → Server → Option Server
  unfolding after_accept finished turn
  selected (accept result) s = some (after_accept result s)
  selected closed s = if s.notified then some (turn (record s { notified = false })) else none
  selected idle s = if s.armed then some (record s { phase = draining (ok tt) }) else none
  selected shutdown s = some (record s { phase = draining (ok tt) })
  selected terminate s = some (record s { phase = draining (ok tt) })
  selected interrupt s = some (record s { phase = draining (ok tt) })
  selected finish s = finished s
  selected drain_timeout s = none
  selected drained s = none

  -- `tracker.wait()` within the drain timeout, and again once the connections are cut.
  unfoldable pub waited : Bool → Result ℕ (Unit {0}) → Event → Server → Option Server
  unfolding finished
  waited cut result finish s = finished s
  waited cut result drained s =
      if s.tasks == 0 then some (record s { phase = returned result }) else none
  waited cut result drain_timeout s =
      if cut then none else some (record s { phase = cutting result })
  waited cut result _ s = none

  -- `none` where the event cannot happen.
  unfoldable pub step_in : Phase → Event → Server → Option Server
  unfolding selected waited
  step_in listening event s = selected event s
  step_in (draining result) event s = waited false result event s
  step_in (cutting result) event s = waited true result event s
  step_in (returned result) event s = none

  unfoldable pub step : Event → Server → Option Server
  unfolding step_in
  step event s = step_in s.phase event s

  pub data Reachable : Server → Type 0 where
    at_start : Reachable initial
    by_step : {s t : Server} (event : Event) → Reachable s → step event s ≡ some t → Reachable t
