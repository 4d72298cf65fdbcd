-- ===== src/Daemon/Launchd/Waiting.antt =====
-- The two loops of crates/unixd/src/install.rs that wait for launchd, each of at most 50 looks.
use unixd.Prelude.{
  ℕ, zero, suc, ◌+◌, ◌*◌, ◌≤◌, ◌<◌, ◌≡◌, refl, ap, ◌∙◌, Bool, true, false, Bytes, ascii, List, [],
  ◌∷◌, Option, none, some, Result, ok, err, if◌then◌else◌, arith, Bool-cases, Option-cases, inl,
  inr,
}
use unixd.Daemon.Install.{
  Service, InstallError, socket_not_ready, Machine, with_fault, ActionOn, continued, ◌>>=◌, effect,
}
use unixd.Daemon.Launchd.{
  Mac, sleep, wait_if, loaded, look, is_ready, await_loop, await_socket, bootout_loop, bootout,
  bootout_if, timed_out, target, launchctl, on_machine,
}

abbrev one_later : Option ℕ → Option ℕ
one_later none = none
one_later (some k) = some (suc k)

-- The first of the next `rounds` readings that a test accepts.
pub first_true : ℕ → (ℕ → Bool) → Option ℕ
first_true zero test = none
first_true (suc rounds) test =
    if test 0 then some 0 else one_later (first_true rounds (λ n. test (suc n)))

-- The readings that are left after so many of them.
abbrev pub left : {A : Type 0} → ℕ → (ℕ → A) → ℕ → A
left zero readings = readings
left (suc k) readings = left k (λ n. readings (suc n))

abbrev pub waited : ℕ → Mac → Mac
waited k w = record w { slept = w.slept + k * 100 }

abbrev pub looked : ℕ → Mac → Mac
looked k w = record w { sockets = left k w.sockets }

abbrev pub awaited : ℕ → Bytes → Option ℕ → ActionOn Mac (Unit {0})
awaited rounds socket (some k) w = (ok tt, waited k (looked (suc k) w))
awaited rounds socket none w = (err (socket_not_ready socket), waited rounds (looked rounds w))

slept_more :
    (r : Result InstallError (Unit {0})) (w : Mac) (a b : ℕ)
    → a ≡ b
    → ◌≡◌ {A = Result InstallError (Unit {0}) × Mac}
        (r, record w { slept = a })
        (r, record w { slept = b })
slept_more r w a b e = ap (λ t. (r, record w { slept = t })) e

abbrev next_round : Mac → Mac
next_round w = record w { sockets = λ n. w.sockets (suc n); slept = w.slept + 100 }

pub first_true-some :
    (rounds : ℕ) (test : ℕ → Bool) (k : ℕ)
    → first_true rounds test ≡ some k
    → (k < rounds) × (test k ≡ true)
unfolding first_true
first_true-some zero test k e = cc
first_true-some (suc rounds) test k e = elim (Bool-cases (test 0)) [
  | inl now ↦ ground (arith, now)
  | inr not_now ↦ elim (Option-cases (first_true rounds (λ n. test (suc n)))) [
    | inl never ↦ ground (arith, never, not_now)
    | inr (j, later) ↦
        let (few, accepted) = first_true-some rounds (λ n. test (suc n)) j later in
        ground (arith, later, not_now)
  ]
]

awaited-next_round :
    (rounds : ℕ) (socket : Bytes) (o : Option ℕ) (w : Mac)
    → awaited rounds socket o (next_round w) ≡ awaited (suc rounds) socket (one_later o) w
awaited-next_round rounds socket none w =
    slept_more _ (looked (suc rounds) w) (w.slept + 100 + rounds * 100) (w.slept + suc rounds * 100)
      (omega arith)
awaited-next_round rounds socket (some k) w =
    slept_more _ (looked (suc (suc k)) w) (w.slept + 100 + k * 100) (w.slept + suc k * 100)
      (omega arith)

await_loop_lem :
    (rounds : ℕ) (socket : Bytes) (uid : ℕ) (w : Mac)
    → await_loop rounds socket uid w
      ≡ awaited rounds socket (first_true rounds (λ k. is_ready uid (w.sockets k))) w
unfolding await_loop look wait_if ◌>>=◌ sleep first_true
await_loop_lem zero socket uid w = slept_more _ w w.slept (w.slept + 0 * 100) (omega arith)
await_loop_lem (suc rounds) socket uid w = elim (Bool-cases (is_ready uid (w.sockets 0))) [
  | inl ready ↦ rw ready (slept_more _ (looked 1 w) w.slept (w.slept + 0 * 100) (omega arith))
  | inr not_ready ↦ rw not_ready (
      await_loop_lem rounds socket uid (next_round w)
      ∙ awaited-next_round rounds socket (first_true rounds (λ k. is_ready uid (w.sockets (suc k))))
          w)
]

-- `await_socket` returns at the first of 50 looks that finds at the path a socket of the caller's own user,
-- after a tenth of a second of sleep for each look before it, and looks no further; where none of the 50
-- does, it fails with `SocketNotReady` after five seconds of sleep. It changes nothing else.
pub await_socket_lem :
    (socket : Bytes) (w : Mac)
    → await_socket socket w
      ≡ awaited 50 socket (first_true 50 (λ k. is_ready w.euid (w.sockets k))) w
unfolding await_socket
await_socket_lem socket w = await_loop_lem 50 socket w.euid w

-- What is so when a wait for the end of the job returns: the looks before the last one found the job
-- loaded, and the last one did not.
pub record Gone (rounds : ℕ) (w v : Mac) : Type 0 where
  pub looks : ℕ
  pub few : looks < rounds
  pub unloaded : w.prints looks ≡ false
  pub before : (k : ℕ) → k < looks → w.prints k ≡ true
  pub rest : v.prints ≡ left (suc looks) w.prints
  pub files : v.machine.files ≡ w.machine.files
  pub variables : v.machine.variables ≡ w.machine.variables
  pub euid : v.euid ≡ w.euid
  pub sockets : v.sockets ≡ w.sockets

abbrev after_look : ℕ → Mac → Mac
after_look slept w = record w { prints = λ n. w.prints (suc n); slept = slept }

Gone-now :
    (rounds : ℕ) (w : Mac)
    → w.prints 0 ≡ false
    → Gone (suc rounds) w (record w { prints = λ n. w.prints (suc n) })
Gone-now rounds w no_job = record {
  looks = 0;
  few = omega arith;
  unloaded = no_job;
  before = λ k h. absurd (omega arith);
  rest = refl;
  files = refl;
  variables = refl;
  euid = refl;
  sockets = refl;
}

Gone-later :
    (rounds slept : ℕ) (w v : Mac) (m : Machine)
    → m.files ≡ w.machine.files
    → m.variables ≡ w.machine.variables
    → w.prints 0 ≡ true
    → Gone rounds (record (after_look slept w) { machine = m }) v
    → Gone (suc rounds) w v
Gone-later rounds slept w v m files variables there g = record {
  looks = suc g.looks;
  few = omega (arith, g.few);
  unloaded = g.unloaded;
  before = elim [ zero ↦ λ h. there | suc k ↦ λ h. g.before k (omega (arith, h)) ];
  rest = g.rest;
  files = g.files ∙ files;
  variables = g.variables ∙ variables;
  euid = g.euid;
  sockets = g.sockets;
}

abbrev Slept : ℕ → Mac → Result InstallError (Unit {0}) × Mac → Type 0
Slept time w (r, v) = (v.slept ≤ w.slept + time) × (r ≡ ok tt → Gone 51 w v)

abbrev Waited : ℕ → Mac → Result InstallError (Unit {0}) × Mac → Type 0
Waited rounds w (r, v) = (v.slept ≤ w.slept + rounds * 100) × (r ≡ ok tt → Gone rounds w v)

bootout_loop_lem :
    (rounds : ℕ) (service : Service) (w : Mac) → Waited rounds w (bootout_loop rounds service w)
unfolding bootout_loop loaded wait_if ◌>>=◌ sleep timed_out
bootout_loop_lem zero service w = (omega arith, λ e. cc)
bootout_loop_lem (suc rounds) service w = elim (Bool-cases (w.prints 0)) [
  | inl there ↦
      let (short, ends) = bootout_loop_lem rounds service (after_look (w.slept + 100) w) in
      rw there (
        omega (arith, short),
        λ e. Gone-later rounds (w.slept + 100) w _ w.machine refl refl there (ends e),
      )
  | inr no_job ↦ rw no_job (omega arith, λ e. Gone-now rounds w no_job)
]

-- What an effect does that changes no file, and may fail.
pub record Ran (w v : Mac) : Type 0 where
  pub machine : Machine
  pub result : v ≡ record w { machine = machine }
  pub files : machine.files ≡ w.machine.files
  pub variables : machine.variables ≡ w.machine.variables

pub effect-Ran :
    (f : Machine → Machine) (w : Mac)
    → ((m : Machine) → (f m).files ≡ m.files)
    → ((m : Machine) → (f m).variables ≡ m.variables)
    → Ran w (on_machine (effect f) w).1
unfolding on_machine effect
effect-Ran f w files variables = go w.machine.faults
  where
    go :
        (faults : List (Option InstallError))
        → Ran w (record w { machine = (with_fault faults f w.machine).1 })
    go [] = record { machine = _; result = refl; files = files _; variables = variables _ }
    go (none ∷ faults) = record {
      machine = _;
      result = refl;
      files = files _;
      variables = variables _;
    }
    go (some e ∷ faults) = record { machine = _; result = refl; files = refl; variables = refl }

pub launchctl-Ran : (args : List Bytes) (w : Mac) → Ran w (launchctl args w).1
unfolding launchctl
launchctl-Ran args w = effect-Ran _ w (λ m. refl) (λ m. refl)

after_command :
    (service : Service) (w v : Mac) (r : Result InstallError (Unit {0}))
    → w.prints 0 ≡ true
    → Ran (after_look w.slept w) v
    → Slept 5000 w (continued r (λ _. bootout_loop 50 service) v)
after_command service w v (err e) there ran = (ground (arith, ran.result), λ e. cc)
after_command service w v (ok _) there ran =
    let (short, ends) =
      bootout_loop_lem 50 service (record (after_look w.slept w) { machine = ran.machine }) in
    rw ran.result (
      omega (arith, short),
      λ e. Gone-later 50 w.slept w _ ran.machine ran.files ran.variables there (ends e),
    )

-- `bootout` returns only once a look at the job has found it gone, the 51st look at the latest: a look
-- before the command, and 50 after it. However it ends, it has slept for five seconds at most.
pub bootout-Gone :
    (service : Service) (w : Mac)
    → ((bootout service w).1.slept ≤ w.slept + 5000)
      × ((bootout service w).0 ≡ ok tt → Gone 51 w (bootout service w).1)
unfolding bootout loaded ◌>>=◌ bootout_if
bootout-Gone service w = elim (Bool-cases (w.prints 0)) [
  | inr no_job ↦ rw no_job (omega arith, λ e. Gone-now 50 w no_job)
  | inl there ↦ rw there (
      after_command service w _ _ there
        (launchctl-Ran (ascii "bootout" ∷ target w.euid service ∷ []) (after_look w.slept w)))
]
