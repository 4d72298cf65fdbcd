-- ===== src/Daemon/Launchd.antt =====
-- crates/unixd/src/install.rs on macOS: a service as a `LaunchAgent`. Beside the machine of Install.antt, whose
-- effects can fail, there are the answers that launchd will give: whether each coming look finds the job
-- loaded, and what each coming look finds at the socket's path. The crate plist is a parameter.
pub mod Waiting
pub mod Steps
pub mod Installed
use unixd.Prelude.{
  ℕ, zero, suc, ◌+◌, Bool, true, false, not, ◌&&◌, Bytes, ascii, List, [], ◌∷◌, ◌++◌, Option, none,
  some, Result, ok, err, nat_eq, ◌==◌, if◌then◌else◌, ltb, leb, length,
}
use unixd.Daemon.Numbers.{decimal}
use unixd.PathBuf.{parent, join}
use unixd.Daemon.Install.{
  Service, label, InstallError, not_unicode, socket_path_too_long, socket_not_ready, command,
  Machine, Action, ActionOn, ◌>>=◌, ◌>>◌, effect, absolute_env, remove_if_present, remove_dir,
  make_dir,
}

pub record Agent : Type 0 where
  pub label : Bytes
  pub program_arguments : List Bytes
  pub path : Bytes
  pub mode : ℕ
  pub wait : Bool
  pub throttle_interval : ℕ

-- What `symlink_metadata` finds at the socket's path.
pub record Found : Type 0 where
  pub is_socket : Bool
  pub uid : ℕ

pub record Mac : Type 0 where
  pub machine : Machine
  pub euid : ℕ
  pub prints : ℕ → Bool  -- whether each coming `launchctl print` of the job succeeds
  pub sockets : ℕ → Option Found
  pub slept : ℕ  -- in milliseconds

unfoldable pub on_machine : {A : Type 0} → Action A → ActionOn Mac A
on_machine m w = let (r, machine) = m w.machine in (r, record w { machine = machine })

abbrev pub done : ActionOn Mac (Unit {0})
done w = (ok tt, w)

abbrev pub fail : InstallError → ActionOn Mac (Unit {0})
fail e w = (err e, w)

-- `run(Command::new("launchctl")…)`
unfoldable pub launchctl : List Bytes → ActionOn Mac (Unit {0})
unfolding on_machine effect
launchctl args =
    on_machine (effect (λ m. record m { commands = m.commands ++ (ascii "launchctl" ∷ args) ∷ [] }))

unfoldable pub sleep : ℕ → ActionOn Mac (Unit {0})
sleep milliseconds w = (ok tt, record w { slept = w.slept + milliseconds })

abbrev pub max_socket_path : ℕ
max_socket_path = 103

module _ (variables : Bytes → Option Bytes) where
  home_path : List Bytes → Result InstallError Bytes → Result InstallError Bytes
  home_path [] r = r
  home_path (name ∷ names) (err e) = err e
  home_path (name ∷ names) (ok dir) = home_path names (ok (join dir name))

  unfoldable pub socket_dir : Bytes → Result InstallError Bytes
  unfolding home_path absolute_env join
  socket_dir name =
      home_path (ascii "Library" ∷ ascii "Application Support" ∷ name ∷ [])
        (absolute_env variables (ascii "HOME"))

  unfoldable pub socket_path : Service → Result InstallError Bytes
  unfolding home_path socket_dir label
  socket_path self = home_path ((label self ++ ascii ".sock") ∷ []) (socket_dir self.name)

  unfoldable pub agents_dir : Result InstallError Bytes
  unfolding home_path absolute_env join
  agents_dir =
      home_path (ascii "Library" ∷ ascii "LaunchAgents" ∷ [])
        (absolute_env variables (ascii "HOME"))

  unfoldable pub plist_path : Service → Result InstallError Bytes
  unfolding home_path agents_dir label
  plist_path service = home_path ((label service ++ ascii ".plist") ∷ []) agents_dir

unfoldable pub domain : ℕ → Bytes
unfolding decimal
domain euid = ascii "gui/" ++ decimal euid

unfoldable pub target : ℕ → Service → Bytes
unfolding domain label
target euid service = domain euid ++ b'/' ∷ label service

-- `loaded`: the next look at the job.
unfoldable pub loaded : ActionOn Mac Bool
loaded w = (ok (w.prints 0), record w { prints = λ n. w.prints (suc n) })

abbrev still_loaded : Bytes
still_loaded = ascii "the job was still loaded after 5 seconds"

-- The body of the loop, with the rest of the rounds.
unfoldable pub wait_if : Bool → ActionOn Mac (Unit {0}) → ActionOn Mac (Unit {0})
unfolding sleep
wait_if false rest = done
wait_if true rest = do sleep 100; rest

unfoldable pub timed_out : Service → ActionOn Mac (Unit {0})
unfolding target
timed_out service w =
    (err (command (ascii "launchctl bootout " ++ target w.euid service) still_loaded), w)

unfoldable pub bootout_loop : ℕ → Service → ActionOn Mac (Unit {0})
unfolding loaded wait_if timed_out
bootout_loop zero service = timed_out service
bootout_loop (suc rounds) service = do there ← loaded; wait_if there (bootout_loop rounds service)

bootout_if : Bool → Service → ActionOn Mac (Unit {0})
unfolding launchctl target bootout_loop
bootout_if false service w = (ok tt, w)
bootout_if true service w =
    (do launchctl (ascii "bootout" ∷ target w.euid service ∷ []); bootout_loop 50 service) w

unfoldable pub bootout : Service → ActionOn Mac (Unit {0})
unfolding bootout_if loaded
bootout service = do there ← loaded; bootout_if there service

unfoldable pub is_ready : ℕ → Option Found → Bool
is_ready euid none = false
is_ready euid (some found) = found.is_socket && found.uid == euid

-- The next look at the socket's path.
unfoldable pub look : ActionOn Mac (Option Found)
look w = (ok (w.sockets 0), record w { sockets = λ n. w.sockets (suc n) })

unfoldable pub await_loop : ℕ → Bytes → ℕ → ActionOn Mac (Unit {0})
unfolding look wait_if is_ready
await_loop zero socket uid = fail (socket_not_ready socket)
await_loop (suc rounds) socket uid = do
  found ← look
  wait_if (not (is_ready uid found)) (await_loop rounds socket uid)

unfoldable pub await_socket : Bytes → ActionOn Mac (Unit {0})
unfolding await_loop
await_socket socket w = await_loop 50 socket w.euid w

-- How a UTF-8 character goes on after its first byte: the range of the second one, and how many follow.
begins : ℕ → Option (ℕ × ℕ × ℕ)
begins b =
    if ltb b 0x80
    then some (0, 0, 0)
    else if leb 0xc2 b && leb b 0xdf
    then some (1, 0x80, 0xbf)
    else if b == 0xe0
    then some (2, 0xa0, 0xbf)
    else if b == 0xed
    then some (2, 0x80, 0x9f)
    else if leb 0xe1 b && leb b 0xef
    then some (2, 0x80, 0xbf)
    else if b == 0xf0
    then some (3, 0x90, 0xbf)
    else if leb 0xf1 b && leb b 0xf3
    then some (3, 0x80, 0xbf)
    else if b == 0xf4
    then some (3, 0x80, 0x8f)
    else none

utf8_from : ℕ → ℕ → ℕ → Bytes → Bool
unfolding begins
utf8_from zero low high [] = true
utf8_from zero low high (b ∷ word) = elim (begins b) [
  | none ↦ false
  | some (more, next_low, next_high) ↦ utf8_from more next_low next_high word
]
utf8_from (suc more) low high [] = false
utf8_from (suc more) low high (b ∷ word) =
    leb low b && (leb b high && utf8_from more 0x80 0xbf word)

-- `OsStr::to_str` returns a text.
unfoldable pub is_unicode : Bytes → Bool
unfolding utf8_from
is_unicode word = utf8_from 0 0 0 word

-- The word at which the `collect` of all of them ends.
unfoldable pub first_not_unicode : List Bytes → Option Bytes
first_not_unicode [] = none
first_not_unicode (word ∷ words) = if is_unicode word then first_not_unicode words else some word

unfoldable pub agent : Service → Bytes → List Bytes → Agent
unfolding label
agent service socket words = record {
  label = label service;
  program_arguments = words;
  path = socket;
  mode = 0o600;
  wait = true;
  throttle_interval = 1;
}

-- What is read of the environment.
abbrev pub env : {A : Type 0} → ((Bytes → Option Bytes) → Result InstallError A) → ActionOn Mac A
env f w = (f w.machine.variables, w)

abbrev pub bootstrap : Bytes → ActionOn Mac (Unit {0})
bootstrap plist w = launchctl (ascii "bootstrap" ∷ domain w.euid ∷ plist ∷ []) w

-- The two refusals before anything is done.
abbrev pub refuse_word : Option Bytes → ActionOn Mac (Unit {0}) → ActionOn Mac (Unit {0})
refuse_word (some word) rest = fail (not_unicode word)
refuse_word none rest = rest

abbrev pub refuse_path : Bool → Bytes → ActionOn Mac (Unit {0}) → ActionOn Mac (Unit {0})
refuse_path true socket rest = fail (socket_path_too_long socket max_socket_path)
refuse_path false socket rest = rest

-- `plist::to_file_xml`, with its error as `InstallError::Io`.
module _ (to_file_xml : Bytes → Agent → Action (Unit {0})) where
  -- The part of `platform::install` after the words; the parent of the socket's path is the socket's
  -- directory.
  unfoldable pub install_agent : Service → Bytes → Agent → ActionOn Mac (Unit {0})
  install_agent service socket agent = do
    dir ← env (λ variables. socket_dir variables service.name)
    on_machine (make_dir dir)
    plist ← env (λ variables. plist_path variables service)
    agents ← env agents_dir
    on_machine (make_dir agents)
    on_machine (to_file_xml plist agent)
    bootout service
    bootstrap plist
    await_socket socket

  unfoldable pub platform_install : Service → Bytes → Bytes → List Bytes → ActionOn Mac (Unit {0})
  unfolding first_not_unicode agent install_agent
  platform_install service socket program args =
      refuse_word (first_not_unicode (program ∷ args))
        (install_agent service socket (agent service socket (program ∷ args)))

  unfoldable pub install : Service → Bytes → List Bytes → ActionOn Mac (Unit {0})
  unfolding platform_install socket_path
  install service program args = do
    socket ← env (λ variables. socket_path variables service)
    refuse_path (ltb max_socket_path (length socket)) socket
        (platform_install service socket program args)

unfoldable pub platform_uninstall : Service → ActionOn Mac (Unit {0})
unfolding bootout on_machine remove_if_present plist_path socket_path
platform_uninstall service = do
  bootout service
  plist ← env (λ variables. plist_path variables service)
  on_machine (remove_if_present plist)
  socket ← env (λ variables. socket_path variables service)
  on_machine (remove_if_present socket)

remove_dir_if : Option Bytes → ActionOn Mac (Unit {0})
unfolding on_machine remove_dir
remove_dir_if none w = (ok tt, w)
remove_dir_if (some dir) w = on_machine (remove_dir dir) w

unfoldable pub uninstall : Service → ActionOn Mac (Unit {0})
unfolding platform_uninstall remove_dir_if socket_path
uninstall service = do
  platform_uninstall service
  socket ← env (λ variables. socket_path variables service)
  remove_dir_if (parent socket)
