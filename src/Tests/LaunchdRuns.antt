-- ===== src/Tests/LaunchdRuns.antt =====
-- The theorems on the service of macOS, for a service `echo` whose earlier job takes two looks to go.
use unixd.Prelude.{
  zero, suc, ◌+◌, ◌≤◌, ◌≡◌, refl, Bool, true, false, ◌&&◌, Bytes, ascii, List, [], ◌∷◌, Option,
  none, some, ok, err, nat_eq, list_eq, list_beq, ◌==◌, ==_iff, ==_refl, if◌then◌else◌, lookup,
  insert, arith, lookup-insert, ◌∙◌, nat_beq, not, length, ap,
}
use unixd.Daemon.Install
use unixd.Daemon.Install.{Service, Machine, Action, io}
use unixd.Daemon.Launchd
use unixd.Daemon.Launchd.{
  Agent, Mac, Found, agent, install, socket_path, max_socket_path, first_not_unicode, bootout,
  await_socket, is_ready,
}
use unixd.Daemon.Launchd.Waiting.{Gone, bootout-Gone, awaited, first_true, await_socket_lem}
use unixd.Daemon.Launchd.Installed.{XmlLaws, Installed, install-Installed}

abbrev echo : Service
echo = record { name = ascii "echo"; major = 1 }

abbrev variables : Bytes → Option Bytes
variables name = if name == ascii "HOME" then some (ascii "/Users/u") else none

abbrev socket : Bytes
socket = ascii "/Users/u/Library/Application Support/echo/echo-v1.sock"

abbrev command : List Bytes
command = ascii "/bin/echod" ∷ ascii "5" ∷ []

abbrev echo_agent : Agent
echo_agent = agent echo socket command

same_agent : Agent → Agent → Bool
same_agent a b =
    (a.label == b.label && a.program_arguments == b.program_arguments)
    && ((a.path == b.path && nat_beq a.mode b.mode)
        && ((if a.wait then b.wait else not b.wait)
            && nat_beq a.throttle_interval b.throttle_interval))

same_agent-eq : (a b : Agent) → same_agent a b ≡ true → b ≡ a
unfolding same_agent
same_agent-eq a b e = ground (
  arith,
  ==_iff a.label b.label,
  ==_iff a.program_arguments b.program_arguments,
  ==_iff a.path b.path,
)

-- A writer of one agent alone.
abbrev written : Bool → Bytes → Action (Unit {0})
written true path m = (ok tt, record m { files = insert path [] m.files })
written false path m = (err (io 5), m)

to_file_xml : Bytes → Agent → Action (Unit {0})
unfolding same_agent
to_file_xml path a m = written (same_agent a echo_agent) path m

abbrev from_xml : Bytes → Option Agent
from_xml content = some echo_agent

abbrev ReadsBack : Bytes → Agent → Machine → Bool → Type 0
ReadsBack path a m b =
    (written b path m).0 ≡ ok tt
    → (content : Bytes) × (lookup path (written b path m).1.files ≡ some content)
      × (from_xml content ≡ some a)

reads_back :
    (path : Bytes) (a : Agent) (m : Machine) (b : Bool)
    → (b ≡ true → echo_agent ≡ a)
    → ReadsBack path a m b
reads_back path a m true same e =
    ([], lookup-insert path path [] m.files ∙ rw (==_refl path) refl, ap some (same refl))
reads_back path a m false same e = absurd (cc)

kept : (path : Bytes) (m : Machine) (b : Bool) → (written b path m).1.variables ≡ m.variables
kept path m true = refl
kept path m false = refl

xml_laws : XmlLaws to_file_xml from_xml
unfolding to_file_xml
xml_laws = record {
  reads_back =
      λ path a m. reads_back path a m (same_agent a echo_agent) (same_agent-eq a echo_agent);
  keeps_variables = λ path a m. kept path m (same_agent a echo_agent);
}

-- The job is there at the first two looks, and the socket is the user's at the second.
abbrev mac : Mac
mac = record {
  machine = record { variables = variables; files = []; commands = []; faults = [] };
  euid = 501;
  prints = elim [ zero ↦ true | suc zero ↦ true | _ ↦ false ];
  sockets = elim [
    | zero ↦ some (record { is_socket = true; uid = 0 })
    | _ ↦ some (record { is_socket = true; uid = 501 })
  ];
  slept = 0;
}

test_bootout : (bootout echo mac).0 ≡ ok tt
unfolding bootout Launchd.bootout_loop Launchd.loaded Launchd.launchctl Install.◌>>=◌
    Launchd.wait_if Launchd.sleep Launchd.on_machine Install.effect
test_bootout = refl

bootout-Gone_example :
    ((bootout echo mac).1.slept ≤ mac.slept + 5000)
    × ((bootout echo mac).0 ≡ ok tt → Gone 51 mac (bootout echo mac).1)
bootout-Gone_example = bootout-Gone echo mac

await_socket_lem_example :
    await_socket socket mac
    ≡ awaited 50 socket (first_true 50 (λ k. is_ready mac.euid (mac.sockets k))) mac
await_socket_lem_example = await_socket_lem socket mac

test_install : (install to_file_xml echo (ascii "/bin/echod") (ascii "5" ∷ []) mac).0 ≡ ok tt
unfolding install bootout Launchd.bootout_loop Launchd.loaded Launchd.launchctl Install.◌>>=◌
    Launchd.wait_if Launchd.sleep Launchd.on_machine Install.effect list_beq to_file_xml agent
    await_socket socket_path Launchd.platform_install Launchd.install_agent Launchd.plist_path
    Launchd.agents_dir Launchd.socket_dir Install.make_dir Launchd.is_unicode
test_install = refl

install-Installed_example :
    (at : Bytes) × (socket_path mac.machine.variables echo ≡ ok at)
    × (length at ≤ max_socket_path)
    × (first_not_unicode command ≡ none)
    × Installed from_xml echo command at mac
        (install to_file_xml echo (ascii "/bin/echod") (ascii "5" ∷ []) mac).1
install-Installed_example =
    install-Installed to_file_xml from_xml xml_laws echo (ascii "/bin/echod") (ascii "5" ∷ []) mac
      test_install
