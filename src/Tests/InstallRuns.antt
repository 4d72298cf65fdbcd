-- ===== src/Tests/InstallRuns.antt =====
-- The theorems on the installation, for a service `echo` of version 1.
use unixd.Prelude.{
  ◌≡◌, refl, Bytes, ascii, List, [], ◌∷◌, Option, none, some, ok, nat_eq, list_eq, ◌==◌,
  if◌then◌else◌, lookup, list_beq, arith,
}
use unixd.Daemon.Install.{Service, socket_path, unit_dir, install, uninstall}
use unixd.Daemon.UnitFiles.Quoting.{exec_start_inj}
use unixd.Daemon.Install.Units.{quiet, is_own, uninstall-install}

abbrev echo : Service
echo = record { name = ascii "echo"; major = 1 }

abbrev long_named : Service
long_named = record {
  name = ascii "a-service-with-a-name-that-is-much-too-long-for-the-path-of-a-socket";
  major = 1;
}

abbrev variables : Bytes → Option Bytes
variables name =
    if name == ascii "XDG_RUNTIME_DIR"
    then some (ascii "/run/user/7")
    else if name == ascii "HOME"
    then some (ascii "/home/u")
    else none

abbrev echo_socket : Bytes
echo_socket = ascii "/run/user/7/echo/echo-v1.sock"

abbrev long_socket : Bytes
long_socket =
    ascii
      "/run/user/7/a-service-with-a-name-that-is-much-too-long-for-the-path-of-a-socket/a-service-with-a-name-that-is-much-too-long-for-the-path-of-a-socket-v1.sock"

abbrev units : Bytes
units = ascii "/home/u/.config/systemd/user"

test_socket : socket_path variables echo ≡ ok echo_socket
unfolding socket_path list_beq
test_socket = refl

test_long_socket : socket_path variables long_named ≡ ok long_socket
unfolding socket_path list_beq
test_long_socket = refl

test_units : unit_dir variables ≡ ok units
unfolding unit_dir list_beq
test_units = refl

abbrev test_files : List (Bytes × Bytes)
test_files = (ascii "/home/u/notes", ascii "text") ∷ []

uninstall-install_example :
    ((install echo (ascii "/bin/echod") [] (quiet variables test_files [])).0 ≡ ok tt)
    × ((uninstall echo (install echo (ascii "/bin/echod") [] (quiet variables test_files [])).1).0
        ≡ ok tt)
    × ((p : Bytes)
        → lookup p
            (uninstall echo
              (install echo (ascii "/bin/echod") [] (quiet variables test_files [])).1).1.files
          ≡ (if is_own echo variables test_files [] echo_socket units test_socket test_units p
              then none
              else lookup p test_files))
uninstall-install_example =
    uninstall-install echo variables test_files [] echo_socket units test_socket test_units
      (ascii "/bin/echod") [] (omega arith)

exec_start_inj_example :
    (ascii "/bin/a b" ≡ ascii "/bin/a b")
    × (◌≡◌ {A = List Bytes} (ascii "$%" ∷ []) (ascii "$%" ∷ []))
exec_start_inj_example =
    exec_start_inj (ascii "/bin/a b") (ascii "/bin/a b") (ascii "$%" ∷ []) (ascii "$%" ∷ []) refl
