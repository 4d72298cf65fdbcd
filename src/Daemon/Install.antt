-- ===== src/Daemon/Install.antt =====
-- crates/unixd/src/install.rs on Linux: the units of a service, written and removed. The world is the
-- environment's variables, the files, the commands that were run, and a list of faults, of which each
-- effect takes one: it fails with the error that stands there, if one does, and then does nothing.
pub mod Units
use unixd.Prelude.{
  ℕ, Bool, true, false, not, ◌||◌, Bytes, ascii, List, [], ◌∷◌, ◌++◌, Option, none, some, Result,
  ok, err, nat_eq, list_eq, ◌==◌, if◌then◌else◌, ltb, length, lookup, insert, erase,
}
use unixd.PathBuf.{parent, is_absolute, join}
use unixd.Daemon.UnitFiles.{exec_start, socket_unit, service_unit}
use unixd.Daemon.Numbers.{decimal}
use unixd.Daemon.Envelope.{Version}

pub record Service : Type 0 where
  pub name : Bytes
  pub major : ℕ

-- `Service::new`
abbrev pub new : Bytes → Version → Service
new name version = record { name = name; major = version.major }

unfoldable pub label : Service → Bytes
unfolding decimal
label self = self.name ++ ascii "-v" ++ decimal self.major

pub data InstallError : Type 0 where
  no_base_directory : Bytes → InstallError
  not_unicode : Bytes → InstallError
  socket_path_too_long : Bytes → ℕ → InstallError
  socket_not_ready : Bytes → InstallError
  command : Bytes → Bytes → InstallError
  io : ℕ → InstallError

pub record Machine : Type 0 where
  pub variables : Bytes → Option Bytes
  pub files : List (Bytes × Bytes)
  pub commands : List (List Bytes)
  pub faults : List (Option InstallError)

-- An action on a state that keeps its effects when it fails.
abbrev pub ActionOn : Type 0 → Type 0 → Type 0
ActionOn S A = S → Result InstallError A × S

abbrev pub Action : Type 0 → Type 0
Action A = ActionOn Machine A

module _ {S A B : Type 0} where
  abbrev pub continued : Result InstallError A → (A → ActionOn S B) → ActionOn S B
  continued (ok a) f w = f a w
  continued (err e) f w = (err e, w)

  infixl 10 ◌>>=◌ ◌>>◌
  unfoldable pub ◌>>=◌ : ActionOn S A → (A → ActionOn S B) → ActionOn S B
  ◌>>=◌ m f w = let (r, w') = m w in continued r f w'

  abbrev pub ◌>>◌ : ActionOn S A → ActionOn S B → ActionOn S B
  m >> n = m >>= λ _. n

abbrev pub with_fault : List (Option InstallError) → (Machine → Machine) → Action (Unit {0})
with_fault [] f w = (ok tt, f w)
with_fault (none ∷ rest) f w = (ok tt, f (record w { faults = rest }))
with_fault (some e ∷ rest) f w = (err e, record w { faults = rest })

unfoldable pub effect : (Machine → Machine) → Action (Unit {0})
effect f w = with_fault w.faults f w

absolute : Bytes → Option Bytes → Result InstallError Bytes
unfolding is_absolute
absolute variable none = err (no_base_directory variable)
absolute variable (some path) =
    if is_absolute path then ok path else err (no_base_directory variable)

unfoldable pub absolute_env : (Bytes → Option Bytes) → Bytes → Result InstallError Bytes
unfolding absolute
absolute_env variables variable = absolute variable (variables variable)

module _ (variables : Bytes → Option Bytes) where
  unfoldable pub socket_dir : Bytes → Result InstallError Bytes
  unfolding absolute_env join
  socket_dir name = elim (absolute_env variables (ascii "XDG_RUNTIME_DIR")) [
    | ok dir ↦ ok (join dir name)
    | err e ↦ err e
  ]

  unfoldable pub socket_path : Service → Result InstallError Bytes
  unfolding socket_dir label
  socket_path self = elim (socket_dir self.name) [
    | ok dir ↦ ok (join dir (label self ++ ascii ".sock"))
    | err e ↦ err e
  ]

  config_dir : Result InstallError Bytes
  unfolding absolute_env join
  config_dir = elim (absolute_env variables (ascii "XDG_CONFIG_HOME")) [
    | ok dir ↦ ok dir
    | err _ ↦ elim (absolute_env variables (ascii "HOME")) [
      | ok home ↦ ok (join home (ascii ".config"))
      | err e ↦ err e
    ]
  ]

  unfoldable pub unit_dir : Result InstallError Bytes
  unfolding config_dir
  unit_dir = elim config_dir [
    | ok config ↦ ok (join (join config (ascii "systemd")) (ascii "user"))
    | err e ↦ err e
  ]

unfoldable pub write : Bytes → Bytes → Action (Unit {0})
unfolding effect
write path content = effect (λ w. record w { files = insert path content w.files })

-- The error codes of Linux for a missing file and a directory in use.
abbrev no_entry : ℕ
no_entry = 2

abbrev not_empty : ℕ
not_empty = 39

abbrev without_error : (ℕ → Bool) → Result InstallError (Unit {0}) → Result InstallError (Unit {0})
without_error ignored (err (io code)) = if ignored code then ok tt else err (io code)
without_error ignored r = r

unfoldable pub ignoring : (ℕ → Bool) → Action (Unit {0}) → Action (Unit {0})
ignoring ignored m w = let (r, w') = m w in (without_error ignored r, w')

unfoldable pub remove_if_present : Bytes → Action (Unit {0})
unfolding effect ignoring
remove_if_present path =
    ignoring (λ code. code == no_entry)
      (effect (λ w. record w { files = erase (λ p. p == path) w.files }))

-- The directory has no file of its own in the world.
unfoldable pub remove_dir : Bytes → Action (Unit {0})
unfolding effect ignoring
remove_dir path = ignoring (λ code. code == no_entry || code == not_empty) (effect (λ w. w))

unfoldable pub systemctl : List Bytes → Action (Unit {0})
unfolding effect
systemctl args =
    effect
      (λ w. record w { commands = w.commands ++ (ascii "systemctl" ∷ ascii "--user" ∷ args) ∷ [] })

unfoldable pub make_dir : Bytes → Action (Unit {0})
unfolding effect
make_dir path = effect (λ w. w)

abbrev pub max_socket_path : ℕ
max_socket_path = 107

abbrev pub socket_file : Bytes → Service → Bytes
socket_file units service = join units (label service ++ ascii ".socket")

abbrev pub service_file : Bytes → Service → Bytes
service_file units service = join units (label service ++ ascii ".service")

unfoldable pub platform_install : Service → Bytes → Bytes → List Bytes → Action (Unit {0})
unfolding label unit_dir write systemctl make_dir exec_start
platform_install service socket program args w = elim (unit_dir w.variables) [
  | err e ↦ (err e, w)
  | ok units ↦
      (do
        make_dir units
        write (socket_file units service) (socket_unit (label service) socket)
        write (service_file units service) (service_unit (label service) (exec_start program args))
        systemctl (ascii "daemon-reload" ∷ [])
        systemctl (ascii "enable" ∷ ascii "--now" ∷ (label service ++ ascii ".socket") ∷ []))
        w
]

unfoldable pub install : Service → Bytes → List Bytes → Action (Unit {0})
unfolding platform_install socket_path
install service program args w = elim (socket_path w.variables service) [
  | err e ↦ (err e, w)
  | ok socket ↦
      if ltb max_socket_path (length socket)
      then (err (socket_path_too_long socket max_socket_path), w)
      else platform_install service socket program args w
]

-- Whether there was a unit to disable.
disable_if : Bool → Service → Action (Unit {0})
disable_if false service w = (ok tt, w)
disable_if true service w =
    systemctl
      (ascii "disable"
        ∷ ascii "--now"
        ∷ (label service ++ ascii ".socket")
        ∷ (label service ++ ascii ".service")
        ∷ [])
      w

is_there : Option Bytes → Bool
is_there none = false
is_there (some _) = true

remove_socket : Service → Result InstallError Bytes → Action (Unit {0})
remove_socket service (err e) w = (err e, w)
remove_socket service (ok socket) w = remove_if_present socket w

unfoldable pub platform_uninstall : Service → Action (Unit {0})
unfolding unit_dir label disable_if is_there remove_if_present remove_socket systemctl socket_path
platform_uninstall service w = elim (unit_dir w.variables) [
  | err e ↦ (err e, w)
  | ok units ↦
      (do
        disable_if (is_there (lookup (socket_file units service) w.files)) service
        remove_if_present (socket_file units service)
        remove_if_present (service_file units service)
        remove_socket service (socket_path w.variables service)
        systemctl (ascii "daemon-reload" ∷ []))
        w
]

remove_dir_if : Option Bytes → Action (Unit {0})
unfolding remove_dir
remove_dir_if none w = (ok tt, w)
remove_dir_if (some dir) w = remove_dir dir w

remove_parent : Service → Result InstallError Bytes → Action (Unit {0})
unfolding remove_dir_if
remove_parent service (err e) w = (err e, w)
remove_parent service (ok socket) w = remove_dir_if (parent socket) w

unfoldable pub uninstall : Service → Action (Unit {0})
unfolding platform_uninstall remove_parent socket_path
uninstall service = do
  platform_uninstall service
  (λ w. remove_parent service (socket_path w.variables service) w)
