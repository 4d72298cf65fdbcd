-- ===== src/Daemon/Install/Units.antt =====
-- What `install` and `uninstall` of crates/unixd/src/install.rs leave on a machine where no effect fails.
use unixd.Prelude.{
  some, none, ◌≡◌, ◌≤◌, inl, inr, refl, sym, ap, ◌∙◌, Bool, true, false, ◌||◌, Bytes, ascii, List,
  [], ◌∷◌, ◌++◌, Option, none, Result, ok, nat_eq, list_eq, ◌==◌, ==_iff, if◌then◌else◌, ltb,
  length, lookup, insert, erase, arith, Bool-cases, Option-cases, true≢false, lookup-insert,
  lookup-erase,
}
use unixd.PathBuf.{parent}
use unixd.Daemon.Install.{
  Service, InstallError, Machine, label, socket_path, unit_dir, ◌>>=◌, effect, write, remove_parent,
  remove_dir_if, systemctl, make_dir, remove_if_present, remove_dir, ignoring, max_socket_path,
  socket_file, service_file, platform_install, install, platform_uninstall, uninstall,
}
use unixd.Daemon.UnitFiles.{exec_start, socket_unit, service_unit}

abbrev pub quiet : (Bytes → Option Bytes) → List (Bytes × Bytes) → List (List Bytes) → Machine
quiet variables files commands = record {
  variables = variables;
  files = files;
  commands = commands;
  faults = [];
}

module _ (service : Service) (variables : Bytes → Option Bytes) (files : List (Bytes × Bytes))
    (commands : List (List Bytes)) (socket units : Bytes)
    (at : socket_path variables service ≡ ok socket) (in_dir : unit_dir variables ≡ ok units) where
  abbrev pub is_own : Bytes → Bool
  is_own p = p == socket || (p == service_file units service || p == socket_file units service)

  abbrev installed : Bytes → List Bytes → Machine
  installed program args =
      quiet variables
        (insert (service_file units service)
          (service_unit (label service) (exec_start program args))
          (insert (socket_file units service) (socket_unit (label service) socket) files))
        ((commands ++ (ascii "systemctl" ∷ ascii "--user" ∷ ascii "daemon-reload" ∷ []) ∷ [])
          ++ (ascii "systemctl"
              ∷ ascii "--user"
              ∷ ascii "enable"
              ∷ ascii "--now"
              ∷ (label service ++ ascii ".socket")
              ∷ [])
            ∷ [])

  install_lem :
      (program : Bytes) (args : List Bytes)
      → length socket ≤ max_socket_path
      → install service program args (quiet variables files commands)
        ≡ (ok tt, installed program args)
  unfolding install platform_install write systemctl make_dir effect ◌>>=◌
  install_lem program args short =
      let fits : ltb max_socket_path (length socket) ≡ false = ground (arith, short) in
      rw (at, fits, in_dir) refl

  abbrev removed : List (Bytes × Bytes) → List (Bytes × Bytes)
  removed f =
      erase (λ p. p == socket)
        (erase (λ p. p == service_file units service)
          (erase (λ p. p == socket_file units service) f))

  -- The removal of the socket's directory changes no file.
  parent_quiet :
      (f : List (Bytes × Bytes)) (c : List (List Bytes))
      → remove_parent service (socket_path variables service) (quiet variables f c)
        ≡ (ok tt, quiet variables f c)
  unfolding remove_parent remove_dir_if remove_dir ignoring effect
  parent_quiet f c = rw at (by_parent (parent socket))
    where
      by_parent :
          (dir : Option Bytes)
          → remove_dir_if dir (quiet variables f c) ≡ (ok tt, quiet variables f c)
      by_parent none = refl
      by_parent (some dir) = refl

  uninstall_lem :
      (f : List (Bytes × Bytes)) (c : List (List Bytes))
      → ((uninstall service (quiet variables f c)).0 ≡ ok tt)
        × ((uninstall service (quiet variables f c)).1.files ≡ removed f)
  unfolding uninstall platform_uninstall remove_if_present remove_dir ignoring systemctl effect
      ◌>>=◌
  uninstall_lem f c = elim (Option-cases (lookup (socket_file units service) f)) [
    | inl absent ↦ rw (in_dir, absent, at, parent_quiet) (refl, refl)
    | inr (unit, present) ↦ rw (in_dir, present, at, parent_quiet) (refl, refl)
  ]

  if_chain :
      (a b c : Bool) (o : Option Bytes)
      → (if a then none else (if b then none else (if c then none else o)))
        ≡ (if a || (b || c) then none else o)
  if_chain true b c o = refl
  if_chain false true c o = refl
  if_chain false false c o = refl

  abbrev unless : Bool → Option Bytes → Option Bytes
  unless gone o = if gone then none else o

  lookup-removed :
      (p : Bytes) (f : List (Bytes × Bytes)) → lookup p (removed f) ≡ unless (is_own p) (lookup p f)
  lookup-removed p f =
      lookup-erase (λ q. q == socket) p _
      ∙ ap (unless (p == socket)) (
          lookup-erase (λ q. q == service_file units service) p _
          ∙ ap (unless (p == service_file units service))
              (lookup-erase (λ q. q == socket_file units service) p f))
      ∙ if_chain (p == socket) (p == service_file units service) (p == socket_file units service)
          (lookup p f)

  flip : (p q : Bytes) → (p == q) ≡ false → (q == p) ≡ false
  flip p q apart = elim (Bool-cases (q == p)) [
    | inl own ↦ absurd (true≢false (sym ((==_iff p q).1 (sym ((==_iff q p).0 own))) ∙ apart))
    | inr o ↦ o
  ]

  -- What is no file of the service, an install leaves as it was.
  lookup-installed :
      (p : Bytes) (program : Bytes) (args : List Bytes)
      → is_own p ≡ false
      → lookup p (installed program args).files ≡ lookup p files
  lookup-installed p program args other_file =
      let at_service : (service_file units service == p) ≡ false =
        flip p (service_file units service) (ground (arith, other_file)) in
      let at_socket : (socket_file units service == p) ≡ false =
        flip p (socket_file units service) (ground (arith, other_file)) in
      lookup-insert (service_file units service) p _ _
      ∙ rw at_service (lookup-insert (socket_file units service) p _ files ∙ rw at_socket refl)

  -- Where no effect fails, and the base directories are set and the socket's path is no longer than the
  -- platform allows, an install succeeds; an uninstall after it succeeds too, and then there is no unit
  -- of the service and no socket, and every other file is as it was before the two.
  pub uninstall-install :
      (program : Bytes) (args : List Bytes)
      → length socket ≤ max_socket_path
      → ((install service program args (quiet variables files commands)).0 ≡ ok tt)
        × ((uninstall service (install service program args (quiet variables files commands)).1).0
            ≡ ok tt)
        × ((p : Bytes)
            → lookup p
                (uninstall service
                  (install service program args (quiet variables files commands)).1).1.files
              ≡ unless (is_own p) (lookup p files))
  uninstall-install program args short =
      let done = install_lem program args short in
      let (gone, left) =
        uninstall_lem (installed program args).files (installed program args).commands in
      (
        ap (λ (r : Result InstallError (Unit {0}) × Machine). r.0) done,
        rw done gone,
        λ p. rw done (ap (lookup p) left ∙ lookup-removed p _ ∙ others p),
      )
    where
      others :
          (p : Bytes)
          → unless (is_own p) (lookup p (installed program args).files)
            ≡ unless (is_own p) (lookup p files)
      others p = elim (Bool-cases (is_own p)) [
        | inl own ↦ rw own refl
        | inr other_file ↦ rw other_file (lookup-installed p program args other_file)
      ]
