-- ===== src/Daemon/Launchd/Installed.antt =====
-- What a successful `install` of crates/unixd/src/install.rs on macOS leaves behind.
use unixd.Prelude.{
  ℕ, ◌≤◌, ◌<◌, ◌≡◌, refl, sym, ap, ◌∙◌, Bool, true, false, Bytes, ascii, List, [], ◌∷◌, Option,
  none, some, Result, ok, nat_eq, list_eq, ltb, length, lookup, arith, subst, ap₂,
}
use unixd.Daemon.Install.{Service, InstallError, Machine, Action, ActionOn, ◌>>=◌, make_dir}
use unixd.Daemon.Launchd.{
  Agent, Mac, on_machine, max_socket_path, socket_dir, socket_path, agents_dir, plist_path, domain,
  bootout, is_ready, await_socket, Found, refuse_word, refuse_path, first_not_unicode, agent, env,
  bootstrap, install_agent, platform_install, install,
}
use unixd.Daemon.Launchd.Waiting.{
  first_true, first_true-some, awaited, await_socket_lem, bootout-Gone, launchctl-Ran,
}
use unixd.Daemon.Launchd.Steps.{never, Same, Same-Ran, Same-trans, Ran-files, make_dir-Ran, bind_ok}

-- What the crate plist documents of `to_file_xml`: a file that it wrote reads back as the same value.
pub record XmlLaws (to_file_xml : Bytes → Agent → Action (Unit {0}))
    (from_xml : Bytes → Option Agent) : Type 0 where
  pub reads_back :
      (path : Bytes) (a : Agent) (m : Machine)
      → (to_file_xml path a m).0 ≡ ok tt
      → (content : Bytes) × (lookup path (to_file_xml path a m).1.files ≡ some content)
        × (from_xml content ≡ some a)
  pub keeps_variables :
      (path : Bytes) (a : Agent) (m : Machine) → (to_file_xml path a m).1.variables ≡ m.variables

pub record Installed (from_xml : Bytes → Option Agent) (service : Service) (words : List Bytes)
    (socket : Bytes) (w v : Mac) : Type 0 where
  pub plist : Bytes
  pub plist_at : plist_path w.machine.variables service ≡ ok plist
  pub content : Bytes
  pub written : lookup plist v.machine.files ≡ some content
  pub reads_back : from_xml content ≡ some (agent service socket words)
  pub looks : ℕ
  pub few : looks < 51
  pub unloaded : w.prints looks ≡ false
  pub tries : ℕ
  pub soon : tries < 50
  pub ready : is_ready w.euid (w.sockets tries) ≡ true

module _ (to_file_xml : Bytes → Agent → Action (Unit {0})) (from_xml : Bytes → Option Agent)
    (laws : XmlLaws to_file_xml from_xml) where
  awaited_ok :
      (socket : Bytes) (w : Mac)
      → (await_socket socket w).0 ≡ ok tt
      → (k : ℕ) × (k < 50)
        × (is_ready w.euid (w.sockets k) ≡ true)
        × ((await_socket socket w).1.machine ≡ w.machine)
  awaited_ok socket w e = go (first_true 50 (λ k. is_ready w.euid (w.sockets k))) refl
    where
      go :
          (o : Option ℕ)
          → first_true 50 (λ k. is_ready w.euid (w.sockets k)) ≡ o
          → (k : ℕ) × (k < 50)
            × (is_ready w.euid (w.sockets k) ≡ true)
            × ((await_socket socket w).1.machine ≡ w.machine)
      go none found =
          let whole = await_socket_lem socket w ∙ ap (λ o. awaited 50 socket o w) found in
          absurd (never (sym (ap (λ (r : Result InstallError (Unit {0}) × Mac). r.0) whole) ∙ e))
      go (some k) found =
          let whole = await_socket_lem socket w ∙ ap (λ o. awaited 50 socket o w) found in
          let (few, accepted) = first_true-some 50 _ k found in
          (k, few, accepted, ap (λ (r : Result InstallError (Unit {0}) × Mac). r.1.machine) whole)

  -- What the plist's write leaves.
  to_file_xml_ok :
      (path : Bytes) (a : Agent) (w : Mac)
      → (on_machine (to_file_xml path a) w).0 ≡ ok tt
      → Same w (on_machine (to_file_xml path a) w).1
        × ((content : Bytes) × (lookup path (on_machine (to_file_xml path a) w).1.machine.files
              ≡ some content)
            × (from_xml content ≡ some a))
  unfolding on_machine
  to_file_xml_ok path a w e = (
    record {
      variables = laws.keeps_variables path a w.machine;
      euid = refl;
      prints = refl;
      sockets = refl;
    },
    laws.reads_back path a w.machine e,
  )

  abbrev load_agent : Service → Bytes → Bytes → Agent → ActionOn Mac (Unit {0})
  load_agent service socket plist a =
      on_machine (to_file_xml plist a)
      >>= (λ _. bootout service >>= λ _. bootstrap plist >>= λ _. await_socket socket)

  -- The part from the plist's write on.
  load_agent_ok :
      (service : Service) (socket plist : Bytes) (words : List Bytes) (w u : Mac)
      → Same w u
      → plist_path w.machine.variables service ≡ ok plist
      → (load_agent service socket plist (agent service socket words) u).0 ≡ ok tt
      → Installed from_xml service words socket w
          (load_agent service socket plist (agent service socket words) u).1
  load_agent_ok service socket plist words w u head plist_at e =
      let xml = bind_ok (on_machine (to_file_xml plist (agent service socket words))) _ u tt e in
      let w3 : Mac = (on_machine (to_file_xml plist (agent service socket words)) u).1 in
      let booted = bind_ok (bootout service) _ w3 tt xml.then_ok in
      let w4 : Mac = (bootout service w3).1 in
      let strapped = bind_ok (bootstrap plist) _ w4 tt booted.then_ok in
      let w5 : Mac = (bootstrap plist w4).1 in
      let (third, written) = to_file_xml_ok plist (agent service socket words) u xml.first in
      let same = Same-trans w u w3 head third in
      let gone = (bootout-Gone service w3).1 booted.first in
      let ran = launchctl-Ran (ascii "bootstrap" ∷ domain w4.euid ∷ plist ∷ []) w4 in
      let more = Same-Ran w4 w5 ran in
      let (tries, soon, ready, kept) = awaited_ok socket w5 strapped.then_ok in
      let ends = xml.end ∙ booted.end ∙ strapped.end in
      record {
        plist = plist;
        plist_at = plist_at;
        content = written.0;
        written =
            ap (λ (v : Mac). lookup plist v.machine.files) ends
            ∙ ap (λ (m : Machine). lookup plist m.files) kept
            ∙ ap (lookup plist) (Ran-files w4 w5 ran ∙ gone.files)
            ∙ written.1;
        reads_back = written.2;
        looks = gone.looks;
        few = gone.few;
        unloaded = ap (λ (f : ℕ → Bool). f gone.looks) (sym same.prints) ∙ gone.unloaded;
        tries = tries;
        soon = soon;
        ready =
            ap₂ (λ uid (f : ℕ → Option Found). is_ready uid (f tries))
              (sym same.euid ∙ sym gone.euid ∙ sym more.euid)
              (sym same.sockets ∙ sym gone.sockets ∙ sym more.sockets)
            ∙ ready;
      }

  install_agent_ok :
      (service : Service) (socket : Bytes) (words : List Bytes) (w : Mac)
      → (install_agent to_file_xml service socket (agent service socket words) w).0 ≡ ok tt
      → Installed from_xml service words socket w
          (install_agent to_file_xml service socket (agent service socket words) w).1
  unfolding install_agent
  install_agent_ok service socket words w e =
      let dir = bind_ok (env (λ variables. socket_dir variables service.name)) _ w tt e in
      let made = bind_ok (on_machine (make_dir dir.value)) _ w tt dir.then_ok in
      let w1 : Mac = (on_machine (make_dir dir.value) w).1 in
      let plist = bind_ok (env (λ variables. plist_path variables service)) _ w1 tt made.then_ok in
      let agents = bind_ok (env agents_dir) _ w1 tt plist.then_ok in
      let made_agents = bind_ok (on_machine (make_dir agents.value)) _ w1 tt agents.then_ok in
      let w2 : Mac = (on_machine (make_dir agents.value) w1).1 in
      let first = Same-Ran w w1 (make_dir-Ran dir.value w) in
      let second = Same-Ran w1 w2 (make_dir-Ran agents.value w1) in
      subst (Installed from_xml service words socket w)
        (sym (dir.end ∙ made.end ∙ plist.end ∙ agents.end ∙ made_agents.end))
        (load_agent_ok service socket plist.value words w w2 (Same-trans w w1 w2 first second)
          (ap (λ v. plist_path v service) (sym first.variables) ∙ plist.first) made_agents.then_ok)

  -- An action behind the two refusals that succeeds was not refused.
  not_refused_word :
      (o : Option Bytes) (m : ActionOn Mac (Unit {0})) (w : Mac)
      → (refuse_word o m w).0 ≡ ok tt
      → (o ≡ none) × (refuse_word o m ≡ m)
  not_refused_word none m w e = (refl, refl)
  not_refused_word (some word) m w e = absurd (never e)

  not_refused_path :
      (b : Bool) (socket : Bytes) (m : ActionOn Mac (Unit {0})) (w : Mac)
      → (refuse_path b socket m w).0 ≡ ok tt
      → (b ≡ false) × (refuse_path b socket m ≡ m)
  not_refused_path false socket m w e = (refl, refl)
  not_refused_path true socket m w e = absurd (never e)

  -- An install that succeeds has a socket's path that macOS allows and a UTF-8 command, and leaves at the
  -- plist's path a file that reads back as the agent of this service, socket and command. It has seen the
  -- service's earlier job gone, at the 51st look at the latest, and one of 50 looks has found at the
  -- socket's path a socket that belongs to the caller.
  pub install-Installed :
      (service : Service) (program : Bytes) (args : List Bytes) (w : Mac)
      → (install to_file_xml service program args w).0 ≡ ok tt
      → (socket : Bytes) × (socket_path w.machine.variables service ≡ ok socket)
        × (length socket ≤ max_socket_path)
        × (first_not_unicode (program ∷ args) ≡ none)
        × Installed from_xml service
            (program ∷ args)
            socket
            w
            (install to_file_xml service program args w).1
  unfolding install platform_install
  install-Installed service program args w e =
      let socket = bind_ok (env (λ variables. socket_path variables service)) _ w tt e in
      let (short, path_passes) = not_refused_path _ socket.value _ w socket.then_ok in
      let run : ActionOn Mac (Unit {0}) → Result InstallError (Unit {0}) × Mac = λ m. m w in
      let after_path = sym (ap run path_passes) in
      let (good, word_passes) =
        not_refused_word (first_not_unicode (program ∷ args)) _ w
          (ap (λ (r : Result InstallError (Unit {0}) × Mac). r.0) after_path ∙ socket.then_ok) in
      let whole = ap run path_passes ∙ ap run word_passes in
      (
        socket.value,
        socket.first,
        shorter socket.value short,
        good,
        subst (Installed from_xml service (program ∷ args) socket.value w)
            (sym (socket.end ∙ ap (λ (r : Result InstallError (Unit {0}) × Mac). r.1) whole))
            (install_agent_ok service socket.value (program ∷ args) w (
              ap (λ (r : Result InstallError (Unit {0}) × Mac). r.0) (sym whole) ∙ socket.then_ok)),
      )
    where
      shorter :
          (socket : Bytes)
          → ltb max_socket_path (length socket) ≡ false
          → length socket ≤ max_socket_path
      shorter socket h = ground arith
