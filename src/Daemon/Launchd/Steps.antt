-- ===== src/Daemon/Launchd/Steps.antt =====
-- What the single actions of crates/unixd/src/install.rs on macOS leave alone, and how a block of them succeeds.
use unixd.Prelude.{◌≡◌, refl, ap, ◌∙◌, Bytes, Result, ok, err, nat_eq, list_eq}
use unixd.Daemon.Install.{InstallError, ActionOn, continued, ◌>>=◌, make_dir}
use unixd.Daemon.Launchd.{Mac, on_machine}
use unixd.Daemon.Launchd.Waiting.{Ran, effect-Ran}

pub never : {e : InstallError} → ◌≡◌ {A = Result InstallError (Unit {0})} (err e) (ok tt) → ⊥
never e = cc

-- What an action leaves that only touches the machine, and of that not the environment.
pub record Same (w v : Mac) : Type 0 where
  pub variables : v.machine.variables ≡ w.machine.variables
  pub euid : v.euid ≡ w.euid
  pub prints : v.prints ≡ w.prints
  pub sockets : v.sockets ≡ w.sockets

pub Same-Ran : (w v : Mac) → Ran w v → Same w v
Same-Ran w v r = record {
  variables = ap (λ (u : Mac). u.machine.variables) r.result ∙ r.variables;
  euid = ap (λ (u : Mac). u.euid) r.result;
  prints = ap (λ (u : Mac). u.prints) r.result;
  sockets = ap (λ (u : Mac). u.sockets) r.result;
}

pub Same-trans : (u v w : Mac) → Same u v → Same v w → Same u w
Same-trans u v w a b = record {
  variables = b.variables ∙ a.variables;
  euid = b.euid ∙ a.euid;
  prints = b.prints ∙ a.prints;
  sockets = b.sockets ∙ a.sockets;
}

pub Ran-files : (w v : Mac) → Ran w v → v.machine.files ≡ w.machine.files
Ran-files w v r = ap (λ (u : Mac). u.machine.files) r.result ∙ r.files

pub make_dir-Ran : (path : Bytes) (w : Mac) → Ran w (on_machine (make_dir path) w).1
unfolding make_dir
make_dir-Ran path w = effect-Ran _ w (λ m. refl) (λ m. refl)

-- A block that succeeds began with an action that did, and ends where its rest does.
pub record Bound {S A B : Type 0} (m : ActionOn S A) (f : A → ActionOn S B) (w : S) (b : B)
    : Type 0 where
  pub value : A
  pub first : (m w).0 ≡ ok value
  pub then_ok : (f value (m w).1).0 ≡ ok b
  pub end : ((m >>= f) w).1 ≡ (f value (m w).1).1

pub bind_ok :
    {S A B : Type 0} (m : ActionOn S A) (f : A → ActionOn S B) (w : S) (b : B)
    → ((m >>= f) w).0 ≡ ok b
    → Bound m f w b
unfolding ◌>>=◌
bind_ok {S} {A} {B} m f w b e = go (m w).0 refl e
  where
    go :
        (r : Result InstallError A) → (m w).0 ≡ r → (continued r f (m w).1).0 ≡ ok b → Bound m f w b
    go (ok a) first e = record { value = a; first = first; then_ok = e; end = rw first refl }
    go (err x) first e = absurd (cc)
