-- ===== src/Signals/Dispositions.antt =====
-- Which signals are caught, and when.
use autossh_1_4g.Base.{◌≡◌, refl}
use autossh_1_4g.Posix.{Signal, Disposition, dfl, ign, catcher, Os}
use autossh_1_4g.Posix.Signal.{sighup, sigint, sigusr1, sigusr2, sigpipe, sigalrm, sigterm, sigchld}
use autossh_1_4g.Process.{State, Outcome, done, ◌>>◌}
use autossh_1_4g.Signals.{set_sig_handlers, unset_sig_handlers}

-- What is caught while ssh_watch runs: everything of its blocked set, and SIGPIPE is ignored.
abbrev pub watched : (Signal → Disposition) → Signal → Disposition
watched h sigterm = catcher
watched h sigint = catcher
watched h sighup = catcher
watched h sigusr1 = catcher
watched h sigusr2 = catcher
watched h sigchld = catcher
watched h sigalrm = catcher
watched h sigpipe = ign
watched h g = h g

-- What is caught between two children: the termination signals only.
abbrev pub between : (Signal → Disposition) → Signal → Disposition
between h sigterm = catcher
between h sigint = catcher
between h sighup = dfl
between h sigusr1 = dfl
between h sigusr2 = dfl
between h sigchld = dfl
between h sigalrm = dfl
between h sigpipe = dfl
between h g = h g

abbrev pub HasHandlers : (Signal → Disposition) → Outcome (Unit {0}) → Type 0
HasHandlers h (done a s) = (g : Signal) → s.handlers g ≡ h g
HasHandlers h _ = ⊥

pub set_sig_handlers-watched :
    (os : Os) (s : State) → HasHandlers (watched s.handlers) (set_sig_handlers os s)
unfolding set_sig_handlers
set_sig_handlers-watched os s sighup = refl
set_sig_handlers-watched os s _ = refl

-- Around a child, set_sig_handlers and then unset_sig_handlers leave SIGTERM and SIGINT caught and
-- put every other signal that was touched back to its default, whatever was installed before.
pub unset-set_between :
    (os : Os) (s : State)
    → HasHandlers (between s.handlers) ((set_sig_handlers >> unset_sig_handlers) os s)
unfolding set_sig_handlers unset_sig_handlers
unset-set_between os s sighup = refl
unset-set_between os s _ = refl
