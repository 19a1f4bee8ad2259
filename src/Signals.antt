-- ===== src/Signals.antt =====
-- src/signals.rs: the handler sig_catch and the functions that install it, and the delivery of
-- signals to it. A delivered signal finds the disposition that sigaction set, unless it is one of
-- the set that ssh_watch blocks and the set is blocked.
pub mod Armed
pub mod Delivery
pub mod Dispositions
use autossh_1_4g.Base.{ℕ, Bool, true, false, ◌&&◌, List, [], ◌∷◌, ◌==◌, if◌then◌else◌}
use autossh_1_4g.Posix.{Signal, signo, Disposition, dfl, ign, catcher, Call}
use autossh_1_4g.Posix.Signal.{sighup, sigint, sigusr1, sigusr2, sigpipe, sigalrm, sigterm, sigchld}
use autossh_1_4g.Process.{
  State, M, Outcome, done, jumped, ended, killed, exited, pure, modify, record_call, ◌>>=◌, ◌>>◌,
}

-- The first termination signal sets the flag; the second ends the process.
unfoldable pub terminate : M (Unit {0})
terminate os s =
    let noted = record s { trace = Call.end_signal ∷ s.trace } in
    if s.exit_signalled
    then ended (exited 1) noted
    else done tt (record noted { exit_signalled = true })

unfoldable pub note_signal : Signal → M (Unit {0})
unfolding terminate
note_signal sigusr1 = modify (λ s. record s { restart_ssh = true })
note_signal sigterm = terminate
note_signal sigint = terminate
note_signal _ = pure tt

unfoldable pub jump_back : Signal → M (Unit {0})
jump_back sig os s = if s.dolongjmp then jumped sig (record s { dolongjmp = false }) else done tt s

unfoldable pub sig_catch : Signal → M (Unit {0})
unfolding note_signal jump_back
sig_catch sig = do note_signal sig; jump_back sig

-- build_blockmask of src/watch.rs
abbrev pub in_blockmask : Signal → Bool
in_blockmask sigchld = true
in_blockmask sigalrm = true
in_blockmask sigint = true
in_blockmask sigterm = true
in_blockmask sighup = true
in_blockmask sigusr1 = true
in_blockmask sigusr2 = true
in_blockmask _ = false

-- The default action: SIGCHLD is discarded, every other signal here ends the process.
abbrev pub default_action : Signal → M (Unit {0})
default_action sigchld os s = done tt s
default_action g os s = ended (killed g) s

unfoldable pub dispose : Disposition → Signal → M (Unit {0})
unfolding sig_catch
dispose dfl g = default_action g
dispose ign g = pure tt
dispose catcher g = sig_catch g

-- A blocked signal stays pending: the kernel may present it at any later call.
unfoldable pub deliver_one : Signal → M (Unit {0})
unfolding dispose
deliver_one g os s = if s.masked && in_blockmask g then done tt s else dispose (s.handlers g) g os s

unfoldable pub deliver : List Signal → M (Unit {0})
unfolding deliver_one
deliver [] = pure tt
deliver (g ∷ gs) = do deliver_one g; deliver gs

-- sleep(3), during which unblocked signals are handled.
unfoldable pub sleep : ℕ → M (Unit {0})
unfolding deliver
sleep n os s = (do record_call (Call.sleep n); deliver (os.arrivals s.calls)) os s

unfoldable pub sigaction : Signal → Disposition → M (Unit {0})
sigaction g d =
    modify λ s. record s { handlers = λ h. if signo h == signo g then d else s.handlers h }

unfoldable pub set_exit_sig_handler : M (Unit {0})
unfolding sigaction
set_exit_sig_handler = do sigaction sigterm catcher; sigaction sigint catcher

unfoldable pub set_sig_handlers : M (Unit {0})
unfolding sigaction
set_sig_handlers = do
  sigaction sigterm catcher
  sigaction sigint catcher
  sigaction sighup catcher
  sigaction sigusr1 catcher
  sigaction sigusr2 catcher
  sigaction sigchld catcher
  sigaction sigalrm catcher
  sigaction sigpipe ign

unfoldable pub unset_sig_handlers : M (Unit {0})
unfolding sigaction
unset_sig_handlers = do
  sigaction sighup dfl
  sigaction sigusr1 dfl
  sigaction sigusr2 dfl
  sigaction sigchld dfl
  sigaction sigalrm dfl
  sigaction sigpipe dfl
