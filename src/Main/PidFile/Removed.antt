-- ===== src/Main/PidFile/Removed.antt =====
-- The pid file at the end of the program.
use autossh_1_4g.Base.{
  List, ℕ, suc, ◌≤◌, ◌∷◌, ◌≡◌, refl, sym, ap, ◌∙◌, Bool, true, false, Option, none, some, ◌⊎◌, inl,
  inr, arith, if◌then◌else◌,
}
use autossh_1_4g.Base.Int.{ℤ, pos, negsuc}
use autossh_1_4g.Base.Bytes.{Bytes}
use autossh_1_4g.Posix.{Os, Call}
use autossh_1_4g.Settings.{defaults}
use autossh_1_4g.Process.{
  State, M, Outcome, done, jumped, ended, running, exited, killed, continue, initial, pure, quit,
  ◌>>=◌, ◌>>◌,
}
use autossh_1_4g.Process.Trace.{pid_file_there, end_signals}
use autossh_1_4g.Grace.{Doubles}
use autossh_1_4g.Kill.{ssh_kill}
use autossh_1_4g.Log.{is_some, xerrlog, unlink_pid_file}
use autossh_1_4g.Conn.Listen.{Answers, required, descriptor, conn_addr, conn_listen}
use autossh_1_4g.Run.{ssh_run}
use autossh_1_4g.Main.{Setup, go, leave, Prepared, setup}
use autossh_1_4g.Main.Launch.{
  Startup, become_daemon, open_socket, is_zero, write_pid_file, close_socket, exit_code,
  run_prepared, autossh_main,
}
use autossh_1_4g.Env.Read.{Numbers, Host}
use autossh_1_4g.Main.Program.{Scanned, arguments, exit, main_with, main}
use autossh_1_4g.Main.PidFile.{
  Held, After, Leaves, bind-Leaves, After-continue, ssh_kill-Leaves, xerrlog-Leaves,
}
use autossh_1_4g.Main.PidFile.Running.{ssh_run-Leaves}

-- Before the pid file is written: there is none yet, and its name is set.
module _ (name : Option Bytes) where
  abbrev Unwritten : State → Type 0
  Unwritten s =
      (pid_file_there s.trace ≡ false)
      × (s.pid_file_created ≡ false)
      × (s.pid_file_name ≡ name)
      × (s.exit_signalled ≡ false)

  abbrev Starting : {A : Type 0} → Outcome A → Type 0
  Starting (done a s) = Unwritten s
  Starting (jumped g s) = Held s
  Starting (running s) = Held s
  Starting (ended e s) = After {A = Unit {0}} (ended e s)

  abbrev Starts : {A : Type 0} → M A → Type 0
  Starts m = (os : Os) (s : State) → Unwritten s → Starting (m os s)

  bind-Starts :
      {A B : Type 0} (m : M A) (f : A → M B)
      → Starts m
      → ((a : A) → Starts (f a))
      → Starts (m >>= f)
  bind-Starts {A} m f h k os s u = started (m os s) (h os s u)
    where
      started : (o : Outcome A) → Starting o → Starting (continue os o f)
      started (done a t) v = k a os t v
      started (jumped g t) v = v
      started (running t) v = v
      started (ended e t) v = v

  xerrlog-Starts : (A : Type 0) → Starts (xerrlog {A = A})
  unfolding xerrlog unlink_pid_file
  xerrlog-Starts A os s u =
      killed_first (ssh_kill os s) (ssh_kill-Leaves os s (u.0 ∙ sym u.1, inl u.1, inl u.3))
    where
      killed_first :
          (o : Outcome (Unit {0}))
          → After o
          → Starting {A = A} (continue os o (λ _. unlink_pid_file >> quit 1))
      killed_first (done a t) h = ground arith
      killed_first (jumped g t) h = h
      killed_first (running t) h = h
      killed_first (ended (exited code) t) h = h
      killed_first (ended (killed g) t) h = h

  required-Starts : (b : Bool) → Starts (required b)
  required-Starts true os s u = u
  required-Starts false os s u = xerrlog-Starts (Unit {0}) os s u

  descriptor-Starts : (fd : Option ℕ) → Starts (descriptor fd)
  descriptor-Starts none os s u = xerrlog-Starts ℕ os s u
  descriptor-Starts (some fd) os s u = u

  conn_listen-Starts : (a : Answers) → Starts (conn_listen a)
  unfolding conn_listen conn_addr
  conn_listen-Starts a = bind-Starts (required a.resolves) _ (required-Starts a.resolves) (λ _.
      bind-Starts (descriptor a.socket) _ (descriptor-Starts a.socket) (λ sock.
        bind-Starts (required a.reuses) _ (required-Starts a.reuses) (λ _.
          bind-Starts (required a.binds) _ (required-Starts a.binds)
            (λ _. bind-Starts (required a.listens) _ (required-Starts a.listens) (λ _ os s u. u)))))

  become_daemon-Starts : (a : Startup) (b : Bool) → Starts (become_daemon a b)
  unfolding become_daemon
  become_daemon-Starts a false = λ os s u. u
  become_daemon-Starts a true =
      bind-Starts (required a.daemonizes) _ (required-Starts a.daemonizes) (λ _ os s u. u)

  open_socket-Starts :
      (a : Startup) (echoes : Bool) (port : Option Bytes) → Starts (open_socket a echoes port)
  unfolding open_socket
  open_socket-Starts a echoes none = λ os s u. u
  open_socket-Starts a true (some port) = λ os s u. u
  open_socket-Starts a false (some port) =
      bind-Starts (conn_listen a.sockets) _ (conn_listen-Starts a.sockets) (λ _ os s u. u)

required-Leaves : (b : Bool) → Leaves (required b)
required-Leaves true os s h = h
required-Leaves false os s h = xerrlog-Leaves (Unit {0}) os s h

-- From here on the flag tells the truth.
Starting-After :
    {A B : Type 0} (name : Option Bytes) (os : Os) (o : Outcome A) (f : A → M B)
    → Starting name o
    → ((a : A) (s : State) → Unwritten name s → After (f a os s))
    → After (continue os o f)
Starting-After name os (done a s) f h k = k a s h
Starting-After name os (jumped g s) f h k = h
Starting-After name os (running s) f h k = h
Starting-After name os (ended (exited code) s) f h k = h
Starting-After name os (ended (killed g) s) f h k = h

write_pid_file-After :
    (a : Startup) (name : Option Bytes) (os : Os) (s : State)
    → Unwritten name s
    → After (write_pid_file a name os s)
unfolding write_pid_file
write_pid_file-After a none os s u = (u.0 ∙ sym u.1, inl u.1, inl u.3)
write_pid_file-After a (some text) os s u =
    Starting-After (some text) os (required a.pid_file_opens os s) _
      (required-Starts (some text) a.pid_file_opens os s u)
      (λ _ t v.
        required-Leaves (if is_zero a.pid_file_written then false else true) os
          (record t {
            calls = suc t.calls;
            trace = Call.create_pid_file ∷ t.trace;
            pid_file_created = true;
          })
          (refl, inr (ap is_some v.2), inl v.3))

close_socket-Leaves : (sock : ℤ) → Leaves (close_socket sock)
close_socket-Leaves (pos fd) os s h = h
close_socket-Leaves (negsuc n) os s h = h

-- What the end of the program leaves: after an exit there is no pid file, unless sig_catch has seen two
-- signals to end; till then, and after the default action of a signal, the flag tells the truth.
abbrev pub Ended : Outcome (Unit {0}) → Type 0
Ended (done tt s) = ⊥
Ended (jumped g s) = pid_file_there s.trace ≡ s.pid_file_created
Ended (running s) = pid_file_there s.trace ≡ s.pid_file_created
Ended (ended (exited code) s) = (pid_file_there s.trace ≡ false) ⊎ (2 ≤ end_signals s.trace)
Ended (ended (killed g) s) = pid_file_there s.trace ≡ s.pid_file_created

-- exit removes the file.
After-Ended : (os : Os) (o : Outcome ℕ) → After o → Ended (continue os o exit)
unfolding exit unlink_pid_file
After-Ended os (done code s) h = ground arith
After-Ended os (jumped g s) h = h.0
After-Ended os (running s) h = h.0
After-Ended os (ended (exited code) s) (inl c) = inl c.0
After-Ended os (ended (exited code) s) (inr c) = inr c.1
After-Ended os (ended (killed g) s) h = h.0

module _ (fl : Doubles) (fuel watch_fuel : ℕ) (a : Startup) where
  closed-After :
      (p : Prepared) (os : Os) (s : State)
      → Unwritten p.settings.pid_file_name s
      → After (
          (do
            become_daemon a p.runasdaemon
            sock ← open_socket a p.echoes p.settings.writep
            write_pid_file a p.settings.pid_file_name
            retval ← ssh_run fl fuel watch_fuel sock
            close_socket sock
            pure (exit_code retval))
            os s)
  closed-After p os s u =
      let name = p.settings.pid_file_name in
      Starting-After name os (become_daemon a p.runasdaemon os s) _
        (become_daemon-Starts name a p.runasdaemon os s u)
        (λ _ t v.
          Starting-After name os (open_socket a p.echoes p.settings.writep os t) _
            (open_socket-Starts name a p.echoes p.settings.writep os t v)
            (λ sock w x.
              After-continue os (write_pid_file a name os w) _ (write_pid_file-After a name os w x)
                (λ _.
                  bind-Leaves (ssh_run fl fuel watch_fuel sock)
                    (λ retval. close_socket sock >> pure (exit_code retval))
                    (ssh_run-Leaves fl fuel watch_fuel sock)
                    (λ retval.
                      bind-Leaves (close_socket sock) (λ _. pure (exit_code retval))
                        (close_socket-Leaves sock) (λ _ os y h. h))
                    os)))

  autossh_main-After :
      (p : Setup Prepared) (os : Os)
      → After (autossh_main fl fuel watch_fuel a p os (initial defaults))
  unfolding autossh_main run_prepared
  autossh_main-After (leave code) os = inl (refl, refl)
  autossh_main-After (go p) os =
      closed-After p os (record (initial defaults) { settings = p.settings })
        (refl, refl, refl, refl)

module _ (fl : Doubles) (fuel watch_fuel : ℕ) (num : Numbers) (host : Host)
    (getopt : List Bytes → Scanned) (a : Startup) where
  main_with-Ended :
      (os : Os) (argv : Option (List Bytes))
      → Ended (main_with fl fuel watch_fuel num host getopt a argv os (initial defaults))
  unfolding main_with
  main_with-Ended os none = inl refl
  main_with-Ended os (some argv) =
      let p : Setup Prepared =
        setup num host (getopt argv).letters (getopt argv).args (getopt argv).no_args in
      After-Ended os (autossh_main fl fuel watch_fuel a p os (initial defaults))
        (autossh_main-After fl fuel watch_fuel a p os)

  -- The whole program, whatever the arguments and the environment, and whatever the kernel and the
  -- start-up calls answer: it does not return; where it exits, the pid file that it wrote is not
  -- there any more, unless sig_catch has seen two signals to end (SIGTERM or SIGINT); and as long as it
  -- runs, and where
  -- the default action of a signal ends it, pid_file_created says whether the file is there.
  pub main-Ended :
      (os : Os) (args : List Bytes)
      → Ended (main fl fuel watch_fuel num host getopt a args os (initial defaults))
  unfolding main
  main-Ended os args = main_with-Ended os (arguments args)
