-- ===== src/Main/Exit.antt =====
-- autossh_main as a whole.
use autossh_1_4g.Base.{
  ℕ, ◌≤◌, ◌≡◌, refl, Bool, true, false, Option, none, some, arith, if◌then◌else◌,
}
use autossh_1_4g.Base.Int.{ℤ, pos}
use autossh_1_4g.Base.Bytes.{Bytes}
use autossh_1_4g.Posix.{Os, Call}
use autossh_1_4g.Settings.{Settings, defaults}
use autossh_1_4g.Process.{State, M, initial, pure, modify, record_call, ◌>>=◌, ◌>>◌}
use autossh_1_4g.Process.Trace.{KillsLive, live_child, forks}
use autossh_1_4g.Process.Triple.{
  Sat, NoJump, Ends, Sat-continue, Sat-weaken, Ends-Sat, Ends-continue,
}
use autossh_1_4g.Kill.{close_stderr, ssh_kill}
use autossh_1_4g.Log.{xerrlog, unlink_pid_file}
use autossh_1_4g.Grace.{Doubles}
use autossh_1_4g.Wait.{Policy}
use autossh_1_4g.Conn.Listen.{Answers, required, descriptor, conn_addr, conn_listen}
use autossh_1_4g.Run.{ssh_run}
use autossh_1_4g.Run.Invariant.{Counts, Calm}
use autossh_1_4g.Run.Safety.{no_start_yet, ssh_run-Returned}
use autossh_1_4g.Main.{go, Prepared}
use autossh_1_4g.Main.Launch.{
  Startup, become_daemon, open_socket, is_zero, write_pid_file, close_socket, exit_code,
  autossh_main,
}

-- Before the first start of ssh.
abbrev Early : ℤ → State → Type 0
Early m s =
    KillsLive s.trace
    × (forks s.trace ≡ 0)
    × (live_child s.trace ≡ 0)
    × (s.cchild ≡ 0)
    × (s.ssh_stderr_fd ≡ none)
    × (s.start_count ≡ 0)
    × (s.dolongjmp ≡ false)
    × (s.max_start ≡ m)

-- No signal but to a child that lives, and no more than n children.
abbrev pub Behaves : ℕ → State → Type 0
Behaves n s = KillsLive s.trace × (forks s.trace ≤ n)

module _ (m : ℤ) (n : ℕ) where
  abbrev Brings : {A : Type 0} → M A → Type 0
  Brings act = (os : Os) (s : State) → Early m s → Ends (λ _. Early m) (Behaves n) (act os s)

  bind-Brings :
      {A B : Type 0} (act : M A) (f : A → M B)
      → Brings act
      → ((a : A) → Brings (f a))
      → Brings (act >>= f)
  bind-Brings act f h k os s e =
      Ends-continue (λ _. Early m) (λ _. Early m) (Behaves n) os (act os s) f (h os s e)
        (λ a t e'. k a os t e')

  xerrlog-Brings : (A : Type 0) → Brings (xerrlog {A = A})
  unfolding xerrlog ssh_kill close_stderr unlink_pid_file
  xerrlog-Brings A os s e = ground arith

  required-Brings : (b : Bool) → Brings (required b)
  required-Brings true os s e = e
  required-Brings false os s e = xerrlog-Brings (Unit {0}) os s e

  descriptor-Brings : (fd : Option ℕ) → Brings (descriptor fd)
  descriptor-Brings none os s e = xerrlog-Brings ℕ os s e
  descriptor-Brings (some fd) os s e = e

  conn_listen-Brings : (a : Answers) → Brings (conn_listen a)
  unfolding conn_listen conn_addr
  conn_listen-Brings a = bind-Brings (required a.resolves) _ (required-Brings a.resolves) (λ _.
      bind-Brings (descriptor a.socket) _ (descriptor-Brings a.socket) (λ sock.
        bind-Brings (required a.reuses) _ (required-Brings a.reuses) (λ _.
          bind-Brings (required a.binds) _ (required-Brings a.binds)
            (λ _. bind-Brings (required a.listens) _ (required-Brings a.listens) (λ _ os s e. e)))))

  become_daemon-Brings : (a : Startup) (b : Bool) → Brings (become_daemon a b)
  unfolding become_daemon
  become_daemon-Brings a false = λ os s e. e
  become_daemon-Brings a true =
      bind-Brings (required a.daemonizes) _ (required-Brings a.daemonizes) (λ _ os s e. e)

  open_socket-Brings :
      (a : Startup) (echoes : Bool) (port : Option Bytes) → Brings (open_socket a echoes port)
  unfolding open_socket
  open_socket-Brings a echoes none = λ os s e. e
  open_socket-Brings a true (some port) = λ os s e. e
  open_socket-Brings a false (some port) =
      bind-Brings (conn_listen a.sockets) _ (conn_listen-Brings a.sockets) (λ _ os s e. e)

  write_pid_file-Brings : (a : Startup) (name : Option Bytes) → Brings (write_pid_file a name)
  unfolding write_pid_file
  write_pid_file-Brings a none = λ os s e. e
  write_pid_file-Brings a (some name) =
      bind-Brings (required a.pid_file_opens) _ (required-Brings a.pid_file_opens) (λ _.
        bind-Brings (record_call Call.create_pid_file) _ (λ os s e. e)
          (λ _.
            bind-Brings (modify (λ s. record s { pid_file_created = true })) _ (λ os s e. e)
              (λ _. required-Brings (if is_zero a.pid_file_written then false else true))))

  -- With the settings of the moment, the first start is allowed.
  Early-Calm : (s : State) → Early m s → Calm s.settings 0 s
  Early-Calm s e = ((refl, omega arith, rw (e.5) (no_start_yet s.settings), e.0), e.6)

-- At most n children where max_start is n.
module _ (n : ℕ) where
  Counts-Behaves : (c : Settings) (t : State) → c.max_start ≡ pos n → Counts c 0 t → Behaves n t
  Counts-Behaves c t e h = (h.3, ground arith)

  abbrev pub Finished : ℕ → State → Type 0
  Finished code t = (code ≤ 1) × Behaves n t

  close_socket-Finished :
      (sock : ℤ) (p : Policy) (os : Os) (t : State)
      → Behaves n t
      → Sat Finished NoJump (Behaves n) ((close_socket sock >> pure (exit_code p)) os t)
  close_socket-Finished sock p os t h = ground arith

  ended_run :
      (fl : Doubles) (fuel watch_fuel : ℕ) (sock : ℤ) (os : Os) (s : State)
      → Early (pos n) s
      → Sat Finished NoJump (Behaves n) (
          (do retval ← ssh_run fl fuel watch_fuel sock; close_socket sock; pure (exit_code retval))
            os s)
  ended_run fl fuel watch_fuel sock os s e =
      Sat-continue (λ _. Behaves n) Finished NoJump (Behaves n) os
        (ssh_run fl fuel watch_fuel sock os s) _
        (Sat-weaken (λ p t k. Counts-Behaves s.settings t e.7 k.0.0) (λ t k. k)
          (λ t k. Counts-Behaves s.settings t e.7 k) (ssh_run fl fuel watch_fuel sock os s)
          (ssh_run-Returned fl s.settings fuel watch_fuel sock os s (Early-Calm (pos n) n s e)))
        (λ p t k. close_socket-Finished sock p os t k)

  module _ (fl : Doubles) (fuel watch_fuel : ℕ) (a : Startup) (p : Prepared)
      (limited : p.settings.max_start ≡ pos n) where
    -- autossh_main from the command line on, started with AUTOSSH_MAXSTART n: whatever daemon, the
    -- sockets, the pid file and the kernel answer, it returns exit code 0 or 1, ends, or still runs, never
    -- takes a siglongjmp outside of a watch round, signals only a child that is alive, and never forks more
    -- than n children.
    pub autossh_main-Finished :
        (os : Os)
        → Sat Finished NoJump
            (Behaves n)
            (autossh_main fl fuel watch_fuel a (go p) os (initial defaults))
    unfolding autossh_main
    autossh_main-Finished os =
        Sat-continue (λ _. Early (pos n)) Finished NoJump (Behaves n) os _ _
          (Ends-Sat (λ _. Early (pos n)) NoJump (Behaves n) _
            (become_daemon-Brings (pos n) n a p.runasdaemon os
              (record (initial defaults) { settings = p.settings })
              (tt, refl, refl, refl, refl, refl, refl, limited)))
          (λ _ s e.
            Sat-continue (λ _. Early (pos n)) Finished NoJump (Behaves n) os _ _
              (Ends-Sat (λ _. Early (pos n)) NoJump (Behaves n) _
                (open_socket-Brings (pos n) n a p.echoes p.settings.writep os s e))
              (λ sock t e'.
                Sat-continue (λ _. Early (pos n)) Finished NoJump (Behaves n) os _ _
                  (Ends-Sat (λ _. Early (pos n)) NoJump (Behaves n) _
                    (write_pid_file-Brings (pos n) n a p.settings.pid_file_name os t e'))
                  (λ _ u e''. ended_run fl fuel watch_fuel sock os u e'')))
