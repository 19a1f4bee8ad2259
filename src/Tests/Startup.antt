-- ===== src/Tests/Startup.antt =====
-- The theorems about the start-up code and the stuck detector at concrete inputs, and tests.
use autossh_1_4g.Base.{
  ℕ, zero, suc, ◌≤◌, ◌<◌, ◌≡◌, ◌↔◌, ◌⊎◌, refl, inr, true, false, none, some, [], ◌∷◌, ◌++◌, arith,
}
use autossh_1_4g.Base.Int.{pos}
use autossh_1_4g.Base.Bytes.{Bytes, codes}
use autossh_1_4g.Posix.{Os, alarm}
use autossh_1_4g.Process.{State, initial}
use autossh_1_4g.Process.Triple.{Ends}
use autossh_1_4g.Settings.{defaults}
use autossh_1_4g.Drain.{check_ssh_stderr}
use autossh_1_4g.Watch.{arm}
use autossh_1_4g.Watch.Alarm.{arm_period, arm_at_shutdown, arm_past_shutdown}
use autossh_1_4g.Base.Int.{c_uint}
use autossh_1_4g.Env.{Env, get_env_args}
use autossh_1_4g.Env.Sanity.{Holds, IsSane, get_env_args-IsSane}
use autossh_1_4g.Args.{no_args, add_arg, takes_value, strip, strip_option}
use autossh_1_4g.Args.Append.{Represents, add_arg-Represents}
use autossh_1_4g.Args.Strip.{IsWithout, strip-IsWithout}
use autossh_1_4g.Command.{assemble, choose_ports, command_line, ports, option_string, take, fit}
use autossh_1_4g.Command.Ports.{IsUsable, choose_ports-IsUsable, fit-take}
use autossh_1_4g.Command.Forwards.{Placed, assemble-Placed}
use autossh_1_4g.Detector.{Tracker, Calls, none_left, call, intercept, scan, warn_stderr, pieces}
use autossh_1_4g.Detector.Lines.{join, warn_stderr-join, check_ssh_stderr-warn_stderr}
use autossh_1_4g.Detector.Monitor.{AnyStuck, scan-aborted}
use autossh_1_4g.Detector.Nesting.{intercept-start_sec}
use autossh_1_4g.Tests.Examples.{quiet_os, with_child}

-- AUTOSSH_POLL=30 and AUTOSSH_MAXLIFETIME=20.
abbrev short_env : Env
short_env = record {
  path = none;
  debug = false;
  log_level = none;
  poll = some (record { is_empty = false; value = 30; whole = true });
  first_poll = none;
  gatetime = none;
  maxstart = none;
  message = none;
  port = none;
  maxlifetime = some (record { is_empty = false; value = 20; whole = true });
  max_session_var = none;
  pidfile = none;
  logfile = none;
  now = 1000;
}

-- The poll times are cut to the lifetime.
short_env-polls :
    get_env_args short_env defaults
    ≡ some (record defaults {
      poll_time = 20;
      first_poll_time = 20;
      max_lifetime = 20;
      pid_start_time = 1000;
    })
unfolding get_env_args
short_env-polls = refl

get_env_args-IsSane_example : Holds IsSane (get_env_args short_env defaults)
get_env_args-IsSane_example = get_env_args-IsSane short_env

add_arg-Represents_example : Represents (codes "ssh" ∷ []) (add_arg (codes "ssh") no_args)
add_arg-Represents_example =
    add_arg-Represents [] (codes "ssh") no_args
      (refl, omega arith, omega arith, λ i h. refl, inr refl)

-- "-fN" becomes "-N", "-f" disappears, "-ff" keeps one f, and the letter behind an f is skipped, so
-- that the value of -L loses its f.
strip_option-joined : strip_option option_string 102 (codes "-fN") ≡ codes "-N"
unfolding strip_option
strip_option-joined = refl

strip_option-alone : strip_option option_string 102 (codes "-f") ≡ []
unfolding strip_option
strip_option-alone = refl

strip_option-doubled : strip_option option_string 102 (codes "-ff") ≡ codes "-f"
unfolding strip_option
strip_option-doubled = refl

strip_option-skipped : strip_option option_string 102 (codes "-fL80:foo:80") ≡ codes "-L80:oo:80"
unfolding strip_option
strip_option-skipped = refl

stripped_f : IsWithout 102 (strip option_string 102 (45 ∷ 102 ∷ 78 ∷ []))
unfolding takes_value
stripped_f =
    strip-IsWithout option_string 102 (45 ∷ 102 ∷ 78 ∷ [])
      (refl, (λ e. omega arith), (refl, (λ e. omega arith), refl))

-- autossh -M 2000 -f host
command_line_monitored :
    command_line
      (codes "/usr/bin/ssh")
      (ports 2001 (codes "o") (some (codes "b")))
      false
      (codes "-M" ∷ codes "2000" ∷ codes "-f" ∷ codes "host" ∷ [])
    ≡ codes "/usr/bin/ssh" ∷ codes "-L" ∷ codes "o" ∷ codes "-R" ∷ codes "b" ∷ codes "host" ∷ []
unfolding command_line
command_line_monitored = refl

assemble-Placed_example : Placed (assemble (codes "ssh") true false (codes "-M0" ∷ []))
assemble-Placed_example = assemble-Placed (codes "ssh") true false (codes "-M0" ∷ [])

choose_ports_2000 : IsUsable (pos 2000) (choose_ports (pos 2000) (codes "127.0.0.1") none)
choose_ports_2000 = choose_ports-IsUsable (pos 2000) (codes "127.0.0.1") none

-- One call within the other.
abbrev nested : Calls
nested = call 100 (call 101 none_left none_left) none_left

abbrev first_tracker : Tracker
first_tracker = record { name = codes "recv"; start_sec = 0; last_warn_sec = 0 }

intercept-start_sec_example : (intercept nested first_tracker).start_sec ≡ 0
intercept-start_sec_example =
    intercept-start_sec nested first_tracker (omega arith, (omega arith, tt, tt), tt)

abbrev stuck_tracker : Tracker
stuck_tracker = record { name = codes "recv"; start_sec = 100; last_warn_sec = 0 }

scan-aborted_example :
    ((scan 160 30 (stuck_tracker ∷ [])).aborted ≡ true) ↔ AnyStuck 160 30 (stuck_tracker ∷ [])
scan-aborted_example = scan-aborted 160 30 (stuck_tracker ∷ []) (omega arith)

warn_stderr_text :
    warn_stderr (codes "recv") 35
    ≡ codes "ssh-stuck-detector: STUCK in recv() for 35 secs" ++ 10 ∷ []
unfolding warn_stderr
warn_stderr_text = refl

warn_stderr_uncut : warn_stderr (codes "recv") 35 ≡ join (pieces (codes "recv") 35)
warn_stderr_uncut = warn_stderr-join (codes "recv") 35 (omega arith)

-- ssh hangs in recv, and the monitor says so.
abbrev stuck_os : Os
stuck_os = record quiet_os { stderr_data = λ n. warn_stderr (codes "recv") 35 ∷ [] }

check_ssh_stderr-warn_stderr_example :
    Ends (λ b t. b ≡ true) (λ _. ⊥) (check_ssh_stderr stuck_os with_child)
check_ssh_stderr-warn_stderr_example =
    check_ssh_stderr-warn_stderr (codes "recv") 35 [] stuck_os with_child 5 (omega arith) refl refl

-- A lifetime of 100 seconds that began at second 900 is over at second 1000; the clock of quiet_os
-- shows 1001 at the call of arm.
abbrev near_shutdown : State
near_shutdown = record (initial (record defaults { max_lifetime = 101; pid_start_time = 900 })) {
  my_poll_time = 600;
}

abbrev past_shutdown : State
past_shutdown = record (initial (record defaults { max_lifetime = 96; pid_start_time = 900 })) {
  my_poll_time = 600;
}

abbrev before_shutdown : State
before_shutdown = record (initial (record defaults { max_lifetime = 500; pid_start_time = 900 })) {
  my_poll_time = 600;
}

arm_period_example :
    Ends
      (λ _ t.
        (t.trace ≡ alarm (c_uint t.secs_left) ∷ alarm 0 ∷ [])
        × (0 < c_uint t.secs_left)
        × ((before_shutdown.max_session ≡ 0) ⊎ (c_uint t.secs_left ≤ before_shutdown.max_session)))
      (λ _. ⊥)
      (arm quiet_os before_shutdown)
arm_period_example =
    arm_period quiet_os before_shutdown (omega arith) (omega arith) (omega arith) (omega arith)
      (inr (omega arith))

arm_at_shutdown_example :
    Ends (λ _ t. t.trace ≡ alarm 0 ∷ alarm 0 ∷ []) (λ _. ⊥) (arm quiet_os near_shutdown)
arm_at_shutdown_example = arm_at_shutdown quiet_os near_shutdown (omega arith) (omega arith) refl

arm_past_shutdown_example :
    Ends (λ _ t. t.trace ≡ alarm 4294967291 ∷ alarm 0 ∷ []) (λ _. ⊥) (arm quiet_os past_shutdown)
arm_past_shutdown_example =
    arm_past_shutdown 4 quiet_os past_shutdown (omega arith) (omega arith) refl

abbrev many : ℕ → Bytes
many zero = []
many (suc n) = 65 ∷ many n

fit-full_buffer : fit (many 256) ≡ some (take 255 (many 256))
fit-full_buffer = fit-take (many 256) refl
