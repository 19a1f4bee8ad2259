-- ===== src/Tests/Sessions.antt =====
-- Starting, stopping and polling sessions: the theorems at concrete inputs, and tests.
use autossh_1_4g.Base.{ℕ, ◌*◌, ◌≤◌, ◌≡◌, refl, true, false, some, List, [], ◌∷◌, arith, ◌==◌}
use autossh_1_4g.Base.Int.{ℤ, pos}
use autossh_1_4g.Posix.Signal.{sigterm, sigkill}
use autossh_1_4g.Session.{
  no_child, SessionState, gone, alive, signal, reaped, forked, Event, Shared, swapping,
  stop_returned,
}
use autossh_1_4g.Session.Threads.{
  System, Reach, here, next, turn, call_stop, started, enter_call, advance,
}
use autossh_1_4g.Session.Threads.Safety.{SignalsOnly, terms, kills, Reach-SignalsOnly}
use autossh_1_4g.Session.Teardown.{
  drive, stop_steps, stop_session, stop_session-finishes, stop_session-unowned,
}
use autossh_1_4g.Session.Races.{signal_after_reap}
use autossh_1_4g.Session.Config.{SessionConfig, Message}
use autossh_1_4g.Session.Start.{Look, World, Session, Started, returned, start_session}
use autossh_1_4g.Session.Start.Outcome.{Outcome, start_session-Outcome}
use autossh_1_4g.Session.Calls.{poll_state, polled, poll_state-polled}
use autossh_1_4g.Tests.Embedding.{parsed_config, free_port}

-- autossh_session_stop up to its SIGTERM.
Reach-SignalsOnly_example :
    SignalsOnly (pos 4242) (signal (pos 4242) sigterm ∷ [])
    × (terms (signal (pos 4242) sigterm ∷ []) ≤ 1)
    × (kills (signal (pos 4242) sigterm ∷ []) ≤ 1)
unfolding started advance enter_call
Reach-SignalsOnly_example = Reach-SignalsOnly {n = 2} {p = pos 4242} (
    next (next (next here (call_stop 0 (omega arith) refl)) (turn 0 alive (omega arith)))
      (turn 0 alive (omega arith)))

-- A running session.
abbrev running_shared : Shared
running_shared = record { pid = pos 4242; state = SessionState.running; trace = [] }

stop_session-finishes_example :
    ((drive stop_steps (λ n. alive) swapping running_shared).1 ≡ stop_returned)
    × ((stop_session (λ n. alive) running_shared).pid ≡ pos 0)
    × ((stop_session (λ n. alive) running_shared).state ≡ SessionState.stopped)
stop_session-finishes_example = stop_session-finishes (λ n. alive) running_shared

-- A supervisor that does not go away is killed at the end.
stop_session-stubborn :
    (stop_session (λ n. alive) running_shared).trace
    ≡ signal (pos 4242) sigkill ∷ signal (pos 4242) sigterm ∷ []
unfolding stop_session
stop_session-stubborn = refl

stop_session_again :
    (stop_session (λ n. gone) (stop_session (λ n. alive) running_shared)).trace
    ≡ (stop_session (λ n. alive) running_shared).trace
stop_session_again = stop_session-unowned (λ n. alive) (λ n. gone) running_shared

signal_after_reap_example :
    (s : System) × Reach 2 (pos 4242) s
    × (s.shared.trace ≡ signal (pos 4242) sigterm ∷ reaped (pos 4242) ∷ [])
signal_after_reap_example = signal_after_reap 4241

-- A host where the supervisor's listener answers at the second look.
abbrev quiet_look : ℕ → Look
quiet_look i = record { time = 100 * i; reply = alive; status = pos 0; connects = i == 1 }

abbrev quiet_world : World
quiet_world = record {
  is_utf8 = λ t. true;
  local_attempt = free_port;
  monitor_attempts = λ i. free_port;
  fork = pos 4242;
  resolves = λ p. true;
  began = 0;
  looks = quiet_look;
  stop_replies = λ n. gone;
}

abbrev new_session_of : SessionConfig ℤ → Session ℤ
new_session_of c = record {
  config = c;
  shared = record { pid = pos 0; state = SessionState.init; trace = [] };
  last_error = Message.no_message;
}

start_session-Outcome_example :
    Outcome
      (pos 4242)
      quiet_world.stop_replies
      []
      (start_session quiet_world (new_session_of parsed_config))
start_session-Outcome_example =
    start_session-Outcome quiet_world (omega arith, λ i. omega arith) (new_session_of parsed_config)
      (refl, tt)

-- Both ports are reserved, and the call returns 0.
abbrev code_of : Started ℤ → ℤ
code_of (returned s code) = code
code_of other = pos 99

start_session-running : code_of (start_session quiet_world (new_session_of parsed_config)) ≡ pos 0
unfolding start_session
start_session-running = refl

poll_state-reaps :
    poll_state
      (λ n. gone)
      (some (record (new_session_of parsed_config) { shared = running_shared }))
    ≡ (
      some (record (new_session_of parsed_config) { shared = polled gone running_shared }),
      SessionState.exited,
    )
poll_state-reaps =
    poll_state-polled gone (record (new_session_of parsed_config) { shared = running_shared })

-- The supervisor exits at once: it is reaped, and then sent a SIGTERM.
abbrev trace_of : Started ℤ → List Event
trace_of (returned s code) = s.shared.trace
trace_of other = []

start_session-early_exit :
    trace_of (
      start_session
        (record quiet_world {
          looks = λ i. record { time = 100 * i; reply = gone; status = pos 256; connects = false };
          stop_replies = λ n. no_child;
        })
        (new_session_of parsed_config))
    ≡ signal (pos 4242) sigterm ∷ reaped (pos 4242) ∷ forked (pos 4242) ∷ []
unfolding start_session
start_session-early_exit = refl
