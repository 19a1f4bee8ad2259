-- ===== src/Session/Start.antt =====
-- src/api.rs: autossh_session_new, start, stop, free and the accessors. What the network, the clock and
-- the processes answer are arguments, as is Rust's test for UTF-8.
pub mod Torn
pub mod Outcome
use autossh_1_4g.Base.{
  ℕ, zero, suc, ◌+◌, ◌/◌, Bool, true, false, not, ◌&&◌, Option, none, some, [], ◌∷◌, ltb, ◌==◌,
  if◌then◌else◌,
}
use autossh_1_4g.Base.Int.{ℤ, pos, negsuc, pos_part}
use autossh_1_4g.Base.Bytes.{Bytes}
use autossh_1_4g.Session.{SessionState, Reply, Shared, forked, is_positive, is_gone, note}
use autossh_1_4g.Session.Config.{
  CConfig, SessionConfig, Message, Result, ok, err, ◌>>=◌, unresolved, unbound, no_local_addr,
  no_adjacent_ports, exited_early, timed_out, no_message, already_started, fork_failed,
  parse_config,
}
use autossh_1_4g.Session.Reserve.{Attempt, reserve_port, reserve_monitor_port}
use autossh_1_4g.Session.Child.{string_from_cstring}
use autossh_1_4g.Session.Teardown.{stop_session}

-- One round of the wait for the listener: the time at its beginning in milliseconds, what waitpid
-- answers and the status that it stores, and whether the port takes a connection.
pub record Look : Type 0 where
  pub time : ℕ
  pub reply : Reply
  pub status : ℤ
  pub connects : Bool

-- What the calls of autossh_session_start answer.
pub record World : Type 0 where
  pub is_utf8 : Bytes → Bool
  pub local_attempt : Attempt
  pub monitor_attempts : ℕ → Attempt
  pub fork : ℤ
  pub resolves : ℕ → Bool
  pub began : ℕ
  pub looks : ℕ → Look
  pub stop_replies : ℕ → Reply

-- The loop of wait_for_listener up to the deadline; `none` is the end of the fuel.
unfoldable pub wait_rounds :
    ℕ → ℕ → Bytes → ℕ → (ℕ → Look) → ℕ → Shared → Option (Shared × Result (Unit {0}))
wait_rounds zero deadline host port looks i s = none
wait_rounds (suc fuel) deadline host port looks i s =
    let seen = note (looks i).reply s.pid s in
    let rest = wait_rounds fuel deadline host port looks (i + 1) seen in
    if ltb (looks i).time deadline
    then (if is_gone (looks i).reply
        then some (seen, err (exited_early (looks i).status))
        else if (looks i).connects
        then some (seen, ok tt)
        else rest)
    else some (s, err (timed_out host port))

-- Every round lasts 100 milliseconds or more.
abbrev pub wait_fuel : ℤ → ℕ
wait_fuel timeout = suc (pos_part timeout / 100 + 1)

pub record Session (D : Type 0) : Type 0 where
  pub config : SessionConfig D
  pub shared : Shared
  pub last_error : Message

-- A return to the caller, the forked child (which goes on in child_main), or the end of the fuel.
pub data Started (D : Type 0) : Type 0 where
  returned : Session D → ℤ → Started D
  in_child : Session D → Started D
  out_of_fuel : Started D

module _ {D : Type 0} where
  abbrev pub with_state : SessionState → Session D → Session D
  with_state x s = record s { shared = record (s.shared) { state = x } }

  -- The parent behind the fork.
  abbrev pub with_pid : ℤ → Session D → Session D
  with_pid p s = record s {
    shared = record (s.shared) { pid = p; trace = forked p ∷ s.shared.trace };
  }

  abbrev pub set_error : Message → Session D → Session D
  set_error m s = record (with_state SessionState.error s) { last_error = m }

  abbrev fail : Message → Session D → Started D
  fail m s = returned (set_error m s) (negsuc 0)

  unfoldable pub wait_for_listener : World → Session D → Option (Shared × Result (Unit {0}))
  unfolding wait_rounds
  wait_for_listener w s =
      if w.is_utf8 s.config.bind_host
      then (if w.resolves s.config.local_port
          then wait_rounds (wait_fuel s.config.start_timeout_ms)
              (w.began + pos_part s.config.start_timeout_ms) s.config.bind_host s.config.local_port
              w.looks 0 s.shared
          else some (s.shared, err (unresolved s.config.bind_host s.config.local_port)))
      else some (s.shared, err Message.non_utf8)

  unfoldable pub after_listening :
      World → Session D → Option (Shared × Result (Unit {0})) → Started D
  unfolding stop_session
  after_listening w s none = out_of_fuel
  after_listening w s (some (sh, ok x)) =
      returned
        (record (with_state SessionState.running (record s { shared = sh })) {
          last_error = no_message;
        })
        (pos 0)
  after_listening w s (some (sh, err e)) =
      fail e (record s { shared = stop_session w.stop_replies sh })

  unfoldable pub after_fork : World → Session D → ℤ → Started D
  unfolding wait_for_listener after_listening
  after_fork w s (negsuc n) = fail fork_failed s
  after_fork w s (pos zero) = in_child s
  after_fork w s (pos (suc n)) =
      after_listening w (with_pid (pos (suc n)) s) (wait_for_listener w (with_pid (pos (suc n)) s))

  unfoldable pub launch_supervisor : World → Session D → Result ℕ → Started D
  unfolding after_fork
  launch_supervisor w s (err e) = fail e s
  launch_supervisor w s (ok port) =
      after_fork w
        (with_state SessionState.starting
          (record s { config = record (s.config) { monitor_port = port } }))
        w.fork

  -- The monitor port, which is reserved if monitoring is on and no port was given.
  unfoldable pub choose_monitor : World → Session D → Bytes → Result ℕ → Started D
  unfolding launch_supervisor reserve_monitor_port
  choose_monitor w s host (err e) = fail e s
  choose_monitor w s host (ok port) =
      let t = record s { config = record (s.config) { local_port = port } } in
      launch_supervisor w t (
        if not t.config.monitor_disabled && (t.config.monitor_port == 0)
        then reserve_monitor_port host w.monitor_attempts
        else ok t.config.monitor_port)

  unfoldable pub choose_local : World → Session D → Result Bytes → Started D
  unfolding choose_monitor reserve_port
  choose_local w s (err e) = fail e s
  choose_local w s (ok host) = choose_monitor w s host (
      if s.config.local_port == 0
      then reserve_port host w.local_attempt
      else ok s.config.local_port)

  unfoldable pub start_session : World → Session D → Started D
  unfolding choose_local
  start_session w s =
      if is_positive s.shared.pid
      then fail already_started s
      else choose_local w s (string_from_cstring w.is_utf8 s.config.bind_host)

  -- autossh_session_new; `none` is NULL.
  unfoldable pub new_session : Option (CConfig D) → Option (Session D)
  unfolding parse_config
  new_session c = made (parse_config c)
    where
      made : Result (SessionConfig D) → Option (Session D)
      made (err e) = none
      made (ok cfg) = some (record {
        config = cfg;
        shared = record { pid = pos 0; state = SessionState.init; trace = [] };
        last_error = no_message;
      })
