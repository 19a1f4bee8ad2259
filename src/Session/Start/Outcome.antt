-- ===== src/Session/Start/Outcome.antt =====
-- How autossh_session_start ends.
use autossh_1_4g.Base.{
  ℕ, zero, suc, ◌+◌, ◌*◌, ◌/◌, ◌≤◌, ◌≡◌, refl, ap, ◌⊎◌, inl, inr, Bool, true, false, Option, none,
  some, List, arith, ltb, if◌then◌else◌,
}
use autossh_1_4g.Base.Int.{ℤ, pos, negsuc, pos_part}
use autossh_1_4g.Base.Bytes.{Bytes}
use autossh_1_4g.Session.{
  SessionState, Reply, Event, gone, alive, no_child, Shared, is_positive, is_gone, note, Pc,
  swapping, move,
}
use autossh_1_4g.Session.Config.{Result, ok, err, no_message}
use autossh_1_4g.Session.Child.{string_from_cstring}
use autossh_1_4g.Session.Start.Torn.{TornDown, stop_session-TornDown}
use autossh_1_4g.Session.Teardown.{drive, stop_steps, stop_session, stop_session-finishes}
use autossh_1_4g.Session.Threads.Safety.{SignalsOnly, Fine, Holds, move-Fine}
use autossh_1_4g.Session.Start.{
  World, wait_rounds, Session, Started, returned, in_child, out_of_fuel, wait_for_listener,
  after_listening, after_fork, launch_supervisor, with_pid, with_state, choose_monitor,
  choose_local, start_session,
}

-- The clock runs on, and no sleep of 100 milliseconds is shorter.
abbrev pub Ticks : World → Type 0
Ticks w = (w.began ≤ (w.looks 0).time) × ((i : ℕ) → (w.looks i).time + 100 ≤ (w.looks (i + 1)).time)

-- No pid, and no signal to anyone but p.
abbrev pub Unstarted : ℤ → Shared → Type 0
Unstarted p s = (s.pid ≡ pos 0) × SignalsOnly p s.trace

-- Running, with the pid of the supervisor p; or an error, without a pid, where nothing was done to any
-- process (before, it was `past`), or the supervisor was torn down. Signals went to p only. The child has
-- no pid yet, and the fuel is enough.
abbrev pub Outcome : {D : Type 0} → ℤ → (ℕ → Reply) → List Event → Started D → Type 0
Outcome p stop_replies past (returned s code) =
    SignalsOnly p s.shared.trace
    × (((code ≡ pos 0)
          × (s.shared.state ≡ SessionState.running)
          × (s.shared.pid ≡ p)
          × (is_positive p ≡ true)
          × (s.last_error ≡ no_message))
        ⊎ ((code ≡ negsuc 0)
            × (s.shared.state ≡ SessionState.error)
            × (s.shared.pid ≡ pos 0)
            × ((s.shared.trace ≡ past) ⊎ TornDown p stop_replies s.shared.trace)))
Outcome p stop_replies past (in_child s) =
    (s.shared.state ≡ SessionState.starting) × (s.shared.pid ≡ pos 0) × (s.shared.trace ≡ past)
Outcome p stop_replies past out_of_fuel = ⊥

-- The session has the pid p.
abbrev Owned : ℤ → Shared → Type 0
Owned p s = (s.pid ≡ p) × SignalsOnly p s.trace

-- The wait ends, and leaves the pid.
abbrev Waited : ℤ → Option (Shared × Result (Unit {0})) → Type 0
Waited p none = ⊥
Waited p (some (s, r)) = Owned p s

note-Owned : (r : Reply) (p q : ℤ) (s : Shared) → Owned p s → Owned p (note r q s)
note-Owned gone p q s h = h
note-Owned alive p q s h = h
note-Owned no_child p q s h = h

-- One call that makes its steps alone keeps what every step keeps.
drive-Fine :
    (n : ℕ) (p : ℤ) (replies : ℕ → Reply) (pc : Pc) (s : Shared)
    → Fine p s
    → Holds p pc
    → Fine p (drive n replies pc s).0
unfolding drive
drive-Fine zero p replies pc s h k = h
drive-Fine (suc n) p replies pc s h k =
    let kept = move-Fine p (replies n) pc s h k in
    drive-Fine n p replies (move (replies n) pc s).1 (move (replies n) pc s).0 kept.0 kept.1

stop_session-Unstarted :
    (p : ℤ) (replies : ℕ → Reply) (s : Shared) → Owned p s → Unstarted p (stop_session replies s)
unfolding stop_session
stop_session-Unstarted p replies s h = (
  (stop_session-finishes replies s).1,
  (drive-Fine stop_steps p replies swapping s (inr h.0, h.1) tt).1,
)

if-Waited :
    (p : ℤ) (b : Bool) (x y : Option (Shared × Result (Unit {0})))
    → Waited p x
    → Waited p y
    → Waited p (if b then x else y)
if-Waited p true x y h k = h
if-Waited p false x y h k = k

ltb-past : (a b : ℕ) → b ≤ a → ltb a b ≡ false
ltb-past a b h = ground arith

module _ (w : World) (ticks : Ticks w) where
  wait_rounds-Waited :
      (fuel deadline : ℕ) (host : Bytes) (port i : ℕ) (s : Shared) (p : ℤ)
      → deadline ≤ (w.looks i).time + 100 * fuel
      → Owned p s
      → Waited p (wait_rounds (suc fuel) deadline host port w.looks i s)
  unfolding wait_rounds
  wait_rounds-Waited zero deadline host port i s p near e =
      rw (ltb-past (w.looks i).time deadline (omega arith)) e
  wait_rounds-Waited (suc fuel) deadline host port i s p near e =
      let seen = note-Owned (w.looks i).reply p s.pid s e in
      if-Waited p (ltb (w.looks i).time deadline) _ _
        (if-Waited p (is_gone (w.looks i).reply) _ _ seen (
          if-Waited p (w.looks i).connects _ _ seen (
            wait_rounds-Waited fuel deadline host port (i + 1) (note (w.looks i).reply s.pid s) p
              (omega (arith, near, ticks.1 i)) seen)))
        e

  wait_for_listener-Waited :
      {D : Type 0} (s : Session D) (p : ℤ) → Owned p s.shared → Waited p (wait_for_listener w s)
  unfolding wait_for_listener
  wait_for_listener-Waited s p h =
      if-Waited p (w.is_utf8 s.config.bind_host) _ _
        (if-Waited p (w.resolves s.config.local_port) _ _
          (wait_rounds-Waited (pos_part s.config.start_timeout_ms / 100 + 1)
            (w.began + pos_part s.config.start_timeout_ms) s.config.bind_host s.config.local_port 0
            s.shared p (omega (arith, ticks.0)) h)
          h)
        h

  module _ {D : Type 0} where
    after_listening-Outcome :
        (s : Session D) (n : ℕ) (o : Option (Shared × Result (Unit {0}))) (past : List Event)
        → Waited (pos (suc n)) o
        → Outcome (pos (suc n)) w.stop_replies past (after_listening w s o)
    unfolding after_listening
    after_listening-Outcome s n none past h = h
    after_listening-Outcome s n (some (sh, ok x)) past h = (h.1, inl (refl, refl, h.0, refl, refl))
    after_listening-Outcome s n (some (sh, err e)) past h =
        let left = stop_session-Unstarted (pos (suc n)) w.stop_replies sh h in
        (
          left.1,
          inr (
            refl,
            refl,
            left.0,
            inr (stop_session-TornDown (pos (suc n)) refl w.stop_replies sh h.0),
          ),
        )

    after_fork-Outcome :
        (s : Session D) (f : ℤ)
        → Unstarted f s.shared
        → s.shared.state ≡ SessionState.starting
        → Outcome f w.stop_replies s.shared.trace (after_fork w s f)
    unfolding after_fork
    after_fork-Outcome s (negsuc n) h k = (h.1, inr (refl, refl, h.0, inl refl))
    after_fork-Outcome s (pos zero) h k = (k, h.0, refl)
    after_fork-Outcome s (pos (suc n)) h k =
        after_listening-Outcome (with_pid (pos (suc n)) s) n
          (wait_for_listener w (with_pid (pos (suc n)) s)) s.shared.trace
          (wait_for_listener-Waited (with_pid (pos (suc n)) s) (pos (suc n)) (refl, h.1))

    launch_supervisor-Outcome :
        (s : Session D) (r : Result ℕ)
        → Unstarted w.fork s.shared
        → Outcome w.fork w.stop_replies s.shared.trace (launch_supervisor w s r)
    unfolding launch_supervisor
    launch_supervisor-Outcome s (err e) h = (h.1, inr (refl, refl, h.0, inl refl))
    launch_supervisor-Outcome s (ok port) h =
        after_fork-Outcome
          (with_state SessionState.starting
            (record s { config = record (s.config) { monitor_port = port } }))
          w.fork h refl

    choose_monitor-Outcome :
        (s : Session D) (host : Bytes) (r : Result ℕ)
        → Unstarted w.fork s.shared
        → Outcome w.fork w.stop_replies s.shared.trace (choose_monitor w s host r)
    unfolding choose_monitor
    choose_monitor-Outcome s host (err e) h = (h.1, inr (refl, refl, h.0, inl refl))
    choose_monitor-Outcome s host (ok port) h =
        launch_supervisor-Outcome (record s { config = record (s.config) { local_port = port } }) _
          h

    choose_local-Outcome :
        (s : Session D) (r : Result Bytes)
        → Unstarted w.fork s.shared
        → Outcome w.fork w.stop_replies s.shared.trace (choose_local w s r)
    unfolding choose_local
    choose_local-Outcome s (err e) h = (h.1, inr (refl, refl, h.0, inl refl))
    choose_local-Outcome s (ok host) h = choose_monitor-Outcome s host _ h

    -- autossh_session_start on a session without a pid ends, whatever the network, fork and waitpid
    -- answer: with 0, the state RUNNING, the positive pid that fork gave and no error message; or with -1,
    -- the state ERROR and no pid; or in the child of the fork. On -1 it has either done nothing to any
    -- process; or it has, since it forked the supervisor, sent it SIGTERM, and the supervisor was reaped, or
    -- sent SIGKILL, too, or waitpid answered that there is no such child. Where it returns, no signal
    -- went to any pid but the one that fork gave. Before the call none had, and the clock does not stand
    -- still: every round of the wait takes 100 milliseconds or more. Every system call returns.
    pub start_session-Outcome :
        (s : Session D)
        → Unstarted w.fork s.shared
        → Outcome w.fork w.stop_replies s.shared.trace (start_session w s)
    unfolding start_session
    start_session-Outcome s h =
        let fresh : is_positive s.shared.pid ≡ false = ap is_positive h.0 in
        rw fresh (choose_local-Outcome s (string_from_cstring w.is_utf8 s.config.bind_host) h)
