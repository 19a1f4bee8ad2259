-- ===== src/Session/Reserve.antt =====
-- src/api.rs: the ports that a session reserves before its supervisor uses them. What the resolver and
-- the system answer are arguments.
pub mod Adjacent
use autossh_1_4g.Base.{
  ℕ, zero, suc, ◌+◌, Bool, true, false, Option, none, some, ◌==◌, if◌then◌else◌,
}
use autossh_1_4g.Base.Bytes.{Bytes}
use autossh_1_4g.Session.Config.{
  Message, Result, ok, err, ◌>>=◌, unresolved, unbound, no_local_addr, no_adjacent_ports,
}

-- One round of a reservation: whether the host resolves (for a port), whether a port that the system
-- chooses can be bound, which one it is, and whether the next one can be bound, too.
pub record Attempt : Type 0 where
  pub resolves : ℕ → Bool
  pub binds : Bool
  pub local_port : Option ℕ
  pub next_binds : Bool

abbrev pub bind_addr : (ℕ → Bool) → Bytes → ℕ → Result (Unit {0})
bind_addr resolves host port = if resolves port then ok tt else err (unresolved host port)

abbrev pub bind_any : Bool → Bytes → Result (Unit {0})
bind_any binds host = if binds then ok tt else err (unbound host)

abbrev pub local_addr : Option ℕ → Result ℕ
local_addr none = err no_local_addr
local_addr (some port) = ok port

unfoldable pub reserve_port : Bytes → Attempt → Result ℕ
reserve_port host a = do
  x ← bind_addr a.resolves host 0
  y ← bind_any a.binds host
  local_addr a.local_port

-- for _ in 0..64, with the rounds that are left
abbrev pub monitor_rounds : ℕ
monitor_rounds = 64

abbrev pub try_next : Bytes → Attempt → ℕ → Result ℕ → Result ℕ
try_next host a port rest =
    if port == 65535
    then rest
    else (do x ← bind_addr a.resolves host (port + 1); if a.next_binds then ok port else rest)

unfoldable pub reserve_from : ℕ → Bytes → (ℕ → Attempt) → Result ℕ
unfolding reserve_port
reserve_from zero host attempts = err no_adjacent_ports
reserve_from (suc left) host attempts =
    let rest = reserve_from left host attempts in
    do port ← reserve_port host (attempts left); try_next host (attempts left) port rest

unfoldable pub reserve_monitor_port : Bytes → (ℕ → Attempt) → Result ℕ
unfolding reserve_from
reserve_monitor_port host attempts = reserve_from monitor_rounds host attempts
