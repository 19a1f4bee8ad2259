-- ===== src/Conn/Listen.antt =====
-- src/conn.rs: the listening socket for the monitor. What the socket calls answer is an argument.
use autossh_1_4g.Base.{ℕ, Bool, true, false, Option, none, some}
use autossh_1_4g.Process.{M, pure, ◌>>=◌, ◌>>◌}
use autossh_1_4g.Log.{xerrlog}

-- Whether getaddrinfo, setsockopt, bind and listen succeed, and the descriptor that socket gives.
pub record Answers : Type 0 where
  pub resolves : Bool
  pub socket : Option ℕ
  pub reuses : Bool
  pub binds : Bool
  pub listens : Bool

-- A call that ends the program where it fails.
abbrev pub required : Bool → M (Unit {0})
required true = pure tt
required false = xerrlog

abbrev pub descriptor : Option ℕ → M ℕ
descriptor none = xerrlog
descriptor (some fd) = pure fd

-- getaddrinfo's list of addresses is not modelled.
unfoldable pub conn_addr : Answers → M (Unit {0})
conn_addr a = required a.resolves

unfoldable pub conn_listen : Answers → M ℕ
unfolding conn_addr
conn_listen a = do
  conn_addr a
  sock ← descriptor a.socket
  required a.reuses
  required a.binds
  required a.listens
  pure sock
