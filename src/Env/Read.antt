-- ===== src/Env/Read.antt =====
-- src/env.rs: what get_env_args takes from the environment, and how it reads the numbers.
use autossh_1_4g.Base.{ℕ, Bool, true, false, Option, none, some, [], ◌∷◌}
use autossh_1_4g.Base.Int.{ℤ}
use autossh_1_4g.Base.Bytes.{Bytes, codes}
use autossh_1_4g.Env.{Var, Env}

-- strtoul and strtol with base 0: the value, and the text from the end pointer on.
pub record Numbers : Type 0 where
  pub strtoul : Bytes → ℕ × Bytes
  pub strtol : Bytes → ℤ × Bytes

-- The rest of the process's surroundings: getenv, whether fopen opens a path, and time.
pub record Host : Type 0 where
  pub getenv : Bytes → Option Bytes
  pub fopen : Bytes → Bool
  pub now : ℕ

abbrev pub is_empty_cstr : Bytes → Bool
is_empty_cstr [] = true
is_empty_cstr (b ∷ bs) = false

abbrev pub var_of : {A : Type 0} → Bytes → A × Bytes → Var A
var_of text r = record { is_empty = is_empty_cstr text; value = r.0; whole = is_empty_cstr r.1 }

abbrev pub parse_ul : Numbers → Option Bytes → Option (Var ℕ)
parse_ul n none = none
parse_ul n (some text) = some (var_of text (n.strtoul text))

abbrev pub parse_l : Numbers → Option Bytes → Option (Var ℤ)
parse_l n none = none
parse_l n (some text) = some (var_of text (n.strtol text))

abbrev is_set : Option Bytes → Bool
is_set none = false
is_set (some text) = true

abbrev opened : (Bytes → Bool) → Option Bytes → Option Bool
opened fopen none = none
opened fopen (some path) = some (fopen path)

unfoldable pub read_env : Numbers → Host → Env
read_env n h = record {
  path = h.getenv (codes "AUTOSSH_PATH");
  debug = is_set (h.getenv (codes "AUTOSSH_DEBUG"));
  log_level = parse_l n (h.getenv (codes "AUTOSSH_LOGLEVEL"));
  poll = parse_ul n (h.getenv (codes "AUTOSSH_POLL"));
  first_poll = parse_ul n (h.getenv (codes "AUTOSSH_FIRST_POLL"));
  gatetime = parse_l n (h.getenv (codes "AUTOSSH_GATETIME"));
  maxstart = parse_l n (h.getenv (codes "AUTOSSH_MAXSTART"));
  message = h.getenv (codes "AUTOSSH_MESSAGE");
  port = h.getenv (codes "AUTOSSH_PORT");
  maxlifetime = parse_ul n (h.getenv (codes "AUTOSSH_MAXLIFETIME"));
  max_session_var = parse_ul n (h.getenv (codes "AUTOSSH_MAX_SESSION"));
  pidfile = h.getenv (codes "AUTOSSH_PIDFILE");
  logfile = opened h.fopen (h.getenv (codes "AUTOSSH_LOGFILE"));
  now = h.now;
}
