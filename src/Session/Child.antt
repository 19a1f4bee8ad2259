-- ===== src/Session/Child.antt =====
-- src/api.rs: what the forked supervisor runs: its environment and its arguments. Rust's f64, and its
-- test for UTF-8, are parameters.
pub mod Settings
pub mod Roundtrip
pub mod Line
pub mod Monitor
use autossh_1_4g.Base.{
  ℕ, zero, suc, Bool, true, false, ◌&&◌, Option, none, some, List, [], ◌∷◌, ◌++◌, if◌then◌else◌,
}
use autossh_1_4g.Base.Int.{ℤ, pos, negsuc}
use autossh_1_4g.Base.Bytes.{Bytes, codes, bytes_eq, decimal, decimal_int}
use autossh_1_4g.Session.{is_positive}
use autossh_1_4g.Session.Config.{SessionConfig, Result, ok, err, Message, non_utf8, ◌>>=◌}

pub record Float (D : Type 0) : Type 0 where
  -- d >= 0.0 and d > 0.0
  pub at_least_zero : D → Bool
  pub above_zero : D → Bool
  -- format!("{}", d)
  pub show : D → Bytes

-- The environment of a process.
abbrev pub Environment : Type 0
Environment = Bytes → Option Bytes

-- setenv under a condition, and for a value that is there
abbrev pub setenv_if : Bool → Bytes → Bytes → Environment → Environment
setenv_if cond name value env k = if bytes_eq k name && cond then some value else env k

abbrev pub or_else : Option Bytes → Option Bytes → Option Bytes
or_else none other = other
or_else (some value) other = some value

abbrev pub setenv_some : Bytes → Option Bytes → Environment → Environment
setenv_some name value env k = if bytes_eq k name then or_else value (env k) else env k

abbrev pub is_nonzero : ℤ → Bool
is_nonzero (pos zero) = false
is_nonzero _ = true

-- The settings of the session as the AUTOSSH_ variables that get_env_args reads.
unfoldable pub child_env : {D : Type 0} → Float D → SessionConfig D → Environment → Environment
child_env dbl c env =
    setenv_if (dbl.above_zero c.max_session) (codes "AUTOSSH_MAX_SESSION") (dbl.show c.max_session)
      (setenv_if (is_nonzero c.max_start) (codes "AUTOSSH_MAXSTART") (decimal_int c.max_start) (
        setenv_if (dbl.at_least_zero c.gate_time) (codes "AUTOSSH_GATETIME") (dbl.show c.gate_time)
          (setenv_if (is_positive c.first_poll_time) (codes "AUTOSSH_FIRST_POLL")
            (decimal_int c.first_poll_time)
            (setenv_if (is_positive c.poll_time) (codes "AUTOSSH_POLL") (decimal_int c.poll_time) (
              setenv_some (codes "AUTOSSH_MHOST") c.monitor_host
                (setenv_some (codes "AUTOSSH_PATH") c.ssh_path env))))))

-- CString::to_str
abbrev pub string_from_cstring : (Bytes → Bool) → Bytes → Result Bytes
string_from_cstring is_utf8 s = if is_utf8 s then ok s else err non_utf8

abbrev pub monitor_arg : {D : Type 0} → SessionConfig D → Bytes
monitor_arg c = if c.monitor_disabled then codes "0" else decimal c.monitor_port

-- "{}:{}:{}:{}"
abbrev pub tunnel_spec : Bytes → ℕ → Bytes → ℕ → Bytes
tunnel_spec bind_host local_port target_host target_port =
    bind_host ++ (58 ∷ decimal local_port ++ (58 ∷ target_host ++ (58 ∷ decimal target_port)))

abbrev pub child_args : Bytes → Bytes → List Bytes → Bytes → List Bytes
child_args monitor spec extra destination =
    codes "-M"
    ∷ monitor
    ∷ codes "-N"
    ∷ codes "-o"
    ∷ codes "ExitOnForwardFailure=yes"
    ∷ codes "-L"
    ∷ spec
    ∷ (extra ++ (destination ∷ []))

unfoldable pub build_child_argv :
    {D : Type 0} → (Bytes → Bool) → SessionConfig D → Result (List Bytes)
build_child_argv is_utf8 c = do
  bind_host ← string_from_cstring is_utf8 c.bind_host
  target_host ← string_from_cstring is_utf8 c.target_host
  destination ← string_from_cstring is_utf8 c.ssh_destination
  ok (
      codes "autossh"
      ∷ child_args (monitor_arg c) (tunnel_spec bind_host c.local_port target_host c.target_port)
          c.extra_ssh_args destination)
