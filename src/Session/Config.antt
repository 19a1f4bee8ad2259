-- ===== src/Session/Config.antt =====
-- src/api.rs: the configuration of a session, from the struct of the C interface. A pointer that may
-- be NULL is an Option, and the bytes that it points to are read up to their NUL.
pub mod Texts
pub mod Defaults
use autossh_1_4g.Base.{
  ℕ, zero, suc, ◌+◌, ◌/◌, ◌%◌, Bool, true, false, not, ◌&&◌, Option, none, some, List, [], ◌∷◌, ltb,
  ◌==◌, if◌then◌else◌,
}
use autossh_1_4g.Base.Int.{ℤ, pos, negsuc}
use autossh_1_4g.Base.Bytes.{Bytes, codes, cstring_new}
use autossh_1_4g.Drain.{c_str}

abbrev pub default_bind_host : Bytes
default_bind_host = codes "127.0.0.1"

abbrev pub default_target_port : ℕ
default_target_port = 22

abbrev pub default_start_timeout_ms : ℤ
default_start_timeout_ms = pos 15000

-- size_of of the struct where pointers and size_t have 8 bytes
abbrev pub config_size : ℕ
config_size = 128

-- autossh_session_config; D is c_double.
pub record CConfig (D : Type 0) : Type 0 where
  pub struct_size : ℕ
  pub ssh_path : Option Bytes
  pub ssh_destination : Option Bytes
  pub target_host : Option Bytes
  pub target_port : ℕ
  pub bind_host : Option Bytes
  pub local_port : ℕ
  pub monitor_host : Option Bytes
  pub monitor_port : ℕ
  pub flags : ℕ
  pub poll_time : ℤ
  pub first_poll_time : ℤ
  pub gate_time : D
  pub max_start : ℤ
  pub max_session : D
  pub start_timeout_ms : ℤ
  pub extra_ssh_args : Option (ℕ → Option Bytes)
  pub extra_ssh_args_len : ℕ

pub record SessionConfig (D : Type 0) : Type 0 where
  pub ssh_path : Option Bytes
  pub ssh_destination : Bytes
  pub target_host : Bytes
  pub target_port : ℕ
  pub bind_host : Bytes
  pub local_port : ℕ
  pub monitor_host : Option Bytes
  pub monitor_port : ℕ
  pub monitor_disabled : Bool
  pub poll_time : ℤ
  pub first_poll_time : ℤ
  pub gate_time : D
  pub max_start : ℤ
  pub max_session : D
  pub start_timeout_ms : ℤ
  pub extra_ssh_args : List Bytes

-- The messages of errors, with the texts and numbers that are formatted into them: of parse_config,
pub data Message : Type 0 where
  null_config : Message
  small_struct : Message
  interior_nul : Bytes → Message
  required : Bytes → Message
  null_args : Message
  -- of autossh_session_start,
  non_utf8 : Message
  already_started : Message
  fork_failed : Message
  unresolved : Bytes → ℕ → Message
  unbound : Bytes → Message
  no_local_addr : Message
  no_adjacent_ports : Message
  exited_early : ℤ → Message
  timed_out : Bytes → ℕ → Message
  -- and the empty one.
  no_message : Message

pub data Result (A : Type 0) : Type 0 where
  ok : A → Result A
  err : Message → Result A

infixl 5 ◌>>=◌
abbrev pub ◌>>=◌ : {A B : Type 0} → Result A → (A → Result B) → Result B
ok a >>= f = f a
err e >>= f = err e

abbrev named : Bytes → Option Bytes → Result (Option Bytes)
named field none = err (interior_nul field)
named field (some s) = ok (some s)

unfoldable pub optional_cstring : Option Bytes → Bytes → Result (Option Bytes)
unfolding cstring_new c_str
optional_cstring none field = ok none
optional_cstring (some p) field = named field (cstring_new (c_str p))

abbrev pub given_text : Option Bytes → Bytes → Result Bytes
given_text (some (b ∷ bs)) field = ok (b ∷ bs)
given_text _ field = err (required field)

unfoldable pub required_cstring : Option Bytes → Bytes → Result Bytes
unfolding optional_cstring
required_cstring p field = do s ← optional_cstring p field; given_text s field

-- for i in 0..extra_ssh_args_len, from the i-th on, with `left` to come
unfoldable pub read_args : ℕ → ℕ → (ℕ → Option Bytes) → Result (List Bytes)
unfolding required_cstring
read_args zero i args = ok []
read_args (suc left) i args = do
  arg ← required_cstring (args i) (codes "extra_ssh_args item")
  rest ← read_args left (i + 1) args
  ok (arg ∷ rest)

unfoldable pub extra_args : ℕ → Option (ℕ → Option Bytes) → Result (List Bytes)
unfolding read_args
extra_args zero args = ok []
extra_args (suc n) none = err null_args
extra_args (suc n) (some args) = read_args (suc n) 0 args

abbrev pub or_default : Bytes → Option Bytes → Bytes
or_default d none = d
or_default d (some s) = s

abbrev timeout_or_default : ℤ → ℤ
timeout_or_default (pos (suc n)) = pos (suc n)
timeout_or_default _ = default_start_timeout_ms

-- flags & AUTOSSH_SESSION_MONITOR_DISABLED, which is bit 0
abbrev is_monitor_disabled : ℕ → Bool
is_monitor_disabled flags = flags % 2 == 1

module _ {D : Type 0} where
  -- In the order of the source; `zero_double` is the value of eight zero bytes.
  unfoldable pub config_init : D → Option (CConfig D) → Option (CConfig D)
  config_init zero_double none = none
  config_init zero_double (some c) = some (record {
    struct_size = config_size;
    ssh_path = none;
    ssh_destination = none;
    target_host = none;
    target_port = default_target_port;
    bind_host = none;
    local_port = 0;
    monitor_host = none;
    monitor_port = 0;
    flags = 0;
    poll_time = pos 0;
    first_poll_time = pos 0;
    gate_time = zero_double;
    max_start = negsuc 0;
    max_session = zero_double;
    start_timeout_ms = default_start_timeout_ms;
    extra_ssh_args = none;
    extra_ssh_args_len = 0;
  })

  unfoldable pub assemble_config :
      CConfig D
      → Bytes
      → Bytes
      → Option Bytes
      → Option Bytes
      → Option Bytes
      → List Bytes
      → SessionConfig D
  assemble_config c destination target bind monitor path extra = record {
    ssh_path = path;
    ssh_destination = destination;
    target_host = target;
    target_port = if c.target_port == 0 then default_target_port else c.target_port;
    bind_host = or_default default_bind_host bind;
    local_port = c.local_port;
    monitor_host = monitor;
    monitor_port = c.monitor_port;
    monitor_disabled = is_monitor_disabled c.flags;
    poll_time = c.poll_time;
    first_poll_time = c.first_poll_time;
    gate_time = c.gate_time;
    max_start = c.max_start;
    max_session = c.max_session;
    start_timeout_ms = timeout_or_default c.start_timeout_ms;
    extra_ssh_args = extra;
  }

  -- The part behind the two fields that have to be there.
  unfoldable pub parse_rest : CConfig D → Bytes → Bytes → Result (SessionConfig D)
  unfolding optional_cstring extra_args assemble_config
  parse_rest c destination target = do
    bind ← optional_cstring c.bind_host (codes "bind_host")
    monitor ← optional_cstring c.monitor_host (codes "monitor_host")
    path ← optional_cstring c.ssh_path (codes "ssh_path")
    extra ← extra_args c.extra_ssh_args_len c.extra_ssh_args
    ok (assemble_config c destination target bind monitor path extra)

  unfoldable pub parse_fields : CConfig D → Result (SessionConfig D)
  unfolding required_cstring parse_rest
  parse_fields c = do
    destination ← required_cstring c.ssh_destination (codes "ssh_destination")
    target ← required_cstring c.target_host (codes "target_host")
    parse_rest c destination target

  unfoldable pub parse_config : Option (CConfig D) → Result (SessionConfig D)
  unfolding parse_fields
  parse_config none = err null_config
  parse_config (some c) = if ltb c.struct_size config_size then err small_struct else parse_fields c
