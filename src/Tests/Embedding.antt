-- ===== src/Tests/Embedding.antt =====
-- The theorems about sessions at concrete inputs, and tests.
use autossh_1_4g.Base.{
  ℕ, zero, suc, ◌≤◌, ◌<◌, ◌≡◌, refl, inl, inr, Bool, true, false, none, some, List, [], ◌∷◌, arith,
  ◌==◌, if◌then◌else◌,
}
use autossh_1_4g.Base.Int.{ℤ, pos, negsuc}
use autossh_1_4g.Base.Bytes.{Bytes, codes, decimal_int}
use autossh_1_4g.Base.Digits.{read_digits, read_digits-decimal}
use autossh_1_4g.Settings.{defaults}
use autossh_1_4g.Env.{get_env_args}
use autossh_1_4g.Env.Read.{Numbers, read_env}
use autossh_1_4g.Main.Program.{Scanned}
use autossh_1_4g.Session.Config.{
  CConfig, SessionConfig, ok, err, config_size, parse_config, small_struct,
}
use autossh_1_4g.Session.Config.Texts.{Decides}
use autossh_1_4g.Session.Config.Defaults.{IsComplete, IsUsable, parse_config-Decides}
use autossh_1_4g.Session.Child.{Float, child_env}
use autossh_1_4g.Session.Child.Settings.{ReadsDecimals}
use autossh_1_4g.Session.Child.Roundtrip.{configured, get_env_args-child_env}
use autossh_1_4g.Session.Reserve.{Attempt, reserve_monitor_port}
use autossh_1_4g.Session.Reserve.Adjacent.{Yields, Adjacent, reserve_monitor_port-Adjacent}

-- A reader of decimal numbers in place of strtoul and strtol.
abbrev negated : ℕ × Bytes → ℤ × Bytes
negated (zero, rest) = (pos 0, rest)
negated (suc n, rest) = (negsuc n, rest)

abbrev signed : Bytes → ℕ × Bytes → ℤ × Bytes
signed text (v, []) = (pos v, [])
signed [] (v, r ∷ rs) = (pos v, r ∷ rs)
signed (b ∷ bs) (v, r ∷ rs) = if b == 45 then negated (read_digits 0 bs) else (pos v, r ∷ rs)

abbrev pub decimals : Numbers
decimals = record {
  strtoul = λ text. read_digits 0 text;
  strtol = λ text. signed text (read_digits 0 text);
}

decimals-signed : (z : ℤ) → decimals.strtol (decimal_int z) ≡ (z, [])
unfolding decimal_int
decimals-signed (pos n) = rw (read_digits-decimal n) refl
decimals-signed (negsuc n) = rw (read_digits-decimal (suc n)) refl

pub decimals-ReadsDecimals : ReadsDecimals decimals
decimals-ReadsDecimals = (λ n h. read_digits-decimal n, λ z h k. decimals-signed z)

-- Whole numbers as doubles.
abbrev at_least_zero : ℤ → Bool
at_least_zero (pos n) = true
at_least_zero (negsuc n) = false

abbrev above_zero : ℤ → Bool
above_zero (pos (suc n)) = true
above_zero z = false

abbrev whole_doubles : Float ℤ
whole_doubles = record {
  at_least_zero = at_least_zero;
  above_zero = above_zero;
  show = decimal_int;
}

-- autossh_session_config with a destination, a target and one extra argument.
abbrev given_config : CConfig ℤ
given_config = record {
  struct_size = config_size;
  ssh_path = none;
  ssh_destination = some (codes "user@host");
  target_host = some (codes "localhost");
  target_port = 0;
  bind_host = none;
  local_port = 0;
  monitor_host = none;
  monitor_port = 0;
  flags = 0;
  poll_time = pos 30;
  first_poll_time = pos 0;
  gate_time = pos 0;
  max_start = pos 3;
  max_session = pos 0;
  start_timeout_ms = pos 0;
  extra_ssh_args = some (λ i. some (codes "-4"));
  extra_ssh_args_len = 1;
}

abbrev pub parsed_config : SessionConfig ℤ
parsed_config = record {
  ssh_path = none;
  ssh_destination = codes "user@host";
  target_host = codes "localhost";
  target_port = 22;
  bind_host = codes "127.0.0.1";
  local_port = 0;
  monitor_host = none;
  monitor_port = 0;
  monitor_disabled = false;
  poll_time = pos 30;
  first_poll_time = pos 0;
  gate_time = pos 0;
  max_start = pos 3;
  max_session = pos 0;
  start_timeout_ms = pos 15000;
  extra_ssh_args = codes "-4" ∷ [];
}

given_config-parsed : parse_config (some given_config) ≡ ok parsed_config
unfolding parse_config
given_config-parsed = refl

-- A fresh struct has no destination; its size is checked first.
config_init-small :
    parse_config (some (record given_config { struct_size = 120 })) ≡ err small_struct
unfolding parse_config
config_init-small = refl

parse_config-Decides_example :
    Decides (IsComplete given_config) (IsUsable given_config) (parse_config (some given_config))
parse_config-Decides_example = parse_config-Decides given_config

get_env_args-child_env_example :
    get_env_args
      (read_env decimals (record {
        getenv = child_env whole_doubles parsed_config (λ k. none);
        fopen = λ p. true;
        now = 1000;
      }))
      defaults
    ≡ some (configured parsed_config 0 0)
unfolding decimal_int
get_env_args-child_env_example =
    get_env_args-child_env whole_doubles parsed_config 0 0
      (
        omega arith,
        omega arith,
        omega arith,
        omega arith,
        inr (refl, refl, omega arith),
        inl (refl, refl),
      )
      decimals decimals-ReadsDecimals (λ k. none) (λ k. refl) (λ p. true) 1000

-- Every port can be bound, and the system gives 40000.
abbrev pub free_port : Attempt
free_port = record {
  resolves = λ p. true;
  binds = true;
  local_port = some 40000;
  next_binds = true;
}

free_port-IsBound : (p : ℕ) → some 40000 ≡ some p → (0 < p) × (p ≤ 65535)
free_port-IsBound p e = ground arith

reserve_monitor_port_first :
    Yields
      (Adjacent 64 (λ i. free_port))
      (reserve_monitor_port (codes "127.0.0.1") (λ i. free_port))
reserve_monitor_port_first =
    reserve_monitor_port-Adjacent (codes "127.0.0.1") (λ i. free_port) (λ i. free_port-IsBound)

-- A getopt that finds the operands where they belong.
abbrev behind_first : List Bytes → List Bytes
behind_first [] = []
behind_first (name ∷ args) = args

abbrev left_alone : List Bytes → Scanned
left_alone argv = record { letters = []; args = behind_first argv; no_args = false }
