-- ===== src/Main.antt =====
-- src/main_logic.rs: autossh_main from the environment and the options to the command line for ssh.
-- What getopt returns, one after another, and strtoul are arguments.
pub mod Timeouts
pub mod Ready
pub mod Launch
pub mod Exit
pub mod Program
pub mod PidFile
use autossh_1_4g.Base.{
  ℕ, zero, suc, ◌+◌, ◌*◌, ◌/◌, ◌%◌, Bool, true, false, not, ◌&&◌, ◌||◌, Option, none, some, List,
  [], ◌∷◌, ◌==◌, if◌then◌else◌,
}
use autossh_1_4g.Base.Int.{ℤ, pos, negsuc, c_int_of_ℕ, ltb_ℤ, sub_ℕ}
use autossh_1_4g.Base.Bytes.{Bytes, codes}
use autossh_1_4g.Settings.{Settings, defaults}
use autossh_1_4g.Env.{get_env_args}
use autossh_1_4g.Env.Read.{Numbers, Host, is_empty_cstr, read_env}
use autossh_1_4g.Command.{Monitoring, parse_write_port, is_on, command_line}

-- An option of the loop: -M with its value, -V, -f, an unknown one, or one for ssh.
pub data Letter : Type 0 where
  port_option : Bytes → Letter
  version : Letter
  background : Letter
  unknown : Letter
  for_ssh : Letter

-- A value, or the end of the process with an exit code.
pub data Setup (A : Type 0) : Type 0 where
  go : A → Setup A
  leave : ℕ → Setup A

infixl 5 ◌>>=◌
abbrev pub ◌>>=◌ : {A B : Type 0} → Setup A → (A → Setup B) → Setup B
go a >>= f = f a
leave code >>= f = leave code

pub record Options : Type 0 where
  pub writep : Option Bytes
  pub runasdaemon : Bool

abbrev pub nothing_seen : Options
nothing_seen = record { writep = none; runasdaemon = false }

abbrev is_given : Option Bytes → Bool
is_given none = false
is_given (some x) = true

-- The getopt loop; -M does not count where AUTOSSH_PORT is set.
unfoldable pub scan_options : Bool → List Letter → Options → Setup Options
scan_options from_env [] s = go s
scan_options from_env (port_option arg ∷ ls) s =
    scan_options from_env ls (if from_env then s else record s { writep = some arg })
scan_options from_env (version ∷ ls) s = leave 0
scan_options from_env (background ∷ ls) s =
    scan_options from_env ls (record s { runasdaemon = true })
scan_options from_env (unknown ∷ ls) s = leave 1
scan_options from_env (for_ssh ∷ ls) s = scan_options from_env ls s

-- The port's text, from AUTOSSH_PORT or from -M; usage(1) without one, or with no argument for ssh.
unfoldable pub choose_writep : Option Bytes → Option Bytes → Bool → Setup Bytes
choose_writep env_port given true = leave 1
choose_writep (some p) given false = go p
choose_writep none (some p) false = go p
choose_writep none none false = leave 1

-- strchr(writep, ':'): the text in front of the colon, and the one behind it.
unfoldable pub split_colon : Bytes → Bytes × Option Bytes
split_colon [] = ([], none)
split_colon (b ∷ bs) =
    let rest = split_colon bs in if b == 58 then ([], some bs) else (b ∷ rest.0, rest.1)

unfoldable pub echo_port : Numbers → Option Bytes → Setup (Option ℕ)
echo_port num none = go none
echo_port num (some text) =
    let ep = (num.strtoul text).0 % 4294967296 in
    if is_empty_cstr text || (not (is_empty_cstr (num.strtoul text).1) || (ep == 0))
    then leave 1
    else go (some ep)

-- xerrlog, without a child and without a pid file yet
abbrev pub or_leave : {A : Type 0} → Option A → Setup A
or_leave none = leave 1
or_leave (some a) = go a

unfoldable pub monitoring : Numbers → Bytes → Bytes → Option ℕ → Setup Monitoring
unfolding parse_write_port
monitoring num text mhost echo =
    let read = num.strtoul text in
    or_leave
      (parse_write_port (read.0, is_empty_cstr read.1 && not (is_empty_cstr text)) mhost echo)

-- Division of a c_int by 2, which rounds to 0.
abbrev halve : ℤ → ℤ
halve (pos n) = pos (n / 2)
halve (negsuc n) = sub_ℕ 0 ((n + 1) / 2)

-- (poll_time * 1000) / 2 in c_int, where the product wraps around.
abbrev pub half_poll : ℕ → ℤ
half_poll poll = halve (c_int_of_ℕ (poll * 1000))

unfoldable pub adjust_net_timeout : Settings → Settings
adjust_net_timeout s =
    if ltb_ℤ (half_poll s.poll_time) s.net_timeout
    then record s { net_timeout = half_poll s.poll_time }
    else s

-- AUTOSSH_MHOST, unless it is empty.
abbrev pub host_or : Bytes → Option Bytes → Bytes
host_or old (some (b ∷ bs)) = b ∷ bs
host_or old _ = old

-- What the rest of autossh_main uses: `argv` is newav.
pub record Prepared : Type 0 where
  pub settings : Settings
  pub monitor : Monitoring
  pub echoes : Bool
  pub argv : List Bytes
  pub runasdaemon : Bool

abbrev pub is_some_port : Option ℕ → Bool
is_some_port none = false
is_some_port (some p) = true

abbrev pub keep_writep : Monitoring → Bytes → Option Bytes
keep_writep m text = if is_on m then some text else none

unfoldable pub prepare : Numbers → Host → List Bytes → Options → Settings → Bytes → Setup Prepared
unfolding split_colon echo_port monitoring adjust_net_timeout command_line
prepare num host args seen s text = do
  echo ← echo_port num (split_colon text).1
  m ←
      monitoring num (split_colon text).0 (host_or s.mhost (host.getenv (codes "AUTOSSH_MHOST")))
        echo
  go (record {
    settings = adjust_net_timeout (record s {
      writep = keep_writep m (split_colon text).0;
      mhost = host_or s.mhost (host.getenv (codes "AUTOSSH_MHOST"));
    });
    monitor = m;
    echoes = is_some_port echo;
    argv = command_line s.ssh_path m (is_given s.env_port) args;
    runasdaemon = seen.runasdaemon;
  })

-- The letters are those that getopt returns, `args` is argv behind its first element as getopt leaves
-- it, and `no_args` is argc == optind.
unfoldable pub setup : Numbers → Host → List Letter → List Bytes → Bool → Setup Prepared
unfolding scan_options choose_writep prepare
setup num host letters args no_args = do
  s ← or_leave (get_env_args (read_env num host) defaults)
  seen ← scan_options (is_given s.env_port) letters nothing_seen
  text ← choose_writep s.env_port seen.writep no_args
  prepare num host args seen s text
