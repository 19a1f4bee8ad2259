-- ===== src/Main/Ready.antt =====
-- What autossh_main has before it starts ssh.
use autossh_1_4g.Base.{
  ℕ, ◌≤◌, ◌≡◌, refl, subst, sym, Bool, true, false, Option, none, some, List, [], ◌∷◌, arith,
  length,
}
use autossh_1_4g.Base.Int.{ℤ, pos, c_int_of_ℕ}
use autossh_1_4g.Base.Bytes.{Bytes, codes}
use autossh_1_4g.Settings.{Settings, defaults}
use autossh_1_4g.Env.{get_env_args}
use autossh_1_4g.Env.Sanity.{IsSane, Holds, get_env_args-IsSane}
use autossh_1_4g.Env.Timeout.{Untouched, get_env_args-Untouched}
use autossh_1_4g.Env.Read.{Numbers, Host, read_env}
use autossh_1_4g.Command.{Monitoring, off, ports, parse_write_port, choose_ports}
use autossh_1_4g.Command.Ports.{Fits, IsUsable, choose_ports-IsUsable}
use autossh_1_4g.Main.{
  Letter, Setup, go, leave, Options, Prepared, ◌>>=◌, scan_options, choose_writep, split_colon,
  echo_port, monitoring, adjust_net_timeout, prepare, setup, nothing_seen, or_leave, host_or,
  keep_writep,
}
use autossh_1_4g.Main.Timeouts.{IsShort, adjust_net_timeout-IsShort, adjust_net_timeout-only}

-- Exit code 0 or 1, or a value with P.
abbrev pub Leads : {A : Type 0} → (A → Type 0) → Setup A → Type 0
Leads P (go a) = P a
Leads P (leave code) = code ≤ 1

-- Without monitoring there is no write port; with it, the read port is a port above 1, and the
-- forwarding strings fit their buffers.
abbrev pub Consistent : Monitoring → Option Bytes → Type 0
Consistent off writep = writep ≡ none
Consistent (ports rp out back) none = ⊥
Consistent (ports rp out back) (some text) =
    (2 ≤ rp) × (rp ≤ 65535) × (length out ≤ 255) × Fits back

-- Sane settings but for the timeout, the timeout, and the ports.
abbrev pub IsReady : Prepared → Type 0
IsReady p = IsSane p.settings × IsShort p.settings × Consistent p.monitor p.settings.writep

Leads-bind :
    {A B : Type 0} (P : A → Type 0) (Q : B → Type 0) (m : Setup A) (f : A → Setup B)
    → Leads P m
    → ((a : A) → P a → Leads Q (f a))
    → Leads Q (m >>= f)
Leads-bind P Q (go a) f h k = k a h
Leads-bind P Q (leave code) f h k = h

abbrev Anything : {A : Type 0} → A → Type 0
Anything a = Unit

scan_options-Leads :
    (env : Bool) (ls : List Letter) (s : Options) → Leads Anything (scan_options env ls s)
unfolding scan_options
scan_options-Leads env [] s = tt
scan_options-Leads env (Letter.port_option arg ∷ ls) s = scan_options-Leads env ls _
scan_options-Leads env (Letter.version ∷ ls) s = omega arith
scan_options-Leads env (Letter.background ∷ ls) s = scan_options-Leads env ls _
scan_options-Leads env (Letter.unknown ∷ ls) s = omega arith
scan_options-Leads env (Letter.for_ssh ∷ ls) s = scan_options-Leads env ls s

choose_writep-Leads :
    (env given : Option Bytes) (no_args : Bool) → Leads Anything (choose_writep env given no_args)
unfolding choose_writep
choose_writep-Leads env given no_args = ground arith

echo_port-Leads : (num : Numbers) (text : Option Bytes) → Leads Anything (echo_port num text)
unfolding echo_port
echo_port-Leads num none = tt
echo_port-Leads num (some text) = ground arith

Consistent-usable :
    (wp : ℤ) (m : Monitoring) (text : Bytes)
    → IsUsable wp (some m)
    → Consistent m (keep_writep m text)
Consistent-usable wp off text h = refl
Consistent-usable wp (ports rp out back) text h = (h.1, h.2, h.3, h.4)

or_leave-Consistent :
    (wp : ℤ) (o : Option Monitoring) (text : Bytes)
    → IsUsable wp o
    → Leads (λ m. Consistent m (keep_writep m text)) (or_leave o)
or_leave-Consistent wp none text h = omega arith
or_leave-Consistent wp (some m) text h = Consistent-usable wp m text h

parse_write_port-Consistent :
    (v : ℕ) (whole : Bool) (mhost text : Bytes) (echo : Option ℕ)
    → Leads
        (λ m. Consistent m (keep_writep m text))
        (or_leave (parse_write_port (v, whole) mhost echo))
unfolding parse_write_port
parse_write_port-Consistent v true mhost text echo =
    or_leave-Consistent (c_int_of_ℕ v) (choose_ports (c_int_of_ℕ v) mhost echo) text
      (choose_ports-IsUsable (c_int_of_ℕ v) mhost echo)
parse_write_port-Consistent v false mhost text echo = omega arith

monitoring-Leads :
    (num : Numbers) (text mhost : Bytes) (echo : Option ℕ)
    → Leads (λ m. Consistent m (keep_writep m text)) (monitoring num text mhost echo)
unfolding monitoring
monitoring-Leads num text mhost echo =
    parse_write_port-Consistent (num.strtoul text).0 _ mhost text echo

-- The settings that the timeout is computed from.
abbrev Untimed : Settings → Type 0
Untimed s = IsSane s × (s.net_timeout ≡ pos 15000)

adjust_net_timeout-Consistent :
    (m : Monitoring) (s : Settings)
    → Untimed s
    → Consistent m s.writep
    → IsSane (adjust_net_timeout s)
      × IsShort (adjust_net_timeout s)
      × Consistent m (adjust_net_timeout s).writep
adjust_net_timeout-Consistent m s h fine =
    let only = adjust_net_timeout-only s in
    (
      subst IsSane (sym only.1) h.0,
      adjust_net_timeout-IsShort s h.0.0 h.1,
      subst (λ t. Consistent m t.writep) (sym only.1) fine,
    )

prepare-Leads :
    (num : Numbers) (host : Host) (args : List Bytes) (seen : Options) (s : Settings) (text : Bytes)
    → Untimed s
    → Leads IsReady (prepare num host args seen s text)
unfolding prepare
prepare-Leads num host args seen s text h =
    Leads-bind Anything IsReady (echo_port num (split_colon text).1) _
      (echo_port-Leads num (split_colon text).1)
      (λ echo x.
        Leads-bind (λ m. Consistent m (keep_writep m (split_colon text).0)) IsReady
          (monitoring num (split_colon text).0
            (host_or s.mhost (host.getenv (codes "AUTOSSH_MHOST"))) echo)
          _ (monitoring-Leads num (split_colon text).0 _ echo)
          (λ m fine.
            adjust_net_timeout-Consistent m
              (record s {
                writep = keep_writep m (split_colon text).0;
                mhost = host_or s.mhost (host.getenv (codes "AUTOSSH_MHOST"));
              })
              h fine))

-- Whatever the environment, the options and the arguments are: autossh_main either leaves with exit
-- code 0 or 1 before it starts anything, or goes on with sane settings, a timeout for the connection
-- tests that is positive, at most 15 seconds and at most half a poll period (or with a poll time of
-- 2147484 seconds or more), and with a write port exactly if monitoring is on, whose read port and
-- forwarding strings are in range.
pub setup-IsReady :
    (num : Numbers) (host : Host) (letters : List Letter) (args : List Bytes) (no_args : Bool)
    → Leads IsReady (setup num host letters args no_args)
unfolding setup
setup-IsReady num host letters args no_args =
    Leads-bind Untimed IsReady (or_leave (get_env_args (read_env num host) defaults)) _
      (or_leave-Untimed (get_env_args (read_env num host) defaults)
        (get_env_args-IsSane (read_env num host)) (get_env_args-Untouched (read_env num host)))
      (λ s h.
        Leads-bind Anything IsReady (scan_options _ letters nothing_seen) _
          (scan_options-Leads _ letters _)
          (λ seen x.
            Leads-bind Anything IsReady (choose_writep s.env_port seen.writep no_args) _
              (choose_writep-Leads s.env_port seen.writep no_args)
              (λ text y. prepare-Leads num host args seen s text h)))
  where
    or_leave-Untimed :
        (o : Option Settings) → Holds IsSane o → Holds Untouched o → Leads Untimed (or_leave o)
    or_leave-Untimed none h k = omega arith
    or_leave-Untimed (some s) h k = (h, k)
