-- ===== src/Command.antt =====
-- src/main_logic.rs: the monitoring ports, the forwarding strings and the command line for ssh.
-- The arguments are those of argv in the order in which getopt, which may move them, leaves them;
-- what getopt and strtoul return is an argument.
pub mod Forwards
pub mod Ports
use autossh_1_4g.Base.{
  ℕ, zero, suc, ◌+◌, ◌-◌, ◌*◌, ◌/◌, Bool, true, false, not, ◌&&◌, Option, none, some, List, [], ◌∷◌,
  ◌++◌, ltb, leb, ◌==◌, length, if◌then◌else◌,
}
use autossh_1_4g.Base.Int.{ℤ, pos, negsuc, c_int_of_ℕ}
use autossh_1_4g.Base.Bytes.{Bytes, codes, decimal, decimal_int}
use autossh_1_4g.Args.{strip_option}

abbrev pub option_string : Bytes
option_string = codes "M:V1246ab:c:e:fgi:kl:m:no:p:qstvw:xyACD:E:F:GI:MJKL:NO:PQ:R:S:TW:XYB:"

abbrev pub buffer_size : ℕ
buffer_size = 256

abbrev pub take : ℕ → Bytes → Bytes
take zero bs = []
take (suc n) [] = []
take (suc n) (b ∷ bs) = b ∷ take n bs

-- snprintf(buf, 256, "%d:%s:%d", …) and the test of its result; `none` is xerrlog.
abbrev pub forward_text : ℕ → Bytes → ℤ → Bytes
forward_text from host to = decimal from ++ (58 ∷ (host ++ (58 ∷ decimal_int to)))

unfoldable pub fit : Bytes → Option Bytes
fit text = if ltb buffer_size (length text) then none else some (take (buffer_size - 1) text)

-- Monitoring off, or the read port and the forwarding strings: the second one only without an echo
-- port.
pub data Monitoring : Type 0 where
  off : Monitoring
  ports : ℕ → Bytes → Option Bytes → Monitoring

unfoldable pub with_back : ℕ → Bytes → Option Bytes → Option Monitoring
with_back wp out none = none
with_back wp out (some back) = some (ports (wp + 1) out (some back))

unfoldable pub with_out : ℕ → Bytes → Option ℕ → Option Bytes → Option Monitoring
unfolding fit with_back
with_out wp mhost echo none = none
with_out wp mhost (some ep) (some out) = some (ports (wp + 1) out none)
with_out wp mhost none (some out) = with_back wp out (fit (forward_text wp mhost (pos (wp + 1))))

-- ep as c_int
abbrev pub echo_or : ℕ → Option ℕ → ℤ
echo_or wp none = pos wp
echo_or wp (some ep) = c_int_of_ℕ ep

-- The write port as strtoul read it, and the echo port if one was given.
unfoldable pub choose_ports : ℤ → Bytes → Option ℕ → Option Monitoring
unfolding with_out
choose_ports (negsuc n) mhost echo = none
choose_ports (pos zero) mhost echo = some off
choose_ports (pos wp) mhost echo =
    if ltb 65534 wp
    then none
    else with_out wp mhost echo (fit (forward_text wp mhost (echo_or wp echo)))

-- strtoul's value and whether it read the whole of a text that is not empty.
unfoldable pub parse_write_port : ℕ × Bool → Bytes → Option ℕ → Option Monitoring
unfolding choose_ports
parse_write_port (v, true) mhost echo = choose_ports (c_int_of_ℕ v) mhost echo
parse_write_port (v, false) mhost echo = none

-- What is put in front of the place where -M stood.
abbrev pub forwards : Monitoring → List Bytes
forwards off = []
forwards (ports rp out none) = codes "-L" ∷ out ∷ []
forwards (ports rp out (some back)) = codes "-L" ∷ out ∷ codes "-R" ∷ back ∷ []

abbrev pub is_on : Monitoring → Bool
is_on off = false
is_on (ports rp out back) = true

-- "--…", "-M…" and "-M"
abbrev pub begins_with : ℕ → Bytes → Bool
begins_with c (a ∷ (b ∷ rest)) = (a == 45) && (b == c)
begins_with c _ = false

abbrev pub is_bare : Bytes → Bool
is_bare (a ∷ (b ∷ [])) = true
is_bare _ = false

-- add_arg ignores an empty string.
abbrev pub as_arg : Bytes → List Bytes
as_arg [] = []
as_arg (b ∷ bs) = (b ∷ bs) ∷ []

-- An argument that is passed on, with -f taken out.
unfoldable pub passed_on : Bytes → List Bytes
unfolding strip_option
passed_on arg = as_arg (strip_option option_string 102 arg)

-- The loop over argv: `skip` when the next argument is the value of -M, `stop` behind the first
-- "--", `done` when the forwards are in; `fwds` are the forwards and `on` whether the write port is
-- not 0.
module _ (fwds : List Bytes) (on from_env : Bool) where
  unfoldable pub build : Bool → Bool → Bool → List Bytes → List Bytes
  unfolding passed_on
  build skip stop done [] = []
  build true stop done (arg ∷ args) = build false stop done args
  build false stop done (arg ∷ args) =
      let after_stop = build false true done args in
      let from_here = fwds ++ (passed_on arg ++ build false stop true args) in
      let behind = build (is_bare arg) stop done args in
      let at_flag = fwds ++ build (is_bare arg) stop true args in
      let plain = passed_on arg ++ build false stop done args in
      if begins_with 45 arg && not stop
      then after_stop
      else if on && (from_env && not done)
      then from_here
      else if not stop && begins_with 77 arg
      then (if on && not done then at_flag else behind)
      else plain

-- The whole command line, with ssh_path in front.
unfoldable pub assemble : Bytes → Bool → Bool → List Bytes → List Bytes → List Bytes
unfolding build
assemble path on from_env args fwds = as_arg path ++ build fwds on from_env false false false args

unfoldable pub command_line : Bytes → Monitoring → Bool → List Bytes → List Bytes
unfolding assemble
command_line path m from_env args = assemble path (is_on m) from_env args (forwards m)
