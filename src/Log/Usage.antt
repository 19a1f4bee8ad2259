-- ===== src/Log/Usage.antt =====
-- src/util.rs: usage. The name of the program is decoded by to_string_lossy, which is an argument.
use autossh_1_4g.Base.{ℕ, Option, none, some, List, [], ◌∷◌, ◌++◌, ◌==◌, if◌then◌else◌}
use autossh_1_4g.Base.Bytes.{Bytes, codes}

pub data Stream : Type 0 where
  stdout : Stream
  stderr : Stream

-- The stream, the text, and the code that exit is called with.
pub record Usage : Type 0 where
  pub output : Stream
  pub text : Bytes
  pub code : ℕ

abbrev lossy_progname : (Bytes → Bytes) → Option Bytes → Bytes
lossy_progname lossy none = codes "autossh"
lossy_progname lossy (some name) = lossy name

abbrev header : Bytes → Bytes
header progname =
    codes "usage: "
    ++ (progname ++ (codes " [-V] [-M monitor_port[:echo_port]] [-f] [SSH_OPTIONS]" ++ 10 ∷ []))

-- Each line with its newline, as eprintln! writes it.
abbrev println : List Bytes → Bytes
println [] = []
println (line ∷ lines) = line ++ (10 ∷ println lines)

abbrev pub options_text : List Bytes
options_text =
    []
    ∷ codes "    -M specifies monitor port. May be overridden by environment"
    ∷ codes "       variable AUTOSSH_PORT. 0 turns monitoring loop off."
    ∷ codes "       Alternatively, a port for an echo service on the remote"
    ∷ codes "       machine may be specified. (Normally port 7.)"
    ∷ codes "    -f run in background (autossh handles this, and does not"
    ∷ codes "       pass it to ssh.)"
    ∷ codes "    -V print autossh version and exit."
    ∷ []
    ∷ []

abbrev pub variables_text : List Bytes
variables_text =
    codes "Environment variables are:"
    ∷ codes "    AUTOSSH_GATETIME    - how long must an ssh session be established"
    ∷ codes "                        before we decide it really was established"
    ∷ codes "                        (in seconds). Default is 30 seconds; use of -f"
    ∷ codes "                        flag sets this to 0."
    ∷ codes "    AUTOSSH_LOGFILE     - file to log to (default is to use the syslog"
    ∷ codes "                        facility)"
    ∷ codes "    AUTOSSH_LOGLEVEL    - level of log verbosity"
    ∷ codes "    AUTOSSH_MAXLIFETIME - set the maximum time to live (seconds)"
    ∷ codes "    AUTOSSH_MAXSTART    - max times to restart (default is no limit)"
    ∷ codes "    AUTOSSH_MAX_SESSION - max seconds SSH may be silent on stderr (or stuck"
    ∷ codes "                        after stderr pipe loss) before being considered"
    ∷ codes "                        stuck and killed. 0 = no watchdog (default)."
    ∷ codes "                        Recommended with -M 0."
    ∷ codes "    AUTOSSH_MESSAGE     - message to append to echo string (max 64 bytes)"
    ∷ codes "    AUTOSSH_PATH        - path to ssh if not default"
    ∷ codes "    AUTOSSH_PIDFILE     - write pid to this file"
    ∷ codes "    AUTOSSH_POLL        - how often to check the connection (seconds)"
    ∷ codes "    AUTOSSH_FIRST_POLL  - time before first connection check (seconds)"
    ∷ codes "    AUTOSSH_PORT        - port to use for monitor connection"
    ∷ codes "    AUTOSSH_DEBUG       - turn logging to maximum verbosity and log to"
    ∷ codes "                        stderr"
    ∷ []
    ∷ []

unfoldable pub usage : (Bytes → Bytes) → Option Bytes → ℕ → Usage
usage lossy progname code =
    if code == 0
    then record { output = stdout; text = header (lossy_progname lossy progname); code = 0 }
    else record {
      output = stderr;
      text =
          header (lossy_progname lossy progname)
          ++ (println options_text ++ println variables_text);
      code = code;
    }
