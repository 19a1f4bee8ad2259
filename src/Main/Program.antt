-- ===== src/Main/Program.antt =====
-- src/main.rs, and unlink_pid_atexit of src/main_logic.rs: the program around autossh_main.
use autossh_1_4g.Base.{ℕ, Bool, Option, none, some, List, [], ◌∷◌}
use autossh_1_4g.Base.Bytes.{Bytes, cstring_new}
use autossh_1_4g.Process.{M, quit, ◌>>=◌, ◌>>◌}
use autossh_1_4g.Grace.{Doubles}
use autossh_1_4g.Log.{unlink_pid_file}
use autossh_1_4g.Env.Read.{Numbers, Host}
use autossh_1_4g.Main.{Letter, setup}
use autossh_1_4g.Main.Launch.{Startup, autossh_main}

abbrev push_arg : Option Bytes → Option (List Bytes) → Option (List Bytes)
push_arg (some arg) (some args) = some (arg ∷ args)
push_arg _ _ = none

-- argv, or `none` for the panic on an argument with a NUL byte.
unfoldable pub arguments : List Bytes → Option (List Bytes)
unfolding cstring_new
arguments [] = some []
arguments (arg ∷ args) = push_arg (cstring_new arg) (arguments args)

-- The handler of atexit. It is registered where the pid file was created; elsewhere the flag is clear,
-- and it would do nothing.
unfoldable pub unlink_pid_atexit : M (Unit {0})
unfolding unlink_pid_file
unlink_pid_atexit = unlink_pid_file

-- std::process::exit runs the handlers of atexit.
unfoldable pub exit : ℕ → M (Unit {0})
unfolding unlink_pid_atexit
exit code = do unlink_pid_atexit; quit code

-- What getopt makes of argv: its letters, argv behind its first element as it leaves it, and
-- argc == optind.
pub record Scanned : Type 0 where
  pub letters : List Letter
  pub args : List Bytes
  pub no_args : Bool

module _ (fl : Doubles) (fuel watch_fuel : ℕ) (num : Numbers) (host : Host)
    (getopt : List Bytes → Scanned) (a : Startup) where
  -- A panic ends the program with code 101.
  unfoldable pub main_with : Option (List Bytes) → M (Unit {0})
  unfolding autossh_main setup exit
  main_with none = quit 101
  main_with (some argv) = do
    let seen = getopt argv
    rc ← autossh_main fl fuel watch_fuel a (setup num host seen.letters seen.args seen.no_args)
    exit rc

  unfoldable pub main : List Bytes → M (Unit {0})
  unfolding arguments main_with
  main args = main_with (arguments args)
