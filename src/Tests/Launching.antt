-- ===== src/Tests/Launching.antt =====
-- The theorems about autossh_main and the preloaded library at concrete inputs, and tests.
use autossh_1_4g.Base.{◌≡◌, refl, true, false, none, some, List, [], ◌∷◌, arith}
use autossh_1_4g.Base.Int.{pos, negsuc, ◌≤ℤ◌}
use autossh_1_4g.Base.Bytes.{Bytes, codes, decimal, decimal_int}
use autossh_1_4g.Settings.{defaults}
use autossh_1_4g.Process.{initial}
use autossh_1_4g.Process.Triple.{Sat, NoJump}
use autossh_1_4g.Env.{get_env_args}
use autossh_1_4g.Env.Read.{Host, read_env}
use autossh_1_4g.Command.{off}
use autossh_1_4g.Main.{Letter, Setup, go, leave, Prepared, setup, adjust_net_timeout, split_colon}
use autossh_1_4g.Main.Ready.{Leads, IsReady, setup-IsReady}
use autossh_1_4g.Main.Timeouts.{adjust_net_timeout-negative}
use autossh_1_4g.Main.Launch.{Startup, autossh_main}
use autossh_1_4g.Main.Exit.{Finished, Behaves, autossh_main-Finished}
use autossh_1_4g.Preload.{library_path, extract_once, install_for_child}
use autossh_1_4g.Preload.Install.{WholeOrNoPath, extract_once-Whole, install_for_child-again}
use autossh_1_4g.Tests.Embedding.{decimals}
use autossh_1_4g.Tests.Examples.{quiet_os, whole}

-- No variable is set.
abbrev bare_host : Host
bare_host = record { getenv = λ k. none; fopen = λ p. true; now = 1000 }

-- autossh -M 2000 -f host
abbrev monitored_args : List Bytes
monitored_args = codes "-M" ∷ codes "2000" ∷ codes "-f" ∷ codes "host" ∷ []

abbrev monitored_letters : List Letter
monitored_letters = Letter.port_option (codes "2000") ∷ Letter.background ∷ []

setup-IsReady_example :
    Leads IsReady (setup decimals bare_host monitored_letters monitored_args false)
setup-IsReady_example = setup-IsReady decimals bare_host monitored_letters monitored_args false

abbrev argv_of : Setup Prepared → List Bytes
argv_of (go p) = p.argv
argv_of (leave code) = []

setup-monitored :
    argv_of (setup decimals bare_host monitored_letters monitored_args false)
    ≡ codes "/usr/bin/ssh"
      ∷ codes "-L"
      ∷ codes "2000:127.0.0.1:2000"
      ∷ codes "-R"
      ∷ codes "2000:127.0.0.1:2001"
      ∷ codes "host"
      ∷ []
unfolding setup get_env_args read_env decimal decimal_int
setup-monitored = refl

-- -V wins over what follows, and a missing port is an error.
setup-version : setup decimals bare_host (Letter.version ∷ Letter.unknown ∷ []) [] true ≡ leave 0
unfolding setup get_env_args read_env
setup-version = refl

setup-portless : setup decimals bare_host [] (codes "host" ∷ []) false ≡ leave 1
unfolding setup get_env_args read_env
setup-portless = refl

split_colon-echo : split_colon (codes "2000:7") ≡ (codes "2000", some (codes "7"))
unfolding split_colon
split_colon-echo = refl

-- AUTOSSH_POLL=2147484
adjust_net_timeout-negative_example :
    (adjust_net_timeout (record defaults { poll_time = 2147484 })).net_timeout ≤ℤ negsuc 0
adjust_net_timeout-negative_example =
    adjust_net_timeout-negative (record defaults { poll_time = 2147484 }) (omega arith)
      (omega arith) (omega arith)

abbrev one_start : Prepared
one_start = record {
  settings = record defaults { max_start = pos 1 };
  monitor = off;
  echoes = false;
  argv = codes "/usr/bin/ssh" ∷ codes "host" ∷ [];
  runasdaemon = true;
}

abbrev pub all_well : Startup
all_well = record {
  daemonizes = true;
  sockets = record {
    resolves = true;
    socket = some 3;
    reuses = true;
    binds = true;
    listens = true;
  };
  pid_file_opens = true;
  pid_file_written = pos 3;
}

autossh_main-Finished_example :
    Sat
      (Finished 1)
      NoJump
      (Behaves 1)
      (autossh_main whole 3 3 all_well (go one_start) quiet_os (initial defaults))
autossh_main-Finished_example = autossh_main-Finished 1 whole 3 3 all_well one_start refl quiet_os

extract_once-Whole_example :
    WholeOrNoPath
      (codes "library")
      77
      true
      (λ i. pos 4)
      (extract_once (codes "library") 77 true (λ i. pos 4))
extract_once-Whole_example = extract_once-Whole (codes "library") 77 true (λ i. pos 4)

install_for_child_again :
    install_for_child
      (λ t. t)
      (library_path 77)
      (install_for_child (λ t. t) (library_path 77) (some (codes "/lib/other.so")))
    ≡ install_for_child (λ t. t) (library_path 77) (some (codes "/lib/other.so"))
install_for_child_again =
    install_for_child-again (λ t. t) 77 (some (codes "/lib/other.so")) (refl, λ text. refl)
