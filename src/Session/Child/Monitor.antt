-- ===== src/Session/Child/Monitor.antt =====
-- The monitor of a session: from the reserved port to the forwards.
use autossh_1_4g.Base.{ℕ, ◌+◌, some}
use autossh_1_4g.Base.Int.{pos}
use autossh_1_4g.Base.Bytes.{Bytes}
use autossh_1_4g.Command.{Monitoring, ports, forward_text}
use autossh_1_4g.Session.Reserve.Adjacent.{Adjacent}

-- Both forwards of the monitor, to the port itself and back to the next one.
abbrev pub both_ways : ℕ → Bytes → Monitoring
both_ways port mhost =
    ports (port + 1) (forward_text port mhost (pos port))
      (some (forward_text port mhost (pos (port + 1))))
