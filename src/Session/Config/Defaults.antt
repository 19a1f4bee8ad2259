-- ===== src/Session/Config/Defaults.antt =====
-- What a configuration that was accepted holds, and which ones are.
use autossh_1_4g.Base.{
  ◌≤◌, ◌<◌, ◌≡◌, ◌≢◌, Option, some, List, [], length, arith, inl, inr, Bool-cases, ltb,
}
use autossh_1_4g.Base.Int.{pos, ◌≤ℤ◌}
use autossh_1_4g.Base.Bytes.{Bytes, codes}
use autossh_1_4g.Session.Config.{
  CConfig, SessionConfig, Result, ok, err, required_cstring, extra_args, assemble_config,
  parse_rest, parse_fields, parse_config, config_size, ◌>>=◌,
}
use autossh_1_4g.Session.Config.Texts.{
  Given, Decides, IsTextOf, AreArgs, IsOptionalText, IsTextOr, IsField, GivenArgs, optional_total,
  required-Decides, Decides-bind, Decides-iff, extra_args-Decides, AreArgs-length,
  or_default-IsTextOr,
}

module _ {D : Type 0} (c : CConfig D) where
  -- A port to forward to, a deadline for the start, a destination, and as many extra arguments as
  -- the caller counted; and every text is the one that the struct points to.
  abbrev pub IsUsable : SessionConfig D → Type 0
  IsUsable cfg =
      (0 < cfg.target_port)
      × (pos 1 ≤ℤ cfg.start_timeout_ms)
      × (cfg.ssh_destination ≢ [])
      × (cfg.target_host ≢ [])
      × (length cfg.extra_ssh_args ≡ c.extra_ssh_args_len)
      × IsTextOf c.ssh_destination cfg.ssh_destination
      × IsTextOf c.target_host cfg.target_host
      × AreArgs c.extra_ssh_args_len c.extra_ssh_args cfg.extra_ssh_args
      × IsTextOr (codes "127.0.0.1") c.bind_host cfg.bind_host
      × IsOptionalText c.monitor_host cfg.monitor_host
      × IsOptionalText c.ssh_path cfg.ssh_path

  module _ (destination target : Bytes) (bind monitor path : Option Bytes)
      (d : IsField c.ssh_destination destination) (t : IsField c.target_host target)
      (b : IsOptionalText c.bind_host bind) (m : IsOptionalText c.monitor_host monitor)
      (p : IsOptionalText c.ssh_path path) where
    assemble_config-IsUsable :
        (extra : List Bytes)
        → AreArgs c.extra_ssh_args_len c.extra_ssh_args extra
        → IsUsable (assemble_config c destination target bind monitor path extra)
    unfolding assemble_config
    assemble_config-IsUsable extra e = (
      ground arith,
      ground arith,
      d.0,
      t.0,
      AreArgs-length c.extra_ssh_args_len c.extra_ssh_args extra e,
      d.1,
      t.1,
      e,
      or_default-IsTextOr (codes "127.0.0.1") c.bind_host bind b,
      m,
      p,
    )

    with_extra :
        (r : Result (List Bytes))
        → Decides
            (GivenArgs c.extra_ssh_args_len c.extra_ssh_args)
            (AreArgs c.extra_ssh_args_len c.extra_ssh_args)
            r
        → Decides
            (GivenArgs c.extra_ssh_args_len c.extra_ssh_args)
            IsUsable
            (r >>= λ extra. ok (assemble_config c destination target bind monitor path extra))
    with_extra (ok extra) h = (h.0, assemble_config-IsUsable extra h.1)
    with_extra (err e) h = h

  parse_rest-Decides :
      (destination target : Bytes)
      → IsField c.ssh_destination destination
      → IsField c.target_host target
      → Decides
          (GivenArgs c.extra_ssh_args_len c.extra_ssh_args)
          IsUsable
          (parse_rest c destination target)
  unfolding parse_rest
  parse_rest-Decides destination target d t =
      let bind = optional_total c.bind_host (codes "bind_host") in
      let monitor = optional_total c.monitor_host (codes "monitor_host") in
      let path = optional_total c.ssh_path (codes "ssh_path") in
      rw (bind.1, monitor.1, path.1)
        (with_extra destination target bind.0 monitor.0 path.0 d t bind.2 monitor.2 path.2
          (extra_args c.extra_ssh_args_len c.extra_ssh_args)
          (extra_args-Decides c.extra_ssh_args_len c.extra_ssh_args))

  -- The struct has the caller's idea of its size, and names a destination, a target, and every extra
  -- argument that it counts.
  abbrev pub IsComplete : Type 0
  IsComplete =
      (config_size ≤ c.struct_size)
      × (Given c.ssh_destination
          × (Given c.target_host × GivenArgs c.extra_ssh_args_len c.extra_ssh_args))

  parse_fields-Decides :
      Decides
        (Given c.ssh_destination
          × (Given c.target_host × GivenArgs c.extra_ssh_args_len c.extra_ssh_args))
        IsUsable
        (parse_fields c)
  unfolding parse_fields
  parse_fields-Decides =
      Decides-bind (Given c.ssh_destination)
        (Given c.target_host × GivenArgs c.extra_ssh_args_len c.extra_ssh_args)
        (IsField c.ssh_destination) IsUsable
        (required_cstring c.ssh_destination (codes "ssh_destination"))
        (λ destination. required_cstring c.target_host (codes "target_host") >>= λ target.
          parse_rest c destination target)
        (required-Decides c.ssh_destination (codes "ssh_destination"))
        (λ destination d.
          Decides-bind (Given c.target_host) (GivenArgs c.extra_ssh_args_len c.extra_ssh_args)
            (IsField c.target_host) IsUsable (required_cstring c.target_host (codes "target_host"))
            (λ target. parse_rest c destination target)
            (required-Decides c.target_host (codes "target_host"))
            (λ target t. parse_rest-Decides destination target d t))

  -- parse_config accepts a configuration exactly if its struct is large enough, the destination and
  -- the target are not empty, and the extra arguments that it counts are there and not empty. One that
  -- was accepted has a target port and a start timeout that are positive, and its destination, target,
  -- extra arguments (all of them, in their order), bind host, monitor host and path are the texts that the
  -- struct points to; the bind host is 127.0.0.1 if the struct has none.
  pub parse_config-Decides : Decides IsComplete IsUsable (parse_config (some c))
  unfolding parse_config
  parse_config-Decides = elim (Bool-cases (ltb c.struct_size config_size)) [
    | inl small ↦ rw small (λ h. absurd (ground arith))
    | inr large ↦
        let fits : config_size ≤ c.struct_size = (ground arith) in
        rw large (
          Decides-iff
            (Given c.ssh_destination
              × (Given c.target_host × GivenArgs c.extra_ssh_args_len c.extra_ssh_args))
            IsComplete IsUsable (parse_fields c) (λ x. (fits, x)) (λ x. x.1) parse_fields-Decides)
  ]
