-- ===== src/Session/Child/Line.antt =====
-- The command that the supervisor of a session runs.
use autossh_1_4g.Base.{◌==◌, if◌then◌else◌, ◌≡◌, ◌≢◌, Bool, true, false, List, [], ◌∷◌, ◌++◌}
use autossh_1_4g.Base.Bytes.{Bytes, codes}
use autossh_1_4g.Args.{takes_value}
use autossh_1_4g.Main.Program.{Scanned}
use autossh_1_4g.Command.{option_string, begins_with, passed_on}
use autossh_1_4g.Session.Config.{SessionConfig}
use autossh_1_4g.Session.Child.{tunnel_spec}

-- An argument that autossh passes on as it is: neither "--", nor -M, nor one that has an f to strip.
abbrev pub IsPlain : Bytes → Type 0
IsPlain arg =
    (begins_with 45 arg ≡ false) × (begins_with 77 arg ≡ false) × (passed_on arg ≡ arg ∷ [])

abbrev pub ArePlain : List Bytes → Type 0
ArePlain [] = Unit
ArePlain (arg ∷ args) = IsPlain arg × ArePlain args

-- A text that does not begin with '-'.
abbrev pub IsWord : Bytes → Type 0
IsWord [] = Unit
IsWord (c ∷ cs) = c ≢ 45

-- What getopt takes for an option.
abbrev is_option : Bytes → Bool
is_option (a ∷ (b ∷ rest)) = a == 45
is_option _ = false

-- Whether the letters of an option take the next argument as a value.
abbrev wants_next : Bytes → Bool
wants_next [] = false
wants_next (c ∷ []) = takes_value option_string c
wants_next (c ∷ (d ∷ rest)) = if takes_value option_string c then false else wants_next (d ∷ rest)

abbrev letters_of : Bytes → Bytes
letters_of [] = []
letters_of (c ∷ letters) = letters

abbrev no_options : List Bytes → Bool
no_options [] = true
no_options (arg ∷ args) = if is_option arg then false else no_options args

-- No option stands behind an operand; `skip` where the next argument is the value of an option.
unfoldable pub operands_last : Bool → List Bytes → Bool
unfolding takes_value
operands_last skip [] = true
operands_last true (arg ∷ args) = operands_last false args
operands_last false (arg ∷ args) =
    let behind = operands_last (wants_next (letters_of arg)) args in
    if is_option arg then behind else no_options args

-- getopt moves the operands behind the options, and so leaves arguments alone whose operands are there.
abbrev pub MovesOperands : (List Bytes → Scanned) → Type 0
MovesOperands getopt =
    (name : Bytes) (args : List Bytes)
    → operands_last false args ≡ true
    → (getopt (name ∷ args)).args ≡ args

-- What ssh is asked to do: no command, an end if the forwarding fails, and the forwarding.
abbrev pub ssh_args : Bytes → List Bytes → Bytes → List Bytes
ssh_args spec extra destination =
    codes "-N"
    ∷ codes "-o"
    ∷ codes "ExitOnForwardFailure=yes"
    ∷ codes "-L"
    ∷ spec
    ∷ (extra ++ (destination ∷ []))

module _ {D : Type 0} (is_utf8 : Bytes → Bool) (c : SessionConfig D) where
  -- The host texts of the configuration are UTF-8, the bind host does not begin with '-', the extra
  -- arguments and the destination are passed on as they are, and no option stands behind an operand there.
  abbrev pub IsHarmless : Type 0
  IsHarmless =
      (is_utf8 c.bind_host ≡ true)
      × (is_utf8 c.target_host ≡ true)
      × (is_utf8 c.ssh_destination ≡ true)
      × IsWord c.bind_host
      × ArePlain c.extra_ssh_args
      × IsPlain c.ssh_destination
      × (operands_last false (c.extra_ssh_args ++ (c.ssh_destination ∷ [])) ≡ true)

  -- The tunnel that the configuration asks for.
  abbrev pub wanted : List Bytes
  wanted =
      ssh_args (tunnel_spec c.bind_host c.local_port c.target_host c.target_port) c.extra_ssh_args
        c.ssh_destination
