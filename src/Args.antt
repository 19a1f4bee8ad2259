-- ===== src/Args.antt =====
-- src/args.rs: the vector of arguments for ssh, and the removal of an option letter from an
-- argument. An allocation that fails ends the program and is not modelled.
pub mod Append
pub mod Strip
use autossh_1_4g.Base.{
  ℕ, zero, suc, ◌+◌, ◌-◌, ◌*◌, Bool, true, false, ◌&&◌, Option, none, some, List, [], ◌∷◌, leb,
  ◌==◌, if◌then◌else◌,
}
use autossh_1_4g.Base.Bytes.{Bytes}

abbrev pub start_av_sz : ℕ
start_av_sz = 16

-- newac, newav (whose slots are NULL, or a string) and NEWAV_CAP; `allocated` is newav != NULL.
pub record ArgVector : Type 0 where
  pub newac : ℕ
  pub slots : ℕ → Option Bytes
  pub cap : ℕ
  pub allocated : Bool

abbrev pub no_args : ArgVector
no_args = record { newac = 0; slots = λ i. none; cap = start_av_sz; allocated = false }

abbrev store : ℕ → Option Bytes → (ℕ → Option Bytes) → ℕ → Option Bytes
store at value slots i = if i == at then value else slots i

-- Room for one more string and the NULL: calloc, or realloc to twice the size.
unfoldable pub make_room : ArgVector → ArgVector
make_room v =
    if v.allocated
    then (if leb (v.cap - 1) v.newac then record v { cap = v.cap * 2 } else v)
    else record v { slots = λ i. none; cap = start_av_sz; allocated = true }

unfoldable pub append_arg : Bytes → ArgVector → ArgVector
append_arg s v = record v {
  newac = v.newac + 1;
  slots = store (v.newac + 1) none (store v.newac (some s) v.slots);
}

-- The empty string is ignored.
unfoldable pub add_arg : Bytes → ArgVector → ArgVector
unfolding make_room append_arg
add_arg [] v = v
add_arg (b ∷ bs) v = append_arg (b ∷ bs) (make_room v)

-- Whether the option string gives the letter a value: its first occurrence is followed by ':'.
abbrev next_is_colon : Bytes → Bool
next_is_colon [] = false
next_is_colon (o ∷ opts) = o == 58

unfoldable pub takes_value : Bytes → ℕ → Bool
takes_value [] c = false
takes_value (o ∷ opts) c = if o == c then next_is_colon opts else takes_value opts c

-- The scan: behind a letter that was removed, the next one is not looked at.
unfoldable pub strip : Bytes → ℕ → Bytes → Bytes
unfolding takes_value
strip opts ch [] = []
strip opts ch (c ∷ []) = if takes_value opts c then c ∷ [] else if c == ch then [] else c ∷ []
strip opts ch (c ∷ (d ∷ rest)) =
    let next = strip opts ch (d ∷ rest) in
    let behind = strip opts ch rest in
    if takes_value opts c then c ∷ (d ∷ rest) else if c == ch then d ∷ behind else c ∷ next

-- A lone '-' that is left is taken away, too.
abbrev drop_lone : Bytes → Bytes
drop_lone (c ∷ []) = []
drop_lone text = text

unfoldable pub strip_option : Bytes → ℕ → Bytes → Bytes
unfolding strip
strip_option opts ch [] = []
strip_option opts ch (c ∷ []) = c ∷ []
strip_option opts ch (c ∷ (d ∷ rest)) =
    if c == 45 then drop_lone (strip opts ch (c ∷ (d ∷ rest))) else c ∷ (d ∷ rest)
