-- ===== src/Preload.antt =====
-- src/stuck_detector.rs: the library that is preloaded into ssh is written to a file once, and
-- LD_PRELOAD set to it. The library's bytes, the replies of open and write, and Rust's
-- to_string_lossy are arguments.
pub mod Install
use autossh_1_4g.Base.{
  ℕ, zero, suc, ◌+◌, Bool, true, false, Option, none, some, List, [], ◌∷◌, ◌++◌, length, ◌==◌,
  if◌then◌else◌,
}
use autossh_1_4g.Base.Int.{ℤ, pos, negsuc}
use autossh_1_4g.Base.Bytes.{Bytes, codes, decimal}
use autossh_1_4g.Drain.{strstr}
use autossh_1_4g.Command.{take}

abbrev pub drop : ℕ → Bytes → Bytes
drop zero bs = bs
drop (suc n) [] = []
drop (suc n) (b ∷ bs) = drop n bs

abbrev pub library_path : ℕ → Bytes
library_path pid =
    codes "/tmp/" ++ (codes "autossh-stuck-detector" ++ (45 ∷ decimal pid ++ codes ".so"))

-- What is in the file, and whether all of the library is; or the end of the fuel.
pub data Written : Type 0 where
  complete : Bytes → Written
  failed : Bytes → Written
  out_of_fuel : Written

-- while written < SO_BYTES.len(); `rest` is what is left to write, and the i-th write is next.
abbrev pub count_of : ℤ → ℕ
count_of (pos n) = n
count_of (negsuc n) = 0

unfoldable pub write_rest : ℕ → (ℕ → ℤ) → ℕ → Bytes → Bytes → Written
write_rest fuel writes i [] file = complete file
write_rest zero writes i (b ∷ bs) file = out_of_fuel
write_rest (suc fuel) writes i (b ∷ bs) file =
    let n = count_of (writes i) in
    let more = write_rest fuel writes (i + 1) (drop n (b ∷ bs)) (file ++ take n (b ∷ bs)) in
    if n == 0 then failed file else more

-- The path to preload and what is in the file; or the end of the fuel.
pub data Extraction : Type 0 where
  extracted : Bytes → Bytes → Extraction
  exhausted : Extraction

-- The path is empty after a failure.
unfoldable pub path_of : ℕ → Written → Extraction
path_of pid (complete file) = extracted (library_path pid) file
path_of pid (failed file) = extracted [] file
path_of pid out_of_fuel = exhausted

-- Every write takes a byte or more, so that the length of the library is fuel enough.
unfoldable pub extract_once : Bytes → ℕ → Bool → (ℕ → ℤ) → Extraction
unfolding write_rest path_of
extract_once so_bytes pid false writes = extracted [] []
extract_once so_bytes pid true writes =
    path_of pid (write_rest (length so_bytes) writes 0 so_bytes [])

-- LD_PRELOAD as getenv reads it, before and after.
unfoldable pub install_for_child : (Bytes → Bytes) → Bytes → Option Bytes → Option Bytes
unfolding strstr
install_for_child lossy [] preload = preload
install_for_child lossy (b ∷ bs) none = some (b ∷ bs)
install_for_child lossy (b ∷ bs) (some []) = some (b ∷ bs)
install_for_child lossy (b ∷ bs) (some (c ∷ cs)) =
    if strstr (lossy (c ∷ cs)) (codes "autossh-stuck-detector")
    then some (c ∷ cs)
    else some ((b ∷ bs) ++ (58 ∷ lossy (c ∷ cs)))
