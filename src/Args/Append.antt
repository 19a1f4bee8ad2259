-- ===== src/Args/Append.antt =====
-- The vector of arguments as a list.
use autossh_1_4g.Base.{
  ℕ, zero, suc, ◌+◌, ◌-◌, ◌≤◌, ◌<◌, ◌≡◌, refl, sym, ◌∙◌, ◌⊎◌, inl, inr, true, false, none, some,
  List, [], ◌∷◌, ◌++◌, length, length-append, get_elem?, leb, ◌==◌, arith, Bool-cases,
}
use autossh_1_4g.Base.Bytes.{Bytes}
use autossh_1_4g.Args.{ArgVector, make_room, append_arg, add_arg}

-- The slots hold the strings of the list and then a NULL, all within the capacity; a vector that
-- was not allocated is empty.
abbrev pub Represents : List Bytes → ArgVector → Type 0
Represents xs v =
    (v.newac ≡ length xs)
    × (v.newac < v.cap)
    × (2 ≤ v.cap)
    × ((i : ℕ) → i ≤ v.newac → v.slots i ≡ get_elem? xs i)
    × ((v.allocated ≡ true) ⊎ (v.newac ≡ 0))

get_elem-short : (xs : List Bytes) (i : ℕ) → length xs ≤ i → get_elem? xs i ≡ none
get_elem-short [] i h = refl
get_elem-short (x ∷ xs) zero h = absurd (omega arith)
get_elem-short (x ∷ xs) (suc i) h = get_elem-short xs i (omega arith)

get_elem-front :
    (xs ys : List Bytes) (i : ℕ) → i < length xs → get_elem? (xs ++ ys) i ≡ get_elem? xs i
get_elem-front [] ys i h = absurd (omega arith)
get_elem-front (x ∷ xs) ys zero h = refl
get_elem-front (x ∷ xs) ys (suc i) h = get_elem-front xs ys i (omega arith)

get_elem-last : (xs : List Bytes) (s : Bytes) → get_elem? (xs ++ (s ∷ [])) (length xs) ≡ some s
get_elem-last [] s = refl
get_elem-last (x ∷ xs) s = get_elem-last xs s

-- Room for one more string and the NULL behind it.
abbrev HasRoom : List Bytes → ArgVector → Type 0
HasRoom xs v = Represents xs v × (v.newac + 1 < v.cap) × (v.allocated ≡ true)

grown :
    (xs : List Bytes) (v : ArgVector)
    → Represents xs v
    → v.allocated ≡ true
    → HasRoom xs (make_room v)
unfolding make_room
grown xs v h e = elim (Bool-cases (leb (v.cap - 1) v.newac)) [
  | inl full ↦
      rw (e, full)
        ((h.0, omega (arith, h.1), omega (arith, h.2), h.3, inl refl), (ground arith), refl)
  | inr free ↦ rw (e, free) ((h.0, h.1, h.2, h.3, inl refl), (ground arith), refl)
]

fresh :
    (xs : List Bytes) (v : ArgVector)
    → Represents xs v
    → v.allocated ≡ false
    → HasRoom xs (make_room v)
unfolding make_room
fresh xs v h e =
    let empty : v.newac ≡ 0 = (ground arith) in
    rw e (
      (
        h.0,
        omega arith,
        omega arith,
        λ i b. sym (get_elem-short xs i (omega (arith, h.0, empty))),
        inl refl,
      ),
      omega arith,
      refl,
    )

make_room-HasRoom : (xs : List Bytes) (v : ArgVector) → Represents xs v → HasRoom xs (make_room v)
make_room-HasRoom xs v h = elim (Bool-cases v.allocated) [
  | inl e ↦ grown xs v h e
  | inr e ↦ fresh xs v h e
]

append_arg-slot :
    (xs : List Bytes) (s : Bytes) (v : ArgVector) (i : ℕ)
    → Represents xs v
    → i ≤ v.newac + 1
    → (append_arg s v).slots i ≡ get_elem? (xs ++ (s ∷ [])) i
unfolding append_arg
append_arg-slot xs s v i h b = elim (Bool-cases (i == v.newac + 1)) [
  | inl behind ↦
      rw behind
        (sym (get_elem-short (xs ++ (s ∷ [])) i (ground (arith, length-append xs (s ∷ [])))))
  | inr e ↦ rw e (elim (Bool-cases (i == v.newac)) [
    | inl last ↦ rw last (rw (i_last last) (sym (get_elem-last xs s)))
    | inr before ↦
        rw before (h.3 i (ground arith) ∙ sym (get_elem-front xs (s ∷ []) i (ground arith)))
  ])
]
  where
    i_last : (i == v.newac) ≡ true → i ≡ length xs
    i_last e = ground (arith, h.0)

append_arg-Represents :
    (xs : List Bytes) (s : Bytes) (v : ArgVector)
    → HasRoom xs v
    → Represents (xs ++ (s ∷ [])) (append_arg s v)
unfolding append_arg
append_arg-Represents xs s v h = (
  omega (arith, h.0.0, length-append xs (s ∷ [])),
  h.1,
  h.0.2,
  λ i b. append_arg-slot xs s v i h.0 b,
  inl h.2,
)

abbrev pub appended : List Bytes → Bytes → List Bytes
appended xs [] = xs
appended xs (b ∷ bs) = xs ++ ((b ∷ bs) ∷ [])

-- add_arg appends a string that is not empty to the list that newav represents, with its NULL
-- behind it and every write within the capacity, whether or not the vector had to grow; the empty
-- string leaves the list alone.
pub add_arg-Represents :
    (xs : List Bytes) (s : Bytes) (v : ArgVector)
    → Represents xs v
    → Represents (appended xs s) (add_arg s v)
unfolding add_arg
add_arg-Represents xs [] v h = h
add_arg-Represents xs (b ∷ bs) v h =
    append_arg-Represents xs (b ∷ bs) (make_room v) (make_room-HasRoom xs v h)
