-- ===== src/Command/Forwards.antt =====
-- Where the forwards stand in the command line.
use autossh_1_4g.Base.{
  ◌≡◌, ◌⊎◌, refl, ap, sym, ◌∙◌, inl, inr, Bool, true, false, not, ◌&&◌, List, [], ◌∷◌, ◌++◌, arith,
  if◌then◌else◌,
}
use autossh_1_4g.Base.Bytes.{Bytes}
use autossh_1_4g.Command.{assemble, as_arg, begins_with, is_bare, passed_on, build}

module _ (on from_env : Bool) where
  -- Once the forwards are in, they are not put in again.
  build_done :
      (fwds : List Bytes) (skip stop : Bool) (args : List Bytes)
      → build fwds on from_env skip stop true args ≡ build [] on from_env skip stop true args
  unfolding build
  build_done fwds skip stop [] = refl
  build_done fwds true stop (arg ∷ args) = build_done fwds false stop args
  build_done fwds false stop (arg ∷ args) = ground (
    arith,
    build_done fwds false true args,
    build_done fwds (is_bare arg) stop args,
    build_done fwds false stop args,
  )

-- A command line that has the forwards at one place as a block, or nowhere, whatever they are.
abbrev pub Placed : (List Bytes → List Bytes) → Type 0
Placed line =
    ((all : List Bytes) × ((fwds : List Bytes) → line fwds ≡ all))
    ⊎ ((before : List Bytes) × (after : List Bytes) × ((fwds : List Bytes)
          → line fwds ≡ before ++ (fwds ++ after)))

append_assoc : (xs ys zs : List Bytes) → (xs ++ ys) ++ zs ≡ xs ++ (ys ++ zs)
append_assoc [] ys zs = refl
append_assoc (x ∷ xs) ys zs = ap (◌∷◌ x) (append_assoc xs ys zs)

append-Placed :
    (front : List Bytes) (line : List Bytes → List Bytes)
    → Placed line
    → Placed (λ fwds. front ++ line fwds)
append-Placed front line (inl (all, e)) = inl (front ++ all, λ fwds. ap (λ l. front ++ l) (e fwds))
append-Placed front line (inr (before, after, e)) = inr (
  front ++ before,
  after,
  λ fwds. ap (λ l. front ++ l) (e fwds) ∙ sym (append_assoc front before (fwds ++ after)),
)

if-Placed :
    (c : Bool) (line other : List Bytes → List Bytes)
    → Placed line
    → Placed other
    → Placed (λ fwds. if c then line fwds else other fwds)
if-Placed true line other h k = h
if-Placed false line other h k = k

module _ (on from_env : Bool) where
  abbrev rest_of : Bool → Bool → Bool → List Bytes → List Bytes → List Bytes
  rest_of skip stop done args fwds = build fwds on from_env skip stop done args

  forwards-Placed :
      (front : List Bytes) (skip stop : Bool) (args : List Bytes)
      → Placed (λ fwds. fwds ++ (front ++ build fwds on from_env skip stop true args))
  forwards-Placed front skip stop args = inr (
    [],
    front ++ build [] on from_env skip stop true args,
    λ fwds. ap (λ l. fwds ++ (front ++ l)) (build_done on from_env fwds skip stop args),
  )

  step-Placed :
      (stop : Bool) (arg : Bytes) (args : List Bytes)
      → Placed (rest_of false true false args)
      → Placed (rest_of (is_bare arg) stop false args)
      → Placed (rest_of false stop false args)
      → Placed (rest_of false stop false (arg ∷ args))
  unfolding build
  step-Placed stop arg args after_stop at_flag plain =
      if-Placed (begins_with 45 arg && not stop) (rest_of false true false args)
        (λ fwds.
          if on && (from_env && not false)
          then fwds ++ (passed_on arg ++ build fwds on from_env false stop true args)
          else other fwds)
        after_stop
        (if-Placed (on && (from_env && not false))
          (λ fwds. fwds ++ (passed_on arg ++ build fwds on from_env false stop true args)) other
          (forwards-Placed (passed_on arg) false stop args) other-Placed)
    where
      flag : List Bytes → List Bytes
      flag fwds =
          if on && not false
          then fwds ++ build fwds on from_env (is_bare arg) stop true args
          else build fwds on from_env (is_bare arg) stop false args

      other : List Bytes → List Bytes
      other fwds =
          if not stop && begins_with 77 arg
          then (if on && not false
              then fwds ++ build fwds on from_env (is_bare arg) stop true args
              else build fwds on from_env (is_bare arg) stop false args)
          else passed_on arg ++ build fwds on from_env false stop false args

      other-Placed : Placed other
      other-Placed =
          if-Placed (not stop && begins_with 77 arg) flag
            (λ fwds. passed_on arg ++ build fwds on from_env false stop false args)
            (if-Placed (on && not false)
              (λ fwds. fwds ++ build fwds on from_env (is_bare arg) stop true args)
              (rest_of (is_bare arg) stop false args) (forwards-Placed [] (is_bare arg) stop args)
              at_flag)
            (append-Placed (passed_on arg) (rest_of false stop false args) plain)

  build-Placed : (skip stop : Bool) (args : List Bytes) → Placed (rest_of skip stop false args)
  unfolding build
  build-Placed skip stop [] = inl ([], λ fwds. refl)
  build-Placed true stop (arg ∷ args) = build-Placed false stop args
  build-Placed false stop (arg ∷ args) =
      step-Placed stop arg args (build-Placed false true args)
        (build-Placed (is_bare arg) stop args) (build-Placed false stop args)

-- The forwards stand in the command line for ssh at most once, as one block, and neither their place
-- nor the rest of the line depends on what they are.
pub assemble-Placed :
    (path : Bytes) (on from_env : Bool) (args : List Bytes)
    → Placed (assemble path on from_env args)
unfolding assemble
assemble-Placed path on from_env args =
    append-Placed (as_arg path) (λ fwds. build fwds on from_env false false false args)
      (build-Placed on from_env false false args)
