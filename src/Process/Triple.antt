-- ===== src/Process/Triple.antt =====
-- What an action may do from one state: return with Q, jump (siglongjmp) with J, or end or be cut
-- off with I. The rule for bind is proved once, so that each function is verified by its parts.
use autossh_1_4g.Base.{◌≡◌, refl, Bool, true, false, if◌then◌else◌}
use autossh_1_4g.Posix.{Os}
use autossh_1_4g.Process.{State, Outcome, done, jumped, ended, running, M, continue}

abbrev pub Sat :
    {A : Type 0} → (A → State → Type 0) → (State → Type 0) → (State → Type 0) → Outcome A → Type 0
Sat Q J I (done a s) = Q a s
Sat Q J I (jumped g s) = J s
Sat Q J I (ended e s) = I s
Sat Q J I (running s) = I s

-- No jump leaves the action.
abbrev pub NoJump : State → Type 0
NoJump s = ⊥

-- The action returns with Q or ends the process with I: it neither jumps nor goes on for ever.
abbrev pub Ends : {A : Type 0} → (A → State → Type 0) → (State → Type 0) → Outcome A → Type 0
Ends Q I (done a s) = Q a s
Ends Q I (jumped g s) = ⊥
Ends Q I (ended e s) = I s
Ends Q I (running s) = ⊥

module _ {A B : Type 0} (R : A → State → Type 0) (Q : B → State → Type 0)
    (J I : State → Type 0) where
  pub Sat-continue :
      (os : Os) (o : Outcome A) (f : A → M B)
      → Sat R J I o
      → ((a : A) (s : State) → R a s → Sat Q J I (f a os s))
      → Sat Q J I (continue os o f)
  Sat-continue os (done a s) f h k = k a s h
  Sat-continue os (jumped g s) f h k = h
  Sat-continue os (ended e s) f h k = h
  Sat-continue os (running s) f h k = h

module _ {A : Type 0} {R Q : A → State → Type 0} {J K H I : State → Type 0}
    (on_done : (a : A) (s : State) → R a s → Q a s) (on_jump : (s : State) → J s → K s)
    (on_end : (s : State) → H s → I s) where
  pub Sat-weaken : (o : Outcome A) → Sat R J H o → Sat Q K I o
  Sat-weaken (done a s) h = on_done a s h
  Sat-weaken (jumped g s) h = on_jump s h
  Sat-weaken (ended e s) h = on_end s h
  Sat-weaken (running s) h = on_end s h

module _ {A B : Type 0} (R : A → State → Type 0) (Q : B → State → Type 0) (I : State → Type 0) where
  pub Ends-continue :
      (os : Os) (o : Outcome A) (f : A → M B)
      → Ends R I o
      → ((a : A) (s : State) → R a s → Ends Q I (f a os s))
      → Ends Q I (continue os o f)
  Ends-continue os (done a s) f h k = k a s h
  Ends-continue os (jumped g s) f h k = absurd h
  Ends-continue os (ended e s) f h k = h
  Ends-continue os (running s) f h k = absurd h

module _ {A : Type 0} {R Q : A → State → Type 0} {H I : State → Type 0}
    (on_done : (a : A) (s : State) → R a s → Q a s) (on_end : (s : State) → H s → I s) where
  pub Ends-weaken : (o : Outcome A) → Ends R H o → Ends Q I o
  Ends-weaken (done a s) h = on_done a s h
  Ends-weaken (jumped g s) h = h
  Ends-weaken (ended e s) h = on_end s h
  Ends-weaken (running s) h = h

  pub Sat-Ends : (J : State → Type 0) (o : Outcome A) → Ends R H o → Sat Q J I o
  Sat-Ends J (done a s) h = on_done a s h
  Sat-Ends J (jumped g s) h = absurd h
  Sat-Ends J (ended e s) h = on_end s h
  Sat-Ends J (running s) h = absurd h

module _ {A : Type 0} (Q : A → State → Type 0) (J I : State → Type 0) where
  pub Ends-Sat : (o : Outcome A) → Ends Q I o → Sat Q J I o
  Ends-Sat = Sat-Ends (λ a s h. h) (λ s h. h) J

  pub Sat-if :
      (c : Bool) (m n : M A) (os : Os) (s : State)
      → (c ≡ true → Sat Q J I (m os s))
      → (c ≡ false → Sat Q J I (n os s))
      → Sat Q J I ((if c then m else n) os s)
  Sat-if true m n os s p q = p refl
  Sat-if false m n os s p q = q refl

module _ {A : Type 0} (Q : A → State → Type 0) (I : State → Type 0) where
  pub Ends-if :
      (c : Bool) (m n : M A) (os : Os) (s : State)
      → (c ≡ true → Ends Q I (m os s))
      → (c ≡ false → Ends Q I (n os s))
      → Ends Q I ((if c then m else n) os s)
  Ends-if true m n os s p q = p refl
  Ends-if false m n os s p q = q refl
