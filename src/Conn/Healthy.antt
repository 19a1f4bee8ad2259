-- ===== src/Conn/Healthy.antt =====
-- A tunnel that works passes the test: the message is written in pieces, and comes back in pieces.
use autossh_1_4g.Base.{
  ℕ, zero, suc, ◌+◌, ◌-◌, ◌≤◌, ◌<◌, ◌≡◌, refl, ap, sym, subst, ◌∙◌, true, Option, some, List, [],
  ◌∷◌, ◌++◌, ◌&&◌, ltb, ◌==◌, length, length-append, arith, if◌then◌else◌,
}
use mathlib.Core.List.{append-nil, append_assoc}
use autossh_1_4g.Base.Bytes.{Bytes}
use autossh_1_4g.Posix.{Os, ready, wrote, got}
use autossh_1_4g.Process.{State, M, pure, ask, ◌>>=◌, ◌>>◌}
use autossh_1_4g.Process.Triple.{Ends, Ends-continue, Ends-weaken, Ends-if}
use autossh_1_4g.Signals.{deliver}
use autossh_1_4g.Conn.{
  poll, after_write, write_some, Received, after_read, read_some, Exchange, complete, next_round,
  after_reading, after_writing, on_ready, exchange, conn_send_and_receive,
}

abbrev pub total : List ℕ → ℕ
total [] = 0
total (n ∷ ns) = n + total ns

abbrev pub join : List Bytes → Bytes
join [] = []
join (p ∷ ps) = p ++ join ps

module _ (os : Os) where
  -- From call k on, writes take these numbers of bytes, one after the other.
  abbrev pub Takes : ℕ → List ℕ → Type 0
  Takes k [] = Unit
  Takes k (n ∷ ns) = (os.write k ≡ wrote n) × (0 < n) × Takes (suc k) ns

  -- From call k on, reads return these pieces, one after the other.
  abbrev pub Brings : ℕ → List Bytes → Type 0
  Brings k [] = Unit
  Brings k (p ∷ ps) = (os.read k ≡ got p) × (0 < length p) × Brings (suc k) ps

  -- The action returns, with a value and after a number of calls that R allows.
  abbrev pub Gives : {A : Type 0} → (A → ℕ → Type 0) → M A → State → Type 0
  Gives R m s = Ends (λ a t. R a t.calls) (λ _. ⊥) (m os s)

  abbrev AllWritten : ℕ → ℕ → Option ℕ → ℕ → Type 0
  AllWritten k n r upto = (r ≡ some 0) × (upto ≡ k + n)

  write_some-Gives :
      (fuel left : ℕ) (ns : List ℕ) (s : State)
      → left ≤ fuel
      → total ns ≡ left
      → Takes s.calls ns
      → Gives (AllWritten s.calls (length ns)) (write_some fuel left) s
  unfolding write_some after_write
  write_some-Gives zero left [] s le e t = (ap some (omega arith), omega arith)
  write_some-Gives zero left (n ∷ ns) s le e t = absurd (omega arith)
  write_some-Gives (suc fuel) left [] s le e t =
      Ends-if (λ r u. AllWritten s.calls 0 r u.calls) (λ _. ⊥) (left == 0) (pure (some 0))
        (ask (λ os n. os.write n) >>= after_write (write_some fuel) left) os s
        (λ _. (refl, omega arith)) (λ more. absurd (ground arith))
  write_some-Gives (suc fuel) left (zero ∷ ns) s le e t = absurd (omega arith)
  write_some-Gives (suc fuel) left (suc n ∷ ns) s le e t =
      let s' = record s { calls = suc s.calls } in
      Ends-if (λ r u. AllWritten s.calls (length (suc n ∷ ns)) r u.calls) (λ _. ⊥) (left == 0)
        (pure (some 0)) (ask (λ os n. os.write n) >>= after_write (write_some fuel) left) os s
        (λ over. absurd (ground arith))
        (λ _.
          subst
            (λ r.
              Gives (AllWritten s.calls (length (suc n ∷ ns)))
                (after_write (write_some fuel) left r) s')
            (sym t.0)
            (Ends-weaken (λ r u h. (h.0, omega arith)) (λ u h. h)
              (write_some fuel (left - suc n) os s')
              (write_some-Gives fuel (left - suc n) ns s' (omega arith) (omega arith) t.2)))

  read_some-Gives :
      (fuel left : ℕ) (acc : Bytes) (ps : List Bytes) (s : State)
      → left ≤ fuel
      → length (join ps) ≡ left
      → Brings s.calls ps
      → Gives (λ r k. r ≡ some (0, acc ++ join ps)) (read_some fuel left acc) s
  unfolding read_some after_read
  read_some-Gives zero left acc [] s le e t =
      rw (append-nil acc) (ap (λ n. some (n, acc)) (omega arith))
  read_some-Gives zero left acc ([] ∷ ps) s le e t = absurd (omega arith)
  read_some-Gives zero left acc ((x ∷ xs) ∷ ps) s le e t = absurd (omega arith)
  read_some-Gives (suc fuel) left acc [] s le e t =
      Ends-if (λ r u. r ≡ some (0, acc ++ [])) (λ _. ⊥) (left == 0) (pure (some (0, acc)))
        (ask (λ os n. os.read n) >>= after_read (read_some fuel) left acc) os s
        (λ _. rw (append-nil acc) refl) (λ more. absurd (ground arith))
  read_some-Gives (suc fuel) left acc ([] ∷ ps) s le e t = absurd (omega arith)
  read_some-Gives (suc fuel) left acc ((x ∷ xs) ∷ ps) s le e t =
      let s' = record s { calls = suc s.calls } in
      let acc' = acc ++ (x ∷ xs) in
      let R : Received → ℕ → Type 0 = λ r k. r ≡ some (0, acc ++ join ((x ∷ xs) ∷ ps)) in
      Ends-if (λ r u. R r u.calls) (λ _. ⊥) (left == 0) (pure (some (0, acc)))
        (ask (λ os n. os.read n) >>= after_read (read_some fuel) left acc) os s
        (λ over. absurd (ground arith))
        (λ _.
          subst (λ r. Gives R (after_read (read_some fuel) left acc r) s') (sym t.0)
            (Ends-weaken
              (λ r u h. h ∙ ap (λ bs. some (0, bs)) (append_assoc acc (x ∷ xs) (join ps)))
              (λ u h. h) (read_some fuel (left - length (x ∷ xs)) acc' os s')
              (read_some-Gives fuel (left - length (x ∷ xs)) acc' ps s' (omega arith)
                (omega (arith, length-append {0} (x ∷ xs) (join ps))) t.2)))

  module _ (quiet : (n : ℕ) → os.arrivals n ≡ [])
      (willing : (n : ℕ) → os.poll n ≡ ready true true) where
    pub poll-Gives : (s : State) → Gives (λ r k. (r ≡ ready true true) × (k ≡ suc s.calls)) poll s
    unfolding poll deliver
    poll-Gives s =
        subst
          (λ gs.
            Gives (λ r k. (r ≡ ready true true) × (k ≡ suc s.calls))
              (deliver gs >> pure (os.poll s.calls)) (record s { calls = suc s.calls }))
          (sym (quiet s.calls)) (willing s.calls, refl)

    abbrev Completes : Bytes → M Exchange → State → Type 0
    Completes message = Gives (λ r k. r ≡ complete message)

    -- With everything read, the next round is the last.
    last_round :
        (fuel wleft : ℕ) (acc : Bytes) (s : State)
        → Completes acc (next_round 1 (exchange (suc fuel) 0 wleft acc 1)) s
    unfolding next_round exchange
    last_round fuel wleft acc s = refl

    after_writing-Completes :
        (fuel rleft : ℕ) (ps : List Bytes) (s : State)
        → length (join ps) ≡ rleft
        → Brings s.calls ps
        → Completes (join ps) (after_writing (exchange (suc fuel)) rleft [] 0 true (some 0)) s
    unfolding after_writing after_reading
    after_writing-Completes fuel rleft ps s e bs =
        Ends-continue (λ r t. r ≡ some (0, join ps)) (λ r t. r ≡ complete (join ps)) (λ _. ⊥) os
          (read_some rleft rleft [] os s) (after_reading (exchange (suc fuel)) 0 0)
          (read_some-Gives rleft rleft [] ps s (omega arith) e bs)
          (λ r t h.
            subst (λ r. Completes (join ps) (after_reading (exchange (suc fuel)) 0 0 r) t) (sym h)
              (last_round fuel 0 (join ps) t))

    on_ready-Completes :
        (fuel len : ℕ) (ns : List ℕ) (ps : List Bytes) (s : State)
        → 0 < len
        → total ns ≡ len
        → Takes s.calls ns
        → length (join ps) ≡ len
        → Brings (s.calls + length ns) ps
        → Completes (join ps) (on_ready (exchange (suc fuel)) len len [] 0 (ready true true)) s
    unfolding on_ready
    on_ready-Completes fuel len ns ps s pos e ts e' bs =
        Ends-continue (λ r t. AllWritten s.calls (length ns) r t.calls)
          (λ r t. r ≡ complete (join ps)) (λ _. ⊥) os
          ((if ltb 0 len && true then write_some len len else pure (some len)) os s)
          (after_writing (exchange (suc fuel)) len [] 0 true)
          (Ends-if (λ r t. AllWritten s.calls (length ns) r t.calls) (λ _. ⊥) (ltb 0 len && true)
            (write_some len len) (pure (some len)) os s
            (λ _. write_some-Gives len len ns s (omega arith) e ts) (λ none. absurd (ground arith)))
          (λ r t h.
            subst (λ r. Completes (join ps) (after_writing (exchange (suc fuel)) len [] 0 true r) t)
              (sym h.0)
              (after_writing-Completes fuel len ps t e' (subst (λ k. Brings k ps) (sym h.1) bs)))

    pub conn_send_and_receive-Completes :
        (len : ℕ) (ns : List ℕ) (ps : List Bytes) (s : State)
        → 0 < len
        → total ns ≡ len
        → Takes (suc s.calls) ns
        → length (join ps) ≡ len
        → Brings (suc s.calls + length ns) ps
        → Completes (join ps) (conn_send_and_receive len) s
    unfolding conn_send_and_receive exchange
    conn_send_and_receive-Completes len ns ps s pos e ts e' bs =
        Ends-if (λ r t. r ≡ complete (join ps)) (λ _. ⊥) (len == 0) (pure (complete []))
          (poll >>= on_ready (exchange 11) len len [] 0) os s (λ over. absurd (ground arith))
          (λ _.
            Ends-continue (λ r t. (r ≡ ready true true) × (t.calls ≡ suc s.calls))
              (λ r t. r ≡ complete (join ps)) (λ _. ⊥) os (poll os s)
              (on_ready (exchange 11) len len [] 0) (poll-Gives s)
              (λ r t h.
                subst (λ r. Completes (join ps) (on_ready (exchange 11) len len [] 0 r) t) (sym h.0)
                  (on_ready-Completes 10 len ns ps t pos e (subst (λ k. Takes k ns) (sym h.1) ts) e'
                    (subst (λ k. Brings (k + length ns) ps) (sym h.1) bs))))
