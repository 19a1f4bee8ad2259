-- ===== src/Detector/Monitor.antt =====
-- What the monitor thread does about a call that does not come back.
use autossh_1_4g.Base.{ℕ, ◌+◌, ◌*◌, ◌≤◌, ◌<◌, ◌≡◌, ◌↔◌, ◌⊎◌, true, List, [], ◌∷◌, arith}
use autossh_1_4g.Detector.{Tracker, aborts, scan}

-- A call has been in flight for twice the threshold.
abbrev pub AnyStuck : ℕ → ℕ → List Tracker → Type 0
AnyStuck now threshold [] = ⊥
AnyStuck now threshold (t ∷ ts) =
    ((0 < t.start_sec) × (t.start_sec + threshold * 2 ≤ now)) ⊎ AnyStuck now threshold ts

-- With a positive threshold, a look at the trackers ends the process exactly if some tracked call
-- has been in flight for twice the threshold or longer.
pub scan-aborted :
    (now threshold : ℕ) (ts : List Tracker)
    → 0 < threshold
    → ((scan now threshold ts).aborted ≡ true) ↔ AnyStuck now threshold ts
unfolding scan aborts
scan-aborted now threshold [] h = (λ e. cc, λ f. absurd f)
scan-aborted now threshold (t ∷ ts) h = ground (arith, scan-aborted now threshold ts h)
