-- ===== src/CycleGate/Exclusion.antt =====
-- The interval loop of main.go and the goroutines of pkg/handler/trigger_handler.go as interleaved
-- steps over one gate: at most one cycle runs at a time.
use github_update_go_watcher.Common.{
  ℕ, true, false, List, [], ◌∷◌, ◌++◌, ◌≡◌, refl, arith, ◌⊎◌, inl, inr,
}
use github_update_go_watcher.CycleGate.{CycleGate, new_cycle_gate, try_acquire, release}

-- Who starts a cycle: the interval loop, or a request.
pub data Actor : Type 0 where
  interval : Actor
  request : ℕ → Actor

-- The gate, and the actors whose cycle is running.
pub record System : Type 0 where
  pub gate : CycleGate
  pub running : List Actor

abbrev pub start : System
start = record { gate = new_cycle_gate; running = [] }

-- An actor that acquires the gate starts its cycle; one that does not backs off; a cycle that ends,
-- by an error or a panic too, releases the gate; and so does a request whose cycle could not be
-- started.
pub data Step (s : System) : System → Type 0 where
  begin :
      (a : Actor) (g : CycleGate)
      → try_acquire s.gate ≡ (true, g)
      → Step s (record { gate = g; running = a ∷ s.running })
  back_off :
      (a : Actor) (g : CycleGate) → try_acquire s.gate ≡ (false, g) → Step s (record s { gate = g })
  end :
      (before after : List Actor) (a : Actor)
      → s.running ≡ before ++ a ∷ after
      → Step s (record { gate = release s.gate; running = before ++ after })
  not_started :
      (a : Actor) (g : CycleGate)
      → try_acquire s.gate ≡ (true, g)
      → Step s (record s { gate = release g })

pub data Reach : System → Type 0 where
  here : Reach start
  next : {s t : System} → Reach s → Step s t → Reach t

-- Nobody runs behind an empty gate, and exactly one actor runs behind a full one.
abbrev pub IsGuarded : System → Type 0
IsGuarded s =
    ((s.gate.full ≡ false) × (s.running ≡ []))
    ⊎ ((a : Actor) × (s.gate.full ≡ true) × (s.running ≡ a ∷ []))

end-IsGuarded :
    (s : System) (before after : List Actor) (a : Actor)
    → s.running ≡ before ++ a ∷ after
    → IsGuarded s
    → IsGuarded (record { gate = release s.gate; running = before ++ after })
unfolding release
end-IsGuarded s [] [] a e g = ground arith
end-IsGuarded s [] (b ∷ after) a e g = ground arith
end-IsGuarded s (c ∷ []) after a e g = ground arith
end-IsGuarded s (c ∷ b ∷ before) after a e g = ground arith

Step-IsGuarded : {s t : System} → Step s t → IsGuarded s → IsGuarded t
unfolding try_acquire release
Step-IsGuarded {s} (begin a g e) h = inr (a, ground arith, ground arith)
Step-IsGuarded {s} (back_off a g e) h = ground arith
Step-IsGuarded {s} (end before after a e) h = end-IsGuarded s before after a e h
Step-IsGuarded {s} (not_started a g e) h = ground arith

-- In every reachable state at most one cycle runs, and the gate is full exactly while one runs.
pub Reach-IsGuarded : {s : System} → Reach s → IsGuarded s
Reach-IsGuarded here = inl (refl, refl)
Reach-IsGuarded (next r step) = Step-IsGuarded step (Reach-IsGuarded r)
