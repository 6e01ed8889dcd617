-- ===== src/CycleGate.antt =====
-- pkg/cyclegate.go: a channel of capacity one, of which only the number of elements matters.
pub mod Exclusion
use github_update_go_watcher.Common.{Bool, true, false}

-- `slot` is full while a cycle runs.
pub record CycleGate : Type 0 where
  pub full : Bool

abbrev pub new_cycle_gate : CycleGate
new_cycle_gate = record { full = false }

-- A send that does not block.
unfoldable pub try_acquire : CycleGate → Bool × CycleGate
try_acquire g = elim g.full [ true ↦ (false, g) | false ↦ (true, record { full = true }) ]

-- A receive that does not block.
unfoldable pub release : CycleGate → CycleGate
release g = elim g.full [ true ↦ record { full = false } | false ↦ g ]
