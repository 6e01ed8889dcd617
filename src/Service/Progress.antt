-- ===== src/Service/Progress.antt =====
-- The cycle that runs frees the gate when it ends.
use github_update_go_watcher.Common.{false, Option, none, some, ◌≡◌, refl}
use github_update_go_watcher.CycleGate.{release}
use github_update_go_watcher.Service.Loop.{Cycle, ServiceState, finish, end_cycle, step}
use github_update_go_watcher.Service.Router.{Mux}
use github_update_go_watcher.Watcher.State.{Watcher}
use github_update_go_watcher.Service.Held.{HeldBy, IsHeld}

module _ {E : Type 0} (mux : Mux) (d : Watcher E) where
  finished-idle :
      (active : Option Cycle) (s : ServiceState E)
      → s.active ≡ active
      → HeldBy active s.gate
      → ((end_cycle mux d active s).active ≡ none)
        × ((end_cycle mux d active s).gate.full ≡ false)
        × ((end_cycle mux d active s).stopped ≡ s.stopped)
  unfolding end_cycle release
  finished-idle none s e h = (e, h, refl)
  finished-idle (some c) s e h = (refl, rw (h) refl, refl)

  pub step_finish_idle :
      (s : ServiceState E)
      → IsHeld mux d s
      → ((step mux d finish s).active ≡ none)
        × ((step mux d finish s).gate.full ≡ false)
        × ((step mux d finish s).stopped ≡ s.stopped)
  unfolding step
  step_finish_idle s h = finished-idle s.active s refl h
