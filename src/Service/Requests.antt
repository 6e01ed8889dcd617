-- ===== src/Service/Requests.antt =====
-- What an HTTP request does to the cycles of the service of main.go.
use github_update_go_watcher.Common.{
  ℕ, Bool, true, false, Option, none, some, bytes, ◌≡◌, ◌≢◌, ◌⊎◌, refl, inl, inr, Bool-cases,
}
use github_update_go_watcher.CycleGate.{try_acquire, release}
use github_update_go_watcher.CycleGate.Exclusion.{request}
use github_update_go_watcher.Service.Loop.{
  ServiceState, after_request, arrive, begin_forced, route_request, step,
}
use github_update_go_watcher.Service.Router.{
  Endpoint, HttpRequest, IsMux, Mux, create_router, print_ok, prometheus, trigger, set_loglevel,
  garbage_collector, test_loglevel, sentry_alert,
}
use github_update_go_watcher.Service.Routes.{select-Serves}
use github_update_go_watcher.Trigger.{is_forced, serve_http, after_acquire, start_cycle}
use github_update_go_watcher.Watcher.State.{Watcher}

module _ {E : Type 0} (mux : Mux) (is_mux : IsMux mux) (d : Watcher E) (n : ℕ) (runs : Bool)
    (req : HttpRequest) (s : ServiceState E) where
  -- The request begins a cycle, forced as its parameter says, or it changes nothing.
  abbrev pub Begins : ServiceState E → Type 0
  Begins t =
      ((req.path ≡ bytes "/trigger")
        × (s.gate.full ≡ false)
        × (runs ≡ true)
        × (t.active ≡ some (request n, is_forced req.force))
        × (t.gate.full ≡ true)
        × (t.world ≡ s.world))
      ⊎ (((req.path ≢ bytes "/trigger") ⊎ (s.gate.full ≡ true) ⊎ (runs ≡ false)) × (t ≡ s))

  elsewhere : mux.select create_router req ≢ some trigger → req.path ≢ bytes "/trigger"
  elsewhere other at = other ((select-Serves mux is_mux req trigger).1 at)

  triggered :
      req.path ≡ bytes "/trigger"
      → Begins (after_request mux d n (serve_http runs req.force s.gate) s)
  unfolding after_request serve_http after_acquire start_cycle try_acquire release begin_forced
  triggered at = elim (Bool-cases s.gate.full) [
    | inl full ↦ rw (full) (inr (inr (inl refl), refl))
    | inr free ↦ elim (Bool-cases runs) [
      | inl taken ↦ rw (free) (rw (taken) (inl (at, refl, refl, refl, refl, refl)))
      | inr untaken ↦ rw (free) (rw (untaken) (inr (inr (inr refl), refl)))
    ]
  ]

  -- The handler that a request gets tells whether its path is that of the trigger.
  routed :
      (selected : Option Endpoint)
      → mux.select create_router req ≡ selected
      → Begins (route_request mux d n runs req selected s)
  unfolding route_request
  routed (some trigger) e = triggered ((select-Serves mux is_mux req trigger).0 e)
  routed none e = inr (inl (elsewhere (λ h. cc)), refl)
  routed (some print_ok) e = inr (inl (elsewhere (λ h. cc)), refl)
  routed (some prometheus) e = inr (inl (elsewhere (λ h. cc)), refl)
  routed (some set_loglevel) e = inr (inl (elsewhere (λ h. cc)), refl)
  routed (some garbage_collector) e = inr (inl (elsewhere (λ h. cc)), refl)
  routed (some test_loglevel) e = inr (inl (elsewhere (λ h. cc)), refl)
  routed (some sentry_alert) e = inr (inl (elsewhere (λ h. cc)), refl)

  -- A request, of any method, begins a cycle exactly if its path is /trigger, no cycle runs and the
  -- runner takes it; the cycle is forced as its parameter says. Any other request changes neither the
  -- gate nor the cycle that runs.
  pub arrive-Begins : Begins (step mux d (arrive n runs req) s)
  unfolding step
  arrive-Begins = routed _ refl
