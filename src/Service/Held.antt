-- ===== src/Service/Held.antt =====
-- The gate of the poll loop of main.go and of the trigger requests is full exactly while a cycle
-- runs.
use github_update_go_watcher.Common.{
  ℕ, Bool, true, false, List, [], ◌∷◌, Option, none, some, Text, ◌≡◌, refl,
}
use github_update_go_watcher.CycleGate.{CycleGate, new_cycle_gate, try_acquire, release}
use github_update_go_watcher.CycleGate.Exclusion.{Actor, System, interval, request}
use github_update_go_watcher.Service.Loop.{
  Cycle, ServiceState, Signal, tick, finish, stop, arrive, begin_forced, begin_interval,
  after_request, drive, end_cycle, launch, route_request, select_tick, step,
}
use github_update_go_watcher.Service.Router.{
  Endpoint, HttpRequest, Mux, print_ok, prometheus, trigger, set_loglevel, garbage_collector,
  test_loglevel, sentry_alert,
}
use github_update_go_watcher.Trigger.{serve_http, after_acquire, start_cycle}
use github_update_go_watcher.Watcher.State.{World, Watcher}

-- The actors that run.
abbrev pub actors : Option Cycle → List Actor
actors none = []
actors (some (actor, force)) = actor ∷ []

-- The gate is full exactly while a cycle runs.
abbrev pub HeldBy : Option Cycle → CycleGate → Type 0
HeldBy none gate = gate.full ≡ false
HeldBy (some c) gate = gate.full ≡ true

module _ {E : Type 0} (mux : Mux) (d : Watcher E) where
  abbrev pub IsHeld : ServiceState E → Type 0
  IsHeld s = HeldBy s.active s.gate

  -- The service as a system of interleaved cycles.
  abbrev pub system : ServiceState E → System
  system s = record { gate = s.gate; running = actors s.active }

  begin_interval-IsHeld :
      (s : ServiceState E)
      → s.gate.full ≡ false
      → IsHeld (begin_interval mux d (try_acquire s.gate) s)
  unfolding begin_interval try_acquire
  begin_interval-IsHeld s free = rw (free) refl

  pub begin_interval-full :
      (s : ServiceState E) → s.gate.full ≡ true → begin_interval mux d (try_acquire s.gate) s ≡ s
  unfolding begin_interval try_acquire
  begin_interval-full s full = rw (full) refl

  select_tick-IsHeld :
      (active : Option Cycle) (stopped : Bool) (s : ServiceState E)
      → s.active ≡ active
      → HeldBy active s.gate
      → IsHeld (select_tick mux d active stopped s)
  unfolding select_tick
  select_tick-IsHeld none false s e h = begin_interval-IsHeld s h
  select_tick-IsHeld none true s e h = rw (e) h
  select_tick-IsHeld (some (interval, force)) stopped s e h = rw (e) h
  select_tick-IsHeld (some (request n, force)) false s e h = rw (begin_interval-full s h) (rw (e) h)
  select_tick-IsHeld (some (request n, force)) true s e h = rw (e) h

  end_cycle-IsHeld :
      (active : Option Cycle) (s : ServiceState E)
      → s.active ≡ active
      → HeldBy active s.gate
      → IsHeld (end_cycle mux d active s)
  unfolding end_cycle release
  end_cycle-IsHeld none s e h = rw (e) h
  end_cycle-IsHeld (some c) s e h = rw (h) refl

  serve_http-HeldBy :
      (n : ℕ) (runs : Bool) (force_str : Text) (active : Option Cycle) (gate : CycleGate)
      → HeldBy active gate
      → HeldBy
          (begin_forced mux d n (serve_http runs force_str gate).started active)
          (serve_http runs force_str gate).gate
  unfolding serve_http after_acquire start_cycle try_acquire begin_forced release
  serve_http-HeldBy n true force_str none gate h = rw (h) refl
  serve_http-HeldBy n false force_str none gate h = rw (h) refl
  serve_http-HeldBy n runs force_str (some c) gate h = rw (h) refl

  route_request-IsHeld :
      (n : ℕ) (runs : Bool) (req : HttpRequest) (selected : Option Endpoint) (s : ServiceState E)
      → IsHeld s
      → IsHeld (route_request mux d n runs req selected s)
  unfolding route_request after_request
  route_request-IsHeld n runs req none s h = h
  route_request-IsHeld n runs req (some trigger) s h =
      serve_http-HeldBy n runs req.force s.active s.gate h
  route_request-IsHeld n runs req (some print_ok) s h = h
  route_request-IsHeld n runs req (some prometheus) s h = h
  route_request-IsHeld n runs req (some set_loglevel) s h = h
  route_request-IsHeld n runs req (some garbage_collector) s h = h
  route_request-IsHeld n runs req (some test_loglevel) s h = h
  route_request-IsHeld n runs req (some sentry_alert) s h = h

  pub step-IsHeld : (signal : Signal) (s : ServiceState E) → IsHeld s → IsHeld (step mux d signal s)
  unfolding step after_request
  step-IsHeld tick s h = select_tick-IsHeld s.active s.stopped s refl h
  step-IsHeld finish s h = end_cycle-IsHeld s.active s refl h
  step-IsHeld stop s h = h
  step-IsHeld (arrive n runs req) s h = route_request-IsHeld n runs req _ s h

  pub launch-IsHeld : (w : World E) → IsHeld (launch mux d w)
  unfolding launch
  launch-IsHeld w =
      step-IsHeld tick (record { gate = new_cycle_gate; active = none; stopped = false; world = w })
        refl

  pub drive-IsHeld :
      (signals : List Signal) (s : ServiceState E) → IsHeld s → IsHeld (drive mux d signals s)
  unfolding drive
  drive-IsHeld [] s h = h
  drive-IsHeld (signal ∷ signals) s h =
      drive-IsHeld signals (step mux d signal s) (step-IsHeld signal s h)
