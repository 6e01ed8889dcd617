-- ===== src/Service/Interleaving.antt =====
-- The poll loop of main.go and the trigger requests are a run of the system of interleaved cycles.
use mathlib.Core.Path.{subst}
use github_update_go_watcher.Common.{
  ℕ, Bool, true, false, List, [], ◌∷◌, Option, none, some, Text, ◌≡◌, refl, ap,
}
use github_update_go_watcher.CycleGate.{CycleGate, new_cycle_gate, try_acquire}
use github_update_go_watcher.CycleGate.Exclusion.{
  Actor, Reach, begin, back_off, end, here, interval, next, request,
}
use github_update_go_watcher.Service.Loop.{
  Cycle, ServiceState, Signal, tick, finish, stop, arrive, begin_forced, begin_interval,
  after_request, drive, end_cycle, launch, route_request, select_tick, step,
}
use github_update_go_watcher.Service.Router.{
  Endpoint, HttpRequest, Mux, print_ok, prometheus, trigger, set_loglevel, garbage_collector,
  test_loglevel, sentry_alert,
}
use github_update_go_watcher.Trigger.{serve_http, after_acquire, start_cycle}
use github_update_go_watcher.Trigger.Protocol.{joins, serve_http-Step}
use github_update_go_watcher.Watcher.State.{World, Watcher}
use github_update_go_watcher.Service.Held.{
  actors, HeldBy, IsHeld, system, begin_interval-full, step-IsHeld, launch-IsHeld,
}

module _ {E : Type 0} (mux : Mux) (d : Watcher E) where
  begin_interval-Reach :
      (tried : Bool × CycleGate) (s : ServiceState E)
      → try_acquire s.gate ≡ tried
      → s.active ≡ none
      → Reach (system mux d s)
      → Reach (system mux d (begin_interval mux d tried s))
  unfolding begin_interval
  begin_interval-Reach (true, g) s e free r =
      subst (λ (l : List Actor). Reach (record { gate = g; running = interval ∷ l }))
        (ap actors free) (next r (begin interval g e))
  begin_interval-Reach (false, g) s e free r = next r (back_off interval g e)

  end_cycle-Reach :
      (active : Option Cycle) (s : ServiceState E)
      → s.active ≡ active
      → Reach (system mux d s)
      → Reach (system mux d (end_cycle mux d active s))
  unfolding end_cycle
  end_cycle-Reach none s e r = r
  end_cycle-Reach (some (actor, force)) s e r = next r (end [] [] actor (ap actors e))

  select_tick-Reach :
      (active : Option Cycle) (stopped : Bool) (s : ServiceState E)
      → s.active ≡ active
      → HeldBy active s.gate
      → Reach (system mux d s)
      → Reach (system mux d (select_tick mux d active stopped s))
  unfolding select_tick
  select_tick-Reach none false s e h r = begin_interval-Reach _ s refl e r
  select_tick-Reach none true s e h r = r
  select_tick-Reach (some (interval, force)) stopped s e h r = r
  select_tick-Reach (some (request n, force)) false s e h r = rw (begin_interval-full mux d s h) r
  select_tick-Reach (some (request n, force)) true s e h r = r

  -- A request joins the actors exactly if its cycle was started, and none is if one runs.
  joins-begin_forced :
      (n : ℕ) (runs : Bool) (force_str : Text) (active : Option Cycle) (gate : CycleGate)
      → HeldBy active gate
      → joins (request n) (serve_http runs force_str gate).started (actors active)
        ≡ actors (begin_forced mux d n (serve_http runs force_str gate).started active)
  unfolding serve_http after_acquire start_cycle try_acquire begin_forced
  joins-begin_forced n true force_str none gate h = rw (h) refl
  joins-begin_forced n false force_str none gate h = rw (h) refl
  joins-begin_forced n runs force_str (some c) gate h = rw (h) refl

  route_request-Reach :
      (n : ℕ) (runs : Bool) (req : HttpRequest) (selected : Option Endpoint) (s : ServiceState E)
      → IsHeld mux d s
      → Reach (system mux d s)
      → Reach (system mux d (route_request mux d n runs req selected s))
  unfolding route_request after_request
  route_request-Reach n runs req none s h r = r
  route_request-Reach n runs req (some trigger) s h r =
      subst
        (λ (l : List Actor).
          Reach (record { gate = (serve_http runs req.force s.gate).gate; running = l }))
        (joins-begin_forced n runs req.force s.active s.gate h)
        (next r (serve_http-Step n runs req.force (system mux d s)))
  route_request-Reach n runs req (some print_ok) s h r = r
  route_request-Reach n runs req (some prometheus) s h r = r
  route_request-Reach n runs req (some set_loglevel) s h r = r
  route_request-Reach n runs req (some garbage_collector) s h r = r
  route_request-Reach n runs req (some test_loglevel) s h r = r
  route_request-Reach n runs req (some sentry_alert) s h r = r

  step-Reach :
      (signal : Signal) (s : ServiceState E)
      → IsHeld mux d s
      → Reach (system mux d s)
      → Reach (system mux d (step mux d signal s))
  unfolding step after_request
  step-Reach tick s h r = select_tick-Reach s.active s.stopped s refl h r
  step-Reach finish s h r = end_cycle-Reach s.active s refl r
  step-Reach stop s h r = r
  step-Reach (arrive n runs req) s h r = route_request-Reach n runs req _ s h r

  drive-Reach_from :
      (signals : List Signal) (s : ServiceState E)
      → IsHeld mux d s
      → Reach (system mux d s)
      → Reach (system mux d (drive mux d signals s))
  unfolding drive
  drive-Reach_from [] s h r = r
  drive-Reach_from (signal ∷ signals) s h r =
      drive-Reach_from signals _ (step-IsHeld mux d signal s h) (step-Reach signal s h r)

  launch-Reach : (w : World E) → Reach (system mux d (launch mux d w))
  unfolding launch
  launch-Reach w =
      step-Reach tick (record { gate = new_cycle_gate; active = none; stopped = false; world = w })
        refl here

  -- Every run of the poll loop and the trigger requests is a run of the system mux d of interleaved cycles,
  -- in which at most one cycle runs.
  pub drive-Reach :
      (signals : List Signal) (w : World E)
      → Reach (system mux d (drive mux d signals (launch mux d w)))
  drive-Reach signals w = drive-Reach_from signals _ (launch-IsHeld mux d w) (launch-Reach w)
