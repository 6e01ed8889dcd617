-- ===== src/Service/Loop.antt =====
-- `pollLoop` of main.go and the trigger requests, over one gate. A cycle has a beginning, at which its
-- actor holds the gate, and an end, at which it has done its work: no other cycle runs between the
-- two, so its effects stand at the end.
use github_update_go_watcher.Common.{ℕ, Bool, true, false, List, [], ◌∷◌, Option, none, some}
use github_update_go_watcher.CycleGate.{CycleGate, new_cycle_gate, try_acquire, release}
use github_update_go_watcher.CycleGate.Exclusion.{Actor, interval, request}
use github_update_go_watcher.Service.Router.{Endpoint, HttpRequest, Mux, trigger, create_router}
use github_update_go_watcher.Trigger.{Served, serve_http}
use github_update_go_watcher.Watcher.Poll.{poll}
use github_update_go_watcher.Watcher.State.{World, Watcher}

-- A cycle that runs: who began it, and whether it is forced.
abbrev pub Cycle : Type 0
Cycle = Actor × Bool

pub record ServiceState (E : Type 0) : Type 0 where
  pub gate : CycleGate
  pub active : Option Cycle
  pub stopped : Bool
  pub world : World E

-- What happens: the loop selects a tick, a request arrives (with its number, and whether the runner
-- would take its cycle), the cycle that runs ends, or the loop selects the end of its context. A tick that waits while a cycle of the loop runs is one that is selected later.
pub data Signal : Type 0 where
  tick finish stop : Signal
  arrive : ℕ → Bool → HttpRequest → Signal

module _ {E : Type 0} (mux : Mux) (d : Watcher E) where
  -- `poll` of `pollLoop`: it backs off from a full gate.
  unfoldable pub begin_interval : Bool × CycleGate → ServiceState E → ServiceState E
  begin_interval (true, g) s = record s { gate = g; active = some (interval, false) }
  begin_interval (false, g) s = record s { gate = g }

  -- The loop selects a tick only between its own cycles, and none once it has returned.
  unfoldable pub select_tick : Option Cycle → Bool → ServiceState E → ServiceState E
  select_tick none false s = begin_interval (try_acquire s.gate) s
  select_tick none true s = s
  select_tick (some (interval, force)) stopped s = s
  select_tick (some (request n, force)) false s = begin_interval (try_acquire s.gate) s
  select_tick (some (request n, force)) true s = s

  unfoldable pub begin_forced : ℕ → Option Bool → Option Cycle → Option Cycle
  begin_forced n none active = active
  begin_forced n (some force) active = some (request n, force)

  unfoldable pub after_request : ℕ → Served → ServiceState E → ServiceState E
  after_request n served s = record s {
    gate = served.gate;
    active = begin_forced n served.started s.active;
  }

  -- The HTTP server of `createHTTPServer`: only the handler behind /trigger knows the gate.
  unfoldable pub route_request :
      ℕ → Bool → HttpRequest → Option Endpoint → ServiceState E → ServiceState E
  route_request n runs req (some trigger) s = after_request n (serve_http runs req.force s.gate) s
  route_request n runs req (some _) s = s
  route_request n runs req none s = s

  -- The deferred release stands behind the cycle, whatever the cycle returns.
  unfoldable pub end_cycle : Option Cycle → ServiceState E → ServiceState E
  end_cycle none s = s
  end_cycle (some (actor, force)) s = record s {
    gate = release s.gate;
    active = none;
    world = (poll d force s.world).1;
  }

  unfoldable pub step : Signal → ServiceState E → ServiceState E
  step tick s = select_tick s.active s.stopped s
  step finish s = end_cycle s.active s
  step stop s = record s { stopped = true }
  step (arrive n runs req) s = route_request n runs req (mux.select create_router req) s

  unfoldable pub drive : List Signal → ServiceState E → ServiceState E
  drive [] s = s
  drive (signal ∷ signals) s = drive signals (step signal s)

  -- The loop begins with a cycle, before the first tick.
  unfoldable pub launch : World E → ServiceState E
  launch w = step tick (record { gate = new_cycle_gate; active = none; stopped = false; world = w })
