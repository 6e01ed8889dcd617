-- ===== src/Service/Lifetime.antt =====
-- What the service of main.go does over its whole life: any sequence of ticks, HTTP requests and ends
-- of cycles.
use mathlib.Core.Path.{subst}
use github_update_go_watcher.Common.{
  Text, ℕ, Bool, true, false, List, [], ◌∷◌, Option, none, some, ◌≡◌, sym, All, length,
}
use github_update_go_watcher.Cursor.{Cursor}
use github_update_go_watcher.Cursor.Durable.{Disk}
use github_update_go_watcher.CycleGate.{CycleGate, new_cycle_gate}
use github_update_go_watcher.CycleGate.Exclusion.{interval, request}
use github_update_go_watcher.GitHub.Owned.{IsOwned}
use github_update_go_watcher.Metrics.{published_total}
use github_update_go_watcher.Metrics.Totals.{all_operations, poll-total_published, total}
use github_update_go_watcher.Service.Loop.{
  Cycle, ServiceState, Signal, tick, finish, stop, arrive, after_request, begin_interval, drive,
  end_cycle, launch, route_request, select_tick, step,
}
use github_update_go_watcher.Service.Router.{
  Endpoint, HttpRequest, Mux, print_ok, prometheus, trigger, set_loglevel, garbage_collector,
  test_loglevel, sentry_alert,
}
use github_update_go_watcher.Service.Scope.{SentOwn, allowlist, run-KeepsOwn}
use github_update_go_watcher.Service.Startup.{Application, Environment, Running, run, running}
use github_update_go_watcher.Watcher.Authority.{Authorised}
use github_update_go_watcher.Watcher.Commands.{commands}
use github_update_go_watcher.Watcher.Poll.{poll}
use github_update_go_watcher.Watcher.Separate.{IsSeparate, stored}
use github_update_go_watcher.Watcher.Stored.{IsReadable, poll-IsReadable}
use github_update_go_watcher.Watcher.State.{World, Watcher}

-- What a cycle keeps of the world, the service keeps.
module _ {E : Type 0} (mux : Mux) (d : Watcher E) (Q : World E → Type 0)
    (keeps : (force : Bool) (w : World E) → Q w → Q (poll d force w).1) where
  begin_interval-keeps :
      (tried : Bool × CycleGate) (s : ServiceState E)
      → Q s.world
      → Q (begin_interval mux d tried s).world
  unfolding begin_interval
  begin_interval-keeps (true, g) s h = h
  begin_interval-keeps (false, g) s h = h

  select_tick-keeps :
      (active : Option Cycle) (stopped : Bool) (s : ServiceState E)
      → Q s.world
      → Q (select_tick mux d active stopped s).world
  unfolding select_tick
  select_tick-keeps none false s h = begin_interval-keeps _ s h
  select_tick-keeps none true s h = h
  select_tick-keeps (some (interval, force)) stopped s h = h
  select_tick-keeps (some (request n, force)) false s h = begin_interval-keeps _ s h
  select_tick-keeps (some (request n, force)) true s h = h

  end_cycle-keeps :
      (active : Option Cycle) (s : ServiceState E) → Q s.world → Q (end_cycle mux d active s).world
  unfolding end_cycle
  end_cycle-keeps none s h = h
  end_cycle-keeps (some (actor, force)) s h = keeps force s.world h

  route_request-keeps :
      (n : ℕ) (runs : Bool) (req : HttpRequest) (selected : Option Endpoint) (s : ServiceState E)
      → Q s.world
      → Q (route_request mux d n runs req selected s).world
  unfolding route_request after_request
  route_request-keeps n runs req none s h = h
  route_request-keeps n runs req (some trigger) s h = h
  route_request-keeps n runs req (some print_ok) s h = h
  route_request-keeps n runs req (some prometheus) s h = h
  route_request-keeps n runs req (some set_loglevel) s h = h
  route_request-keeps n runs req (some garbage_collector) s h = h
  route_request-keeps n runs req (some test_loglevel) s h = h
  route_request-keeps n runs req (some sentry_alert) s h = h

  step-keeps : (signal : Signal) (s : ServiceState E) → Q s.world → Q (step mux d signal s).world
  unfolding step
  step-keeps tick s h = select_tick-keeps s.active s.stopped s h
  step-keeps finish s h = end_cycle-keeps s.active s h
  step-keeps stop s h = h
  step-keeps (arrive n runs req) s h = route_request-keeps n runs req _ s h

  drive-keeps_from :
      (signals : List Signal) (s : ServiceState E) → Q s.world → Q (drive mux d signals s).world
  unfolding drive
  drive-keeps_from [] s h = h
  drive-keeps_from (signal ∷ signals) s h = drive-keeps_from signals _ (step-keeps signal s h)

  pub drive-keeps :
      (signals : List Signal) (w : World E) → Q w → Q (drive mux d signals (launch mux d w)).world
  unfolding launch
  drive-keeps signals w h = drive-keeps_from signals _ (
      step-keeps tick (record { gate = new_cycle_gate; active = none; stopped = false; world = w })
        h)

-- Whatever ticks and requests the service sees, the publish counter, summed over its labels, is the
-- number of create commands that it has ever sent.
pub drive-total_published :
    {E : Type 0} (mux : Mux) (d : Watcher E) (signals : List Signal) (w : World E)
    → total published_total (all_operations w.events) ≡ length (commands w.events)
    → total published_total (all_operations (drive mux d signals (launch mux d w)).world.events)
      ≡ length (commands (drive mux d signals (launch mux d w)).world.events)
drive-total_published mux d =
    drive-keeps mux d
      (λ w. total published_total (all_operations w.events) ≡ length (commands w.events))
      (poll-total_published d)

-- On a disk whose operations change no other file and whose rename is all or nothing, with a file of
-- the cursor that no collaborator touches and a codec that reads what it writes: whatever ticks and
-- requests the service sees and whichever saves fail, the file is missing or holds a cursor, if this
-- was so at the start.
pub drive-IsReadable :
    {E : Type 0} (mux : Mux) (d : Watcher E) (disk : Disk E d.files) (separate : IsSeparate d disk)
    → ((c : Cursor) (t : Text) → d.codec.marshal c ≡ some t → IsReadable d disk separate (some t))
    → (signals : List Signal) (w : World E) → IsReadable d disk separate (stored d disk w.env)
    → IsReadable d disk separate (stored d disk (drive mux d signals (launch mux d w)).world.env)
drive-IsReadable mux d disk separate reads =
    drive-keeps mux d (λ w. IsReadable d disk separate (stored d disk w.env))
      (poll-IsReadable d disk separate reads)

module _ {E Client Producer Sender : Type 0} (env : Environment E Client Producer Sender)
    (a : Application) (mux : Mux) (r : Running E) where
  -- Whatever ticks and requests a started service sees, every command that it has ever sent is built
  -- from what was read of one repository of the configured owner, in the scope of the configured
  -- allowlist: GitHub answered its HEAD, then a go.mod whose directive is behind a release that go.dev
  -- answered, then the verdict of its configuration. It is an update task, and the verdict is granted,
  -- or a decision task, and the verdict is neither granted nor refused.
  pub drive-SentOwn :
      run env a ≡ running r
      → (signals : List Signal) (w : World E) → commands w.events ≡ []
      → SentOwn env a r (drive mux r.watcher signals (launch mux r.watcher w)).world
  drive-SentOwn started signals w none_sent =
      drive-keeps mux r.watcher (SentOwn env a r) (run-KeepsOwn env a r started) signals w (
        subst (All (Authorised r.watcher env.is_allowed (allowlist env a) (IsOwned a.owner)))
          (sym none_sent) tt)
