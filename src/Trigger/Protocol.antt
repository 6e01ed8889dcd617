-- ===== src/Trigger/Protocol.antt =====
-- The trigger handler of pkg/handler/trigger_handler.go and the gate: what a request is answered, and
-- that it is a step of the system of interleaved cycles.
use github_update_go_watcher.Common.{
  ℕ, ◌≡◌, ◌⊎◌, refl, arith, Bool, true, false, Option, none, some, Text, List, ◌∷◌,
}
use github_update_go_watcher.CycleGate.{CycleGate, try_acquire, release}
use github_update_go_watcher.CycleGate.Exclusion.{
  Actor, request, System, Step, begin, back_off, not_started,
}
use github_update_go_watcher.Trigger.{Served, is_forced, serve_http, start_cycle, after_acquire}

-- A request that finds the gate full changes nothing; one that starts a cycle leaves the gate full;
-- and one whose cycle could not be started leaves the gate as it was, empty.
abbrev pub Answers : Bool → Text → CycleGate → Served → Type 0
Answers runs force_str gate served =
    ((gate.full ≡ true)
      × (served.response.code ≡ 409)
      × (served.started ≡ none)
      × (served.gate.full ≡ true))
    ⊎ ((gate.full ≡ false)
        × (runs ≡ true)
        × (served.response.code ≡ 202)
        × (served.started ≡ some (is_forced force_str))
        × (served.gate.full ≡ true))
    ⊎ ((gate.full ≡ false)
        × (runs ≡ false)
        × (served.response.code ≡ 500)
        × (served.started ≡ none)
        × (served.gate.full ≡ false))

-- A request is answered 409 exactly if a cycle runs, and then nothing changes; otherwise 202 if the
-- runner takes the cycle, which then holds the gate, and 500 if it does not, and the gate is free.
pub serve_http-Answers :
    (runs : Bool) (force_str : Text) (gate : CycleGate)
    → Answers runs force_str gate (serve_http runs force_str gate)
unfolding serve_http after_acquire start_cycle try_acquire release
serve_http-Answers runs force_str gate = ground arith

-- Whom a request adds to the running actors.
abbrev pub joins : Actor → Option Bool → List Actor → List Actor
joins a none running = running
joins a (some force) running = a ∷ running

-- The system after a request was served.
abbrev pub after : Actor → Served → System → System
after a served s = record { gate = served.gate; running = joins a served.started s.running }

after_acquire-Step :
    (n : ℕ) (force runs : Bool) (s : System) (tried : Bool × CycleGate)
    → try_acquire s.gate ≡ tried
    → Step s (after (request n) (after_acquire force runs tried) s)
unfolding after_acquire start_cycle
after_acquire-Step n force true s (true, g) e = begin (request n) g e
after_acquire-Step n force false s (true, g) e = not_started (request n) g e
after_acquire-Step n force runs s (false, g) e = back_off (request n) g e

-- Serving a request is a step of the system of interleaved cycles.
pub serve_http-Step :
    (n : ℕ) (runs : Bool) (force_str : Text) (s : System)
    → Step s (after (request n) (serve_http runs force_str s.gate) s)
unfolding serve_http
serve_http-Step n runs force_str s = after_acquire-Step n _ runs s _ refl
