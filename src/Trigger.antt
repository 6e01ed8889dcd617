-- ===== src/Trigger.antt =====
-- pkg/handler/trigger_handler.go: a request for a forced cycle. Whether the background runner takes
-- the cycle is an argument; the cycle that it runs releases the gate at its end.
pub mod Protocol
use github_update_go_watcher.Common.{
  ℕ, Bool, true, false, not, ◌||◌, Option, none, some, Text, bytes, ◌==◌, if◌then◌else◌,
}
use github_update_go_watcher.CycleGate.{CycleGate, try_acquire, release}

-- What is written to the client: the status code and the two fields of the JSON body.
pub record Response : Type 0 where
  pub code : ℕ
  pub status : Text
  pub error : Option Text

-- The response, the gate when the handler returns, and the cycle that was started, by its force.
pub record Served : Type 0 where
  pub response : Response
  pub gate : CycleGate
  pub started : Option Bool

abbrev pub conflict : Response
conflict = record {
  code = 409;
  status = bytes "conflict";
  error = some (bytes "a poll cycle is already running");
}

abbrev pub start_error : Response
start_error = record {
  code = 500;
  status = bytes "error";
  error = some (bytes "failed to start poll cycle");
}

abbrev pub accepted : Response
accepted = record { code = 202; status = bytes "accepted"; error = none }

-- The query parameter `force`, empty if it is missing.
unfoldable pub is_forced : Text → Bool
is_forced force_str = (force_str == bytes "true") || (force_str == bytes "1")

-- The rest of `ServeHTTP` once the gate is held.
unfoldable pub start_cycle : Bool → Bool → CycleGate → Served
start_cycle force true gate = record { response = accepted; gate = gate; started = some force }
start_cycle force false gate = record {
  response = start_error;
  gate = release gate;
  started = none;
}

unfoldable pub after_acquire : Bool → Bool → Bool × CycleGate → Served
after_acquire force runs (true, gate) = start_cycle force runs gate
after_acquire force runs (false, gate) = record { response = conflict; gate = gate; started = none }

-- `ServeHTTP`
unfoldable pub serve_http : Bool → Text → CycleGate → Served
serve_http runs force_str gate = after_acquire (is_forced force_str) runs (try_acquire gate)
