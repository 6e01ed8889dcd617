-- ===== src/Examples/Routing.antt =====
-- A router, requests, and what they do to the sample service.
use github_update_go_watcher.Common.{
  ℕ, Bool, true, false, List, [], ◌∷◌, ◌++◌, Option, none, some, Text, bytes, ◌≡◌, ◌≢◌, ◌↔◌, All,
  Lacks, refl, ◌=?◌, ◌&&◌, arith, if◌then◌else◌,
}
use github_update_go_watcher.CycleGate.{new_cycle_gate}
use github_update_go_watcher.Examples.Samples.{sample, fresh_world}
use github_update_go_watcher.Service.Loop.{ServiceState, arrive, step}
use github_update_go_watcher.Service.Requests.{Begins, arrive-Begins}
use github_update_go_watcher.Service.Router.{
  Endpoint, HttpRequest, IsLiteral, IsMux, Mux, Route, Untaken, create_router, trigger,
}
use github_update_go_watcher.Service.Routes.{select-Serves}

-- A template takes a path byte by byte, up to its first variable, which takes the rest.
abbrev takes : Text → Text → Bool
takes [] [] = true
takes [] (b ∷ path) = false
takes (t ∷ template) [] = t =? b'{'
takes (t ∷ template) (b ∷ path) =
    let later = takes template path in if t =? b'{' then true else (t =? b) && later

abbrev select_first : List Route → HttpRequest → Option Endpoint
select_first [] req = none
select_first (route ∷ routes) req =
    let later = select_first routes req in if takes route.0 req.path then some route.1 else later

abbrev pub sample_mux : Mux
sample_mux = record { matches = takes; select = select_first }

first_lem :
    (before after : List Route) (route : Route) (req : HttpRequest)
    → All (Untaken sample_mux req) before
    → takes route.0 req.path ≡ true
    → select_first (before ++ (route ∷ after)) req ≡ some route.1
first_lem [] after route req h taken = rw (taken) refl
first_lem (r ∷ before) after route req h taken =
    rw (h.0) (first_lem before after route req h.1 taken)

exhausted_lem :
    (routes : List Route) (req : HttpRequest)
    → All (Untaken sample_mux req) routes
    → select_first routes req ≡ none
exhausted_lem [] req h = refl
exhausted_lem (route ∷ routes) req h = rw (h.0) (exhausted_lem routes req h.1)

takes_iff :
    (template path : Text) → Lacks b'{' template → (takes template path ≡ true) ↔ (path ≡ template)
takes_iff [] [] h = ground arith
takes_iff [] (b ∷ path) h = ground arith
takes_iff (t ∷ template) [] h = let k = h.0 in ground arith
takes_iff (t ∷ template) (b ∷ path) h =
    let k = h.0 in let later = takes_iff template path h.1 in ground arith

unbraced : (s : Text) → All (λ c. (c ≢ b'{') × (c ≢ b'.')) s → Lacks b'{' s
unbraced [] h = tt
unbraced (c ∷ s) (h, hs) = (h.0, unbraced s hs)

literal_lem :
    (template path : Text) → IsLiteral template → (takes template path ≡ true) ↔ (path ≡ template)
literal_lem [] path h = elim h [ ]
literal_lem (b ∷ s) path (slash, rest, _) =
    takes_iff (b ∷ s) path (λ e. ground (arith, slash, e), unbraced s rest)

variable_lem :
    (lead rest path : Text)
    → Lacks b'{' lead
    → takes (lead ++ (b'{' ∷ rest)) path ≡ true
    → (tail : Text) × (path ≡ lead ++ tail)
variable_lem [] rest path h taken = (path, refl)
variable_lem (t ∷ lead) rest [] h taken = let k = h.0 in ground arith
variable_lem (t ∷ lead) rest (b ∷ path) h taken =
    let k = h.0 in
    let (tail, e) = variable_lem lead rest path h.1 (ground arith) in (tail, ground arith)

sample-IsMux : IsMux sample_mux
sample-IsMux = record {
  first = first_lem;
  exhausted = exhausted_lem;
  literal = literal_lem;
  variable = variable_lem;
}

abbrev pub forced_trigger : HttpRequest
forced_trigger = record { method = bytes "POST"; path = bytes "/trigger"; force = bytes "true" }

abbrev pub plain_trigger : HttpRequest
plain_trigger = record { method = bytes "GET"; path = bytes "/trigger"; force = [] }

select-Serves_example :
    (sample_mux.select create_router plain_trigger ≡ some trigger)
    ↔ (plain_trigger.path ≡ bytes "/trigger")
select-Serves_example = select-Serves sample_mux sample-IsMux plain_trigger trigger

abbrev idle : ServiceState ℕ
idle = record { gate = new_cycle_gate; active = none; stopped = false; world = fresh_world }

arrive-Begins_example :
    Begins sample_mux sample-IsMux sample 1 true plain_trigger idle
      (step sample_mux sample (arrive 1 true plain_trigger) idle)
arrive-Begins_example = arrive-Begins sample_mux sample-IsMux sample 1 true plain_trigger idle
