-- ===== src/Service/Router.antt =====
-- `CreateRouter` of pkg/factory/factory.go. How gorilla/mux takes a request to a route is a parameter,
-- with its documented behaviour; the handlers of other packages are named, and touch no cycle.
use github_update_go_watcher.Common.{
  Bool, true, false, List, [], ◌∷◌, ◌++◌, Option, none, some, Text, bytes, ◌≡◌, ◌≢◌, ◌⊎◌, ◌↔◌, All,
  Lacks, ℕ,
}

-- The handlers of the table: `NewPrintHandler("OK")`, `promhttp.Handler()`, the trigger handler,
-- `NewSetLoglevelHandler`, `NewGarbageCollectorHandler`, and the two of pkg/handler.
pub data Endpoint : Type 0 where
  print_ok prometheus trigger set_loglevel garbage_collector test_loglevel sentry_alert : Endpoint

-- A template of a path, and the handler behind it.
abbrev pub Route : Type 0
Route = Text × Endpoint

-- What routes and handlers read of a request: `force` is its query parameter, empty if missing.
pub record HttpRequest : Type 0 where
  pub method : Text
  pub path : Text
  pub force : Text

unfoldable pub create_router : List Route
create_router =
    (bytes "/healthz", print_ok)
    ∷ (bytes "/readiness", print_ok)
    ∷ (bytes "/metrics", prometheus)
    ∷ (bytes "/trigger", trigger)
    ∷ (bytes "/setloglevel/{level}", set_loglevel)
    ∷ (bytes "/gc", garbage_collector)
    ∷ (bytes "/testloglevel", test_loglevel)
    ∷ (bytes "/sentryalert", sentry_alert)
    ∷ []

-- gorilla/mux: whether a template takes a path, and the handler that a request gets, none if the
-- router answers it itself, as it does with a path that is not clean (`//gc`, `/./gc`), which no template
-- takes and which it redirects.
pub record Mux : Type 0 where
  pub matches : Text → Text → Bool
  pub select : List Route → HttpRequest → Option Endpoint

abbrev pub Untaken : Mux → HttpRequest → Route → Type 0
Untaken mux req route = mux.matches route.0 req.path ≡ false

-- No slash stands directly behind another; the byte is the one in front of the text.
abbrev pub Separated : ℕ → Text → Type 0
Separated b [] = Unit
Separated b (c ∷ s) = ((b ≢ b'/') ⊎ (c ≢ b'/')) × Separated c s

-- A template without variables that cleaning a path leaves as it is: it begins with a slash, and has no
-- dot and no doubled slash.
abbrev pub IsLiteral : Text → Type 0
IsLiteral [] = ⊥
IsLiteral (b ∷ s) = (b ≡ b'/') × All (λ c. (c ≢ b'{') × (c ≢ b'.')) s × Separated b s

-- Routes are tried in the order in which they were added, the first that takes the path wins, and a
-- route without `Methods` takes each method. A template without variables takes its own path only;
-- one with a variable takes only paths that begin as it does in front of its first variable.
pub record IsMux (mux : Mux) : Type 0 where
  pub first :
      (before after : List Route) (route : Route) (req : HttpRequest)
      → All (Untaken mux req) before
      → mux.matches route.0 req.path ≡ true
      → mux.select (before ++ (route ∷ after)) req ≡ some route.1
  pub exhausted :
      (routes : List Route) (req : HttpRequest)
      → All (Untaken mux req) routes
      → mux.select routes req ≡ none
  pub literal :
      (template path : Text)
      → IsLiteral template
      → (mux.matches template path ≡ true) ↔ (path ≡ template)
  pub variable :
      (lead rest path : Text)
      → Lacks b'{' lead
      → mux.matches (lead ++ (b'{' ∷ rest)) path ≡ true
      → (tail : Text) × (path ≡ lead ++ tail)
