-- ===== src/Service/Routes.antt =====
-- Which requests the routes of pkg/factory/factory.go take to which handler, and which of them reach
-- the cycles.
use github_update_go_watcher.Common.{
  ℕ, true, false, List, [], ◌∷◌, ◌++◌, Option, none, some, Text, bytes, ◌≡◌, ◌↔◌, ◌⊎◌, All,
  All-append, refl, sym, ◌∙◌, inl, inr, arith, append-nil, append_assoc, Bool-cases, text_beq,
  text_beq_iff, strip_prefix, take, if◌then◌else◌, ap,
}
use github_update_go_watcher.Service.Router.{
  Endpoint, HttpRequest, IsLiteral, IsMux, Mux, Route, Untaken, create_router, print_ok, prometheus,
  trigger, set_loglevel, garbage_collector, test_loglevel, sentry_alert,
}

module _ (mux : Mux) (is_mux : IsMux mux) (req : HttpRequest) where
  -- The first route that takes the path.
  abbrev first_of : List Route → Option Endpoint
  first_of [] = none
  first_of (route ∷ routes) =
      let later = first_of routes in if mux.matches route.0 req.path then some route.1 else later

  select_from :
      (before routes : List Route)
      → All (Untaken mux req) before
      → mux.select (before ++ routes) req ≡ first_of routes
  select_from before [] h =
      ap (λ l. mux.select l req) (append-nil before) ∙ is_mux.exhausted before req h
  select_from before (route ∷ routes) h = elim (Bool-cases (mux.matches route.0 req.path)) [
    | inl taken ↦ is_mux.first before routes route req h taken ∙ (rw (taken) refl)
    | inr untaken ↦
        ap (λ l. mux.select l req) (sym (append_assoc before (route ∷ []) routes))
        ∙ select_from (before ++ (route ∷ [])) routes
            (All-append _ before (route ∷ []) h (untaken, tt))
        ∙ (rw (untaken) refl)
  ]

  -- Some route to the handler takes the path.
  abbrev Takes : Endpoint → List Route → Type 0
  Takes e [] = ⊥
  Takes e (route ∷ routes) =
      ((route.1 ≡ e) × (mux.matches route.0 req.path ≡ true)) ⊎ Takes e routes

  first_of-Takes : (e : Endpoint) (routes : List Route) → first_of routes ≡ some e → Takes e routes
  first_of-Takes e [] h = cc
  first_of-Takes e (route ∷ routes) h = elim (Bool-cases (mux.matches route.0 req.path)) [
    | inl taken ↦ inl (ground arith, taken)
    | inr untaken ↦ inr (first_of-Takes e routes (ground arith))
  ]

  -- A template that is not the path does not take it.
  untaken_literal :
      (template path : Text)
      → IsLiteral template
      → req.path ≡ path
      → text_beq path template ≡ false
      → mux.matches template req.path ≡ false
  untaken_literal template path literal e differ =
      elim (Bool-cases (mux.matches template req.path)) [
        | inr untaken ↦ untaken
        | inl taken ↦
            let same : path ≡ template =
              sym e ∙ (is_mux.literal template req.path literal).0 taken in
            let equal = (text_beq_iff path template).1 same in cc
      ]

  strip_prefix-append : (p s : Text) → strip_prefix p (p ++ s) ≡ some s
  strip_prefix-append [] s = refl
  strip_prefix-append (b ∷ p) s = ground (arith, strip_prefix-append p s)

  -- The paths that a handler serves.
  abbrev pub Serves : Endpoint → Type 0
  Serves print_ok = (req.path ≡ bytes "/healthz") ⊎ (req.path ≡ bytes "/readiness")
  Serves prometheus = req.path ≡ bytes "/metrics"
  Serves trigger = req.path ≡ bytes "/trigger"
  Serves set_loglevel = mux.matches (bytes "/setloglevel/{level}") req.path ≡ true
  Serves garbage_collector = req.path ≡ bytes "/gc"
  Serves test_loglevel = req.path ≡ bytes "/testloglevel"
  Serves sentry_alert = req.path ≡ bytes "/sentryalert"

  Takes-Serves : (e : Endpoint) → Takes e create_router → Serves e
  unfolding create_router
  Takes-Serves print_ok h =
      let a = (is_mux.literal (bytes "/healthz") req.path (ground arith)).0 in
      let b = (is_mux.literal (bytes "/readiness") req.path (ground arith)).0 in ground arith
  Takes-Serves prometheus h =
      let a = (is_mux.literal (bytes "/metrics") req.path (ground arith)).0 in ground arith
  Takes-Serves trigger h =
      let a = (is_mux.literal (bytes "/trigger") req.path (ground arith)).0 in ground arith
  Takes-Serves set_loglevel h = ground arith
  Takes-Serves garbage_collector h =
      let a = (is_mux.literal (bytes "/gc") req.path (ground arith)).0 in ground arith
  Takes-Serves test_loglevel h =
      let a = (is_mux.literal (bytes "/testloglevel") req.path (ground arith)).0 in ground arith
  Takes-Serves sentry_alert h =
      let a = (is_mux.literal (bytes "/sentryalert") req.path (ground arith)).0 in ground arith

  -- A literal route to another path.
  abbrev Elsewhere : Text → Route → Type 0
  Elsewhere path route = IsLiteral route.0 × (text_beq path route.0 ≡ false)

  Untaken-Elsewhere :
      (path : Text) (routes : List Route)
      → All (Elsewhere path) routes
      → req.path ≡ path
      → All (Untaken mux req) routes
  Untaken-Elsewhere path [] h e = tt
  Untaken-Elsewhere path (route ∷ routes) h e =
      (untaken_literal route.0 path h.0.0 e h.0.1, Untaken-Elsewhere path routes h.1 e)

  abbrev lead : Text
  lead = bytes "/setloglevel/"

  abbrev level_route : Route
  level_route = (bytes "/setloglevel/{level}", set_loglevel)

  Untaken-variable :
      (path : Text) → req.path ≡ path → strip_prefix lead path ≡ none → Untaken mux req level_route
  Untaken-variable path e outside = elim (Bool-cases (mux.matches level_route.0 req.path)) [
    | inr untaken ↦ untaken
    | inl taken ↦
        let (tail, led) = is_mux.variable lead (bytes "level}") req.path (ground arith) taken in
        let same : path ≡ lead ++ tail = sym e ∙ led in
        let k : strip_prefix lead path ≡ some tail =
          ap (strip_prefix lead) same ∙ strip_prefix-append lead tail in
        cc
  ]

  untaken_beside :
      (template : Text)
      → IsLiteral template
      → strip_prefix lead template ≡ none
      → mux.matches level_route.0 req.path ≡ true
      → mux.matches template req.path ≡ false
  untaken_beside template literal outside taken =
      elim (Bool-cases (mux.matches template req.path)) [
        | inr untaken ↦ untaken
        | inl same ↦
            let e = (is_mux.literal template req.path literal).0 same in
            let k = Untaken-variable template e outside in cc
      ]

  -- The routes in front of the one with a variable, and those behind it.
  abbrev plain : List Route
  plain =
      (bytes "/healthz", print_ok)
      ∷ (bytes "/readiness", print_ok)
      ∷ (bytes "/metrics", prometheus)
      ∷ (bytes "/trigger", trigger)
      ∷ []

  abbrev later : List Route
  later =
      (bytes "/gc", garbage_collector)
      ∷ (bytes "/testloglevel", test_loglevel)
      ∷ (bytes "/sentryalert", sentry_alert)
      ∷ []

  behind :
      (path : Text) (n : ℕ)
      → req.path ≡ path
      → strip_prefix lead path ≡ none
      → All (Elsewhere path) plain
      → All (Elsewhere path) (take n later)
      → All (Untaken mux req) (plain ++ (level_route ∷ take n later))
  behind path n e outside h k =
      All-append _ plain (level_route ∷ take n later) (Untaken-Elsewhere path plain h e)
        (Untaken-variable path e outside, Untaken-Elsewhere path (take n later) k e)

  -- A literal route takes its path.
  taken_literal :
      (template : Text)
      → IsLiteral template
      → req.path ≡ template
      → mux.matches template req.path ≡ true
  taken_literal template literal e = (is_mux.literal template req.path literal).1 e

  -- Literal routes outside of what the variable ranges over.
  beside :
      (routes : List Route)
      → All (λ route. IsLiteral route.0 × (strip_prefix lead route.0 ≡ none)) routes
      → mux.matches level_route.0 req.path ≡ true
      → All (Untaken mux req) routes
  beside [] h taken = tt
  beside (route ∷ routes) h taken =
      (untaken_beside route.0 h.0.0 h.0.1 taken, beside routes h.1 taken)

  Serves-Selects : (e : Endpoint) → Serves e → mux.select create_router req ≡ some e
  unfolding create_router text_beq
  Serves-Selects print_ok (inl e) =
      is_mux.first [] _ (bytes "/healthz", print_ok) req tt (taken_literal _ (ground arith) e)
  Serves-Selects print_ok (inr e) =
      is_mux.first (take 1 plain) _ (bytes "/readiness", print_ok) req
        (Untaken-Elsewhere _ (take 1 plain) (ground arith) e) (taken_literal _ (ground arith) e)
  Serves-Selects prometheus e =
      is_mux.first (take 2 plain) _ (bytes "/metrics", prometheus) req
        (Untaken-Elsewhere _ (take 2 plain) (ground arith) e) (taken_literal _ (ground arith) e)
  Serves-Selects trigger e =
      is_mux.first (take 3 plain) _ (bytes "/trigger", trigger) req
        (Untaken-Elsewhere _ (take 3 plain) (ground arith) e) (taken_literal _ (ground arith) e)
  Serves-Selects set_loglevel taken =
      is_mux.first plain _ level_route req (beside plain (ground arith) taken) taken
  Serves-Selects garbage_collector e =
      is_mux.first (plain ++ (level_route ∷ [])) _ (bytes "/gc", garbage_collector) req
        (behind _ 0 e refl (ground arith) tt) (taken_literal _ (ground arith) e)
  Serves-Selects test_loglevel e =
      is_mux.first (plain ++ (level_route ∷ take 1 later)) _ (bytes "/testloglevel", test_loglevel)
        req (behind _ 1 e refl (ground arith) (ground arith)) (taken_literal _ (ground arith) e)
  Serves-Selects sentry_alert e =
      is_mux.first (plain ++ (level_route ∷ take 2 later)) _ (bytes "/sentryalert", sentry_alert)
        req (behind _ 2 e refl (ground arith) (ground arith)) (taken_literal _ (ground arith) e)

  -- Whatever its method, a request gets the handler that serves its path: the two probes at /healthz
  -- and /readiness, the trigger handler at /trigger, and so on; and no path is served by two.
  pub select-Serves : (e : Endpoint) → (mux.select create_router req ≡ some e) ↔ Serves e
  select-Serves e = (
    λ h.
        Takes-Serves e (first_of-Takes e create_router (sym (select_from [] create_router tt) ∙ h)),
    Serves-Selects e,
  )
