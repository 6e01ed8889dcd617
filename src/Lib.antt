-- ===== src/Lib.antt =====
-- github-update-go-watcher: a service that scans the repositories of a GitHub App installation,
-- finds those whose go.mod names an older Go than the current stable release, and files one update
-- task for each whose owner has agreed.
--
-- The parts and how they interact. A cycle (`Poll` of pkg/watcher.go) loads the cursor
-- (pkg/cursor.go), asks go.dev for the stable release (pkg/godevclient.go) and GitHub for the
-- repositories (pkg/githubclient.go). A first pass observes each repository (its HEAD, its go.mod
-- by pkg/gomod.go and pkg/version.go, its .maintainer.yaml by pkg/filter/consent.go), asks two
-- gates (an open pull request, a live emission claim in the cursor) and the filter chain
-- (pkg/filter), and publishes a task (pkg/taskbuilder.go, pkg/taskid.go, pkg/taskpublisher.go) that
-- it marks in the cursor. A second pass completes the tasks whose pull requests were merged. Cycles
-- come from the poll loop of main.go and from the trigger endpoint
-- (pkg/handler/trigger_handler.go); the gate of pkg/cyclegate.go keeps them apart.
--
-- The files, with the code they model:
--   Common      shared names; Common/Texts strings as byte lists, Common/Tests Go's tests, results,
--               Common/Int signed differences
--   Strings     Go's strings: white space, fields, separators; Unicode its UTF-8
--   Version     pkg/version.go; Version/Decimal strconv, Version/Pattern the regular expressions
--   Repo        pkg/repo.go
--   Candidate   pkg/candidate.go
--   Filter      pkg/filter, CreateStaticFilters of pkg/factory/factory.go; Filter/Maintainer consent.go,
--               Filter/Allowlist ParseRepoAllowlist; Filter/Chain proves
--   Task        pkg/taskbuilder.go, pkg/taskid.go
--   Cursor      Cursor, RepoState, the reader and clearInFlight; Cursor/Store LoadCursor, SaveCursor;
--               Cursor/Laws and Cursor/Durable prove
--   GoMod       pkg/gomod.go; Words, Lines and Directive prove
--   GitHub      the interface of pkg/githubclient.go; GitHub/Api the calls of go-github, GitHub/Client
--               the client; Owned, Listing, Paging, PullRequests, Contents and Faults prove
--   GoDev       pkg/godevclient.go
--   CycleGate   pkg/cyclegate.go; CycleGate/Exclusion its use by main.go and the trigger handler
--   Trigger     pkg/handler/trigger_handler.go; Trigger/Protocol proves
--   Auth        pkg/auth/auth.go
--   Transport   pkg/non2xx_log.go; Transport/Replay and Transport/OneLine prove
--   Clamp       pkg/mathutil/clamp.go
--   Watcher     pkg/watcher.go: State the collaborators and the state of a cycle, Observe
--               gatherCandidate, Gate openUpdatePRGate, gateRepo, suppressInFlight, Publish the task
--               publisher and markPublished, Process processRepos, Complete completeMergedUpdates, Poll
--               the cycle. The other modules under Watcher prove.
--   Metrics     pkg/metrics.go; Metrics/Series and Metrics/Totals prove
--   Service     Service/Wiring CreateWatcher with the constructors and the senders, and Service/Router
--               CreateRouter, of pkg/factory/factory.go; Service/Startup Run of main.go, Service/Loop
--               pollLoop with the HTTP server; Scope, Held, Progress, Interleaving, Routes, Requests,
--               Lifetime and Delivered prove
--   Examples    concrete runs
--
-- How the code is read. A string is the list of its bytes. A metric label is a constructor, and the
-- empty label is `none`. An error keeps only what the program tells apart: whether it is the
-- rate-limit sentinel; its text reaches log lines alone. A collaborator is a function that reads an
-- environment of any type and leaves it changed, so it may answer differently at each call. The
-- state of a cycle is that environment, the cursor, which the source shares by pointer, and the
-- events (metrics and commands), newest first. Times are nanoseconds. The fields of a version are
-- natural numbers that fit in a 64-bit `int` once parsed, and `compare` gives an integer. Every
-- loop of the modelled code runs over a list, or over the pages that a listing still allows (at
-- most a hundred), so no fuel is needed.
--
-- The service is a run of signals: the poll loop selects a tick or its end, an HTTP request arrives,
-- the cycle that runs ends. A cycle works at its end, since the gate keeps every other one out meanwhile.
--
-- Parameters: go-github, HTTP exchanges, the JSON codec, YAML, UUID version 5, the file system, the
-- clock and RFC 3339 times, durations, the allowlist matcher and its validation, the Prometheus
-- client, the Kafka producer and the typed senders over it, and how gorilla/mux takes a request to a
-- route.
--
-- A disk, in the theorems on a stored cursor, is a file system whose writes and renames may fail, and
-- whose reads of a file that exists do not.
--
-- Not modelled: log lines but that of pkg/non2xx_log.go, and error texts; Sentry, argument parsing,
-- the build information, the HTTP exchange and what the diagnostic handlers do, generated mocks,
-- the JSON layout of the cursor file.
pub mod Common
pub mod Version
pub mod Repo
pub mod Filter
pub mod Candidate
pub mod Task
pub mod Cursor
pub mod Strings
pub mod Unicode
pub mod GoMod
pub mod GitHub
pub mod GoDev
pub mod CycleGate
pub mod Trigger
pub mod Clamp
pub mod Auth
pub mod Transport
pub mod Watcher
pub mod Metrics
pub mod Service
mod Examples
