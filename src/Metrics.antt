-- ===== src/Metrics.antt =====
-- pkg/metrics.go: the counters, as the calls that are made of the Prometheus client. A counter with no
-- label has the empty list of labels.
pub mod Series
pub mod Totals
use github_update_go_watcher.Common.{ℕ, List, [], ◌∷◌, ◌++◌, Text, bytes}
use github_update_go_watcher.Filter.{
  SkipReason, scope, no_gomod, gomod_unparsable, go_current, auto_update_disabled,
  auto_update_undecided, sha_unchanged, open_update_pr, emission_in_flight,
}
use github_update_go_watcher.Watcher.State.{
  PollResult, success, rate_limited, github_error, go_version_error, PublishStatus, create,
  CompleteStatus, complete, Event, poll_cycle, published, completed, repos_scanned, filter_skipped,
  command_sent, completion_sent,
}

-- A registration of a counter with its label names, and an addition to one of its series.
pub data Operation : Type 0 where
  register : Text → List Text → Operation
  add : Text → List Text → ℕ → Operation

-- The namespace and the names of the counters.
abbrev pub metric_namespace : Text
metric_namespace = bytes "github_update_go_watcher"

abbrev full_name : Text → Text
full_name name = metric_namespace ++ (bytes "_" ++ name)

abbrev pub poll_cycle_total : Text
poll_cycle_total = full_name (bytes "poll_cycle_total")

abbrev pub published_total : Text
published_total = full_name (bytes "published_total")

abbrev pub completed_total : Text
completed_total = full_name (bytes "completed_total")

abbrev pub repos_scanned_total : Text
repos_scanned_total = full_name (bytes "repos_scanned_total")

abbrev pub filter_skipped_total : Text
filter_skipped_total = full_name (bytes "filter_skipped_total")

-- The closed label sets.
abbrev pub poll_cycle_results : List Text
poll_cycle_results =
    bytes "success" ∷ bytes "rate_limited" ∷ bytes "github_error" ∷ bytes "go_version_error" ∷ []

abbrev pub publish_statuses : List Text
publish_statuses = bytes "create" ∷ bytes "error" ∷ []

abbrev pub complete_statuses : List Text
complete_statuses = bytes "complete" ∷ bytes "error" ∷ []

abbrev pub filter_skip_reasons : List Text
filter_skip_reasons =
    bytes "scope"
    ∷ bytes "no_gomod"
    ∷ bytes "gomod_unparsable"
    ∷ bytes "go_current"
    ∷ bytes "auto_update_disabled"
    ∷ bytes "auto_update_undecided"
    ∷ bytes "sha_unchanged"
    ∷ bytes "open_update_pr"
    ∷ bytes "emission_in_flight"
    ∷ []

-- A loop that sets the series of each label to 0.
unfoldable pub initialise : Text → List Text → List Operation
initialise name [] = []
initialise name (label ∷ labels) = add name (label ∷ []) 0 ∷ initialise name labels

unfoldable pub new_metrics : List Operation
new_metrics =
    register poll_cycle_total (bytes "result" ∷ [])
    ∷ register published_total (bytes "status" ∷ [])
    ∷ register completed_total (bytes "status" ∷ [])
    ∷ register repos_scanned_total []
    ∷ register filter_skipped_total (bytes "reason" ∷ [])
    ∷ (initialise poll_cycle_total poll_cycle_results
        ++ (initialise published_total publish_statuses
            ++ (initialise completed_total complete_statuses
                ++ initialise filter_skipped_total filter_skip_reasons)))

-- The labels that pkg/watcher.go, pkg/taskpublisher.go and pkg/filter pass.
unfoldable pub poll_label : PollResult → Text
poll_label success = bytes "success"
poll_label rate_limited = bytes "rate_limited"
poll_label github_error = bytes "github_error"
poll_label go_version_error = bytes "go_version_error"

unfoldable pub publish_label : PublishStatus → Text
publish_label create = bytes "create"
publish_label PublishStatus.error = bytes "error"

unfoldable pub complete_label : CompleteStatus → Text
complete_label complete = bytes "complete"
complete_label CompleteStatus.error = bytes "error"

unfoldable pub skip_label : SkipReason → Text
skip_label scope = bytes "scope"
skip_label no_gomod = bytes "no_gomod"
skip_label gomod_unparsable = bytes "gomod_unparsable"
skip_label go_current = bytes "go_current"
skip_label auto_update_disabled = bytes "auto_update_disabled"
skip_label auto_update_undecided = bytes "auto_update_undecided"
skip_label sha_unchanged = bytes "sha_unchanged"
skip_label open_update_pr = bytes "open_update_pr"
skip_label emission_in_flight = bytes "emission_in_flight"

unfoldable pub inc_poll_cycle : Text → Operation
inc_poll_cycle result = add poll_cycle_total (result ∷ []) 1

unfoldable pub inc_published : Text → Operation
inc_published status = add published_total (status ∷ []) 1

unfoldable pub inc_completed : Text → Operation
inc_completed status = add completed_total (status ∷ []) 1

unfoldable pub inc_repos_scanned : ℕ → Operation
inc_repos_scanned n = add repos_scanned_total [] n

unfoldable pub inc_filter_skipped : Text → Operation
inc_filter_skipped reason = add filter_skipped_total (reason ∷ []) 1

-- The call that an event of a cycle is; a command is none.
unfoldable pub operations : Event → List Operation
operations (poll_cycle r) = inc_poll_cycle (poll_label r) ∷ []
operations (published s) = inc_published (publish_label s) ∷ []
operations (completed s) = inc_completed (complete_label s) ∷ []
operations (repos_scanned n) = inc_repos_scanned n ∷ []
operations (filter_skipped reason) = inc_filter_skipped (skip_label reason) ∷ []
operations (command_sent cmd sent) = []
operations (completion_sent id sent) = []
