-- ===== src/Watcher/Commands.antt =====
-- The commands that the parts of pkg/watcher.go send.
use github_update_go_watcher.Candidate.{Candidate}
use github_update_go_watcher.Common.{Bool, List, [], ◌∷◌, Option, none, some, ◌≡◌, ◌≢◌, ◌⊎◌, arith}
use github_update_go_watcher.Cursor.{cursor_reader}
use github_update_go_watcher.Filter.{SkipReason, auto_update_undecided, cycle_filter}
use github_update_go_watcher.Repo.{Repo}
use github_update_go_watcher.Task.{CreateCommand, build_create_command, build_decision_command}
use github_update_go_watcher.Version.{Version}
use github_update_go_watcher.Watcher.Complete.{
  complete_repo, complete_entry, on_merged, complete_task, awaits_merge,
}
use github_update_go_watcher.Watcher.Gate.{gate_repo, suppress_in_flight}
use github_update_go_watcher.Watcher.Observe.{gathered, gather_candidate, observe}
use github_update_go_watcher.Watcher.Process.{CycleFilter, after_filter}
use github_update_go_watcher.Watcher.Publish.{
  publish_create, publish_decision, send, mark_published,
}
use github_update_go_watcher.Watcher.State.{World, Watcher, Event, command_sent}

-- The commands among the events, newest first.
unfoldable pub commands : List Event → List CreateCommand
commands [] = []
commands (command_sent cmd sent ∷ es) = cmd ∷ commands es
commands (_ ∷ es) = commands es

module _ {E : Type 0} (d : Watcher E) where
  pub gather_candidate-commands :
      (repo : Repo) (latest : Version) (w : World E)
      → commands (gather_candidate d repo latest w).1.events ≡ commands w.events
  unfolding gather_candidate
  gather_candidate-commands repo latest w = ground arith

  pub gate_repo-commands :
      (repo : Repo) (c : Candidate) (w : World E)
      → commands (gate_repo d repo c w).1.events ≡ commands w.events
  unfolding gate_repo commands
  gate_repo-commands repo c w = ground arith

  pub suppress_in_flight-commands :
      (repo : Repo) (c : Candidate) (w : World E)
      → commands (suppress_in_flight d repo c w).1.events ≡ commands w.events
  unfolding suppress_in_flight commands
  suppress_in_flight-commands repo c w = ground arith

  pub complete_repo-commands :
      (repo : Repo) (w : World E) → commands (complete_repo d repo w).1.events ≡ commands w.events
  unfolding complete_repo complete_entry on_merged complete_task awaits_merge commands
  complete_repo-commands repo w = ground arith

  -- What one repository adds to the commands: nothing, an update of the candidate that passed, or a
  -- decision for the candidate that is undecided.
  pub after_filter-commands :
      (repo : Repo) (c : Candidate) (reason : Option SkipReason) (w : World E)
      → ((commands (after_filter d repo c reason w).1.events ≡ commands w.events)
          × (reason ≢ none)
          × (reason ≢ some auto_update_undecided))
        ⊎ ((reason ≡ none)
            × (commands (after_filter d repo c reason w).1.events
                ≡ build_create_command d.new_sha1 c d.task_config ∷ commands w.events))
        ⊎ ((reason ≡ some auto_update_undecided)
            × (commands (after_filter d repo c reason w).1.events
                ≡ build_decision_command d.new_sha1 c d.task_config ∷ commands w.events))
  unfolding after_filter publish_create publish_decision send mark_published commands
  after_filter-commands repo c reason w = ground arith

-- The candidate that is gathered.
module _ {E : Type 0} (d : Watcher E) where
  -- A gathered candidate is of the repository and the cycle that it was gathered for.
  pub gather_candidate-repo :
      (repo : Repo) (latest : Version) (w : World E) (c : Candidate)
      → (gather_candidate d repo latest w).0 ≡ gathered c
      → (c.repo ≡ repo) × (c.latest_go ≡ latest)
  unfolding gather_candidate observe
  gather_candidate-repo repo latest w c h = ground arith

-- The chain of the cycle.
module _ {E : Type 0} (d : Watcher E) where
  abbrev pub poll_chain : Bool → CycleFilter
  poll_chain force cursor = cycle_filter d.task_creation_filter (cursor_reader cursor) force
