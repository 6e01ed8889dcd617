-- ===== src/Examples/Cycles.antt =====
-- Cycles of pkg/watcher.go over the sample collaborators.
use github_update_go_watcher.Common.{false, [], ◌∷◌, none, ◌≡◌, refl, bytes, All}
use github_update_go_watcher.Cursor.{RepoState, entry, lookup}
use github_update_go_watcher.Cursor.Store.{load_cursor}
use github_update_go_watcher.Examples.Samples.{
  allow_all, fresh_world, head, sample, tool, tool_candidate,
}
use github_update_go_watcher.Repo.{Repo}
use github_update_go_watcher.Task.{build_create_command}
use github_update_go_watcher.Watcher.Commands.{commands}
use github_update_go_watcher.Watcher.Authority.{Authorised, poll-Authorised}
use github_update_go_watcher.Watcher.Complete.{complete_repo, complete_task}
use github_update_go_watcher.Watcher.Completion.{complete_once, complete_published, completions}
use github_update_go_watcher.Watcher.Outcome.{Ends, poll-outcomes}
use github_update_go_watcher.Watcher.Poll.{poll}
use github_update_go_watcher.Watcher.Publish.{mark_published}

-- What is known of the repositories listed.
abbrev IsTool : Repo → Type 0
IsTool repo = repo ≡ tool

poll-Authorised_example :
    All (Authorised sample allow_all [] IsTool) (commands (poll sample false fresh_world).1.events)
unfolding commands
poll-Authorised_example =
    poll-Authorised sample allow_all [] IsTool refl (λ e. (refl, tt)) false fresh_world tt

poll-outcomes_example :
    Ends sample
      (load_cursor sample.files sample.codec sample.cursor_path 0).0
      fresh_world
      (poll sample false fresh_world)
poll-outcomes_example = poll-outcomes sample false fresh_world

complete_published_example :
    completions
      (complete_repo sample tool (mark_published sample tool tool_candidate fresh_world).1).1.events
    ≡ (build_create_command sample.new_sha1 tool_candidate sample.task_config).task_identifier ∷ []
unfolding completions
complete_published_example =
    complete_published sample tool_candidate fresh_world (λ e. cc) (unfold entry lookup in λ e. cc)
      refl

completed_state : RepoState
completed_state = record {
  last_seen_head_sha = head;
  last_seen_go_version = bytes "1.27.2";
  completed_head_sha = [];
  in_flight_target = [];
  in_flight_since = [];
}

complete_once_example :
    complete_repo sample tool (complete_task sample tool completed_state fresh_world).1
    ≡ (none, (complete_task sample tool completed_state fresh_world).1)
complete_once_example = complete_once sample tool completed_state fresh_world refl
