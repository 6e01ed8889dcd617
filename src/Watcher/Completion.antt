-- ===== src/Watcher/Completion.antt =====
-- The merge-detection pass of pkg/watcher.go: it closes the task that was filed, and once.
use github_update_go_watcher.Candidate.{Candidate}
use github_update_go_watcher.Common.{true, List, [], ◌∷◌, none, ◌≡◌, ◌≢◌, arith, Text, ok}
use github_update_go_watcher.Cursor.{RepoState, entry}
use github_update_go_watcher.Cursor.Laws.{entry-set_entry}
use github_update_go_watcher.Repo.{Repo, key}
use github_update_go_watcher.Task.{build_create_command, derive_task_id}
use github_update_go_watcher.Watcher.Complete.{
  complete_repo, complete_entry, on_merged, complete_task, awaits_merge,
}
use github_update_go_watcher.Watcher.Publish.{mark_published, published_state, completed_of}
use github_update_go_watcher.Watcher.State.{World, Watcher, Event, completion_sent}

-- The completions among the events, newest first.
unfoldable pub completions : List Event → List Text
completions [] = []
completions (completion_sent id sent ∷ es) = id ∷ completions es
completions (_ ∷ es) = completions es

module _ {E : Type 0} (d : Watcher E) where
  -- The pass that sees the merged pull request of a published candidate, whose HEAD is known and not
  -- yet marked as completed, sends one completion, of the task that was created for the candidate.
  pub complete_published :
      (c : Candidate) (w : World E)
      → c.head_sha ≢ []
      → completed_of (entry (key c.repo) w.cursor) ≢ c.head_sha
      → (d.github.get_merged_update_pr c.repo c.head_sha (mark_published d c.repo c w).1.env).0
        ≡ ok true
      → completions (complete_repo d c.repo (mark_published d c.repo c w).1).1.events
        ≡ (build_create_command d.new_sha1 c d.task_config).task_identifier ∷ completions w.events
  unfolding complete_repo complete_entry on_merged complete_task awaits_merge mark_published
      published_state build_create_command completions
  complete_published c w known fresh merged = ground (
    arith,
    entry-set_entry (key c.repo) (key c.repo)
        (published_state c (d.format_time (d.now w.env).0) (entry (key c.repo) w.cursor)) w.cursor,
  )

  -- Once a completion was sent with success, another pass over the repository asks and sends nothing,
  -- and leaves the world as it is.
  pub complete_once :
      (repo : Repo) (s : RepoState) (w : World E)
      → (d.send_complete
          (derive_task_id d.new_sha1 repo.owner repo.name s.last_seen_go_version
            s.last_seen_head_sha)
          w.env).0
        ≡ true
      → complete_repo d repo (complete_task d repo s w).1 ≡ (none, (complete_task d repo s w).1)
  unfolding complete_repo complete_entry awaits_merge complete_task
  complete_once repo s w sent = ground (
    arith,
    entry-set_entry (key repo) (key repo) (record s { completed_head_sha = s.last_seen_head_sha })
        w.cursor,
  )
