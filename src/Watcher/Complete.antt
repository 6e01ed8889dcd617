-- ===== src/Watcher/Complete.antt =====
-- `completeMergedUpdates` and `completeTask` of pkg/watcher.go: the merge-detection pass.
use github_update_go_watcher.Common.{
  Bool, true, false, not, List, [], ◌∷◌, Option, none, some, Error, failed, Result, ok, err, ◌==◌,
}
use github_update_go_watcher.Cursor.{RepoState, entry, set_entry}
use github_update_go_watcher.Repo.{Repo, key}
use github_update_go_watcher.Task.{derive_task_id}
use github_update_go_watcher.Watcher.State.{
  PollResult, Watcher, M, ◌>>=◌, ◌>>◌, pure, call, emit, get_cursor, put_cursor, unless_done,
  unless_aborted, CompleteStatus, completed, completion_sent,
}

-- An entry with a recorded HEAD that is not yet marked as completed.
unfoldable pub awaits_merge : RepoState → Bool
awaits_merge s = elim (s.last_seen_head_sha == []) [
  | true ↦ false
  | false ↦ not (s.last_seen_head_sha == s.completed_head_sha)
]

module _ {E : Type 0} (d : Watcher E) where
  -- The entry is changed in place: only its completion marker advances.
  unfoldable pub complete_task : Repo → RepoState → M E (Unit {0})
  complete_task repo s = do
    let sha = s.last_seen_head_sha
    let id = derive_task_id d.new_sha1 repo.owner repo.name s.last_seen_go_version sha
    sent ← call (d.send_complete id)
    emit (completion_sent id sent)
    elim sent [
      | false ↦ emit (completed CompleteStatus.error)
      | true ↦ do
        emit (completed CompleteStatus.complete)
        cursor ← get_cursor
        put_cursor (set_entry (key repo) (record s { completed_head_sha = sha }) cursor)
    ]

  unfoldable pub on_merged : Repo → RepoState → Result Bool → M E (Option PollResult)
  on_merged repo s (err Error.rate_limited) = pure (some PollResult.rate_limited)
  on_merged repo s (err failed) = pure none
  on_merged repo s (ok false) = pure none
  on_merged repo s (ok true) = do complete_task repo s; pure none

  unfoldable pub complete_entry : Repo → Option RepoState → M E (Option PollResult)
  complete_entry repo none = pure none
  complete_entry repo (some s) = elim (awaits_merge s) [
    | false ↦ pure none
    | true ↦ do
      merged ← call (d.github.get_merged_update_pr repo s.last_seen_head_sha)
      on_merged repo s merged
  ]

  -- The body of the loop for one repository.
  unfoldable pub complete_repo : Repo → M E (Option PollResult)
  complete_repo repo = do cursor ← get_cursor; complete_entry repo (entry (key repo) cursor)

  unfoldable pub complete_merged_updates : List Repo → M E (Option PollResult)
  complete_merged_updates [] = pure none
  complete_merged_updates (repo ∷ repos) = do
    done ← call d.ctx_done
    unless_done done
        (do reason ← complete_repo repo; unless_aborted reason (complete_merged_updates repos))
