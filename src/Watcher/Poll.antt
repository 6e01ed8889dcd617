-- ===== src/Watcher/Poll.antt =====
-- `Poll` of pkg/watcher.go: one scan cycle.
use github_update_go_watcher.Common.{
  Bool, List, Option, none, some, Error, failed, Result, ok, err, length,
}
use github_update_go_watcher.Cursor.{Cursor, cursor_reader}
use github_update_go_watcher.Cursor.Store.{load_cursor, save_cursor}
use github_update_go_watcher.Filter.{cycle_filter}
use github_update_go_watcher.Repo.{Repo}
use github_update_go_watcher.Version.{Version}
use github_update_go_watcher.Watcher.Complete.{complete_merged_updates}
use github_update_go_watcher.Watcher.Process.{process_repos}
use github_update_go_watcher.Watcher.State.{
  PollResult, success, github_error, go_version_error, Watcher, M, ◌>>=◌, ◌>>◌, pure, call, emit,
  get_cursor, put_cursor, poll_cycle, repos_scanned,
}

module _ {E : Type 0} (d : Watcher E) where
  -- An error of the save is logged and dropped.
  unfoldable pub save : M E (Unit {0})
  save = do cursor ← get_cursor; call (save_cursor d.files d.codec d.cursor_path cursor); pure tt

  unfoldable pub after_complete : Option PollResult → M E (Result (Unit {0}))
  after_complete (some reason) = do emit (poll_cycle reason); save; pure (ok tt)
  after_complete none = do save; emit (poll_cycle success); pure (ok tt)

  -- An abort of the first pass ends the cycle without a save.
  unfoldable pub after_process : List Repo → Option PollResult → M E (Result (Unit {0}))
  after_process repos (some reason) = do emit (poll_cycle reason); pure (ok tt)
  after_process repos none = do reason ← complete_merged_updates d repos; after_complete reason

  unfoldable pub scan_repos : Bool → Version → Result (List Repo) → M E (Result (Unit {0}))
  scan_repos force latest (err Error.rate_limited) = do
    emit (poll_cycle PollResult.rate_limited)
    pure (ok tt)
  scan_repos force latest (err failed) = do emit (poll_cycle github_error); pure (ok tt)
  scan_repos force latest (ok repos) = do
    emit (repos_scanned (length repos))
    reason ←
        process_repos d (λ c. cycle_filter d.task_creation_filter (cursor_reader c) force) latest
          repos
    after_process repos reason

  unfoldable pub with_latest : Bool → Result Version → M E (Result (Unit {0}))
  with_latest force (err e) = do emit (poll_cycle go_version_error); pure (ok tt)
  with_latest force (ok latest) = do
    repos ← call (d.github.list_repos d.owner)
    scan_repos force latest repos

  unfoldable pub with_cursor : Bool → Result Cursor → M E (Result (Unit {0}))
  with_cursor force (err e) = pure (err e)
  with_cursor force (ok cursor) = do
    put_cursor cursor
    latest ← call d.latest_stable
    with_latest force latest

  -- The cycle reads its cursor from the store, so the one that it is given does not matter.
  unfoldable pub poll : Bool → M E (Result (Unit {0}))
  poll force = do
    loaded ← call (load_cursor d.files d.codec d.cursor_path)
    with_cursor force loaded
