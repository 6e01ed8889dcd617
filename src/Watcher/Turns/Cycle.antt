-- ===== src/Watcher/Turns/Cycle.antt =====
-- The order of what a cycle of pkg/watcher.go sends.
use mathlib.Core.Path.{subst}
use github_update_go_watcher.Common.{
  Bool, List, Option, none, some, ◌≡◌, ◌⊎◌, ◌∙◌, refl, sym, inl, inr, Result, ok, err, Error,
  failed,
}
use github_update_go_watcher.Cursor.{Cursor}
use github_update_go_watcher.Cursor.Store.{load_cursor}
use github_update_go_watcher.Repo.{Repo}
use github_update_go_watcher.Version.{Version}
use github_update_go_watcher.Watcher.Commands.{commands, complete_repo-commands}
use github_update_go_watcher.Watcher.Loops.{complete_merged_updates-keeps}
use github_update_go_watcher.Watcher.Poll.{
  after_complete, after_process, poll, save, scan_repos, with_cursor, with_latest,
}
use github_update_go_watcher.Watcher.State.{PollResult, World, Watcher}
use github_update_go_watcher.Watcher.Turns.{Turns, process_repos-Turns}

module _ {E : Type 0} (d : Watcher E) where
  -- What stands behind the first pass sends no create command.
  after_complete-commands :
      (reason : Option PollResult) (w : World E)
      → commands (after_complete d reason w).1.events ≡ commands w.events
  unfolding after_complete save commands
  after_complete-commands (some reason) w = refl
  after_complete-commands none w = refl

  after_process-commands :
      (repos : List Repo) (reason : Option PollResult) (w : World E)
      → commands (after_process d repos reason w).1.events ≡ commands w.events
  unfolding after_process commands
  after_process-commands repos (some reason) w = refl
  after_process-commands repos none w =
      after_complete-commands _ _
      ∙ complete_merged_updates-keeps d (λ v. commands v.events ≡ commands w.events) (λ v h. h)
          (λ r v h. complete_repo-commands d r v ∙ h) repos w refl

  -- A cycle sends nothing, or the repositories of its listing take turns.
  abbrev pub TakesTurns : World E → World E → Type 0
  TakesTurns w v =
      (commands v.events ≡ commands w.events)
      ⊎ ((repos : List Repo) × (e : E) × ((d.github.list_repos d.owner e).0 ≡ ok repos)
          × Turns d repos (commands w.events) (commands v.events))

  scan_repos-TakesTurns :
      (force : Bool) (latest : Version) (e : E) (listed : Result (List Repo)) (w : World E)
      → (d.github.list_repos d.owner e).0 ≡ listed
      → TakesTurns w (scan_repos d force latest listed w).1
  unfolding scan_repos commands
  scan_repos-TakesTurns force latest e (err Error.rate_limited) w h = inl refl
  scan_repos-TakesTurns force latest e (err failed) w h = inl refl
  scan_repos-TakesTurns force latest e (ok repos) w h = inr (
    repos,
    e,
    h,
    subst (Turns d repos (commands w.events)) (sym (after_process-commands repos _ _))
        (process_repos-Turns d _ latest repos _),
  )

  with_latest-TakesTurns :
      (force : Bool) (latest : Result Version) (w : World E)
      → TakesTurns w (with_latest d force latest w).1
  unfolding with_latest commands
  with_latest-TakesTurns force (err e) w = inl refl
  with_latest-TakesTurns force (ok latest) w =
      scan_repos-TakesTurns force latest w.env _
        (record w { env = (d.github.list_repos d.owner w.env).1 }) refl

  with_cursor-TakesTurns :
      (force : Bool) (loaded : Result Cursor) (w : World E)
      → TakesTurns w (with_cursor d force loaded w).1
  unfolding with_cursor
  with_cursor-TakesTurns force (err e) w = inl refl
  with_cursor-TakesTurns force (ok cursor) w =
      with_latest-TakesTurns force (d.latest_stable w.env).0
        (record w { env = (d.latest_stable w.env).1; cursor = cursor })

  -- A cycle, however it ends, sends nothing, or the repositories of a listing that GitHub gave take
  -- turns in its order, each with at most one command: an update task or a decision task for a
  -- candidate of its own.
  pub poll-TakesTurns : (force : Bool) (w : World E) → TakesTurns w (poll d force w).1
  unfolding poll
  poll-TakesTurns force w =
      with_cursor-TakesTurns force (load_cursor d.files d.codec d.cursor_path w.env).0
        (record w { env = (load_cursor d.files d.codec d.cursor_path w.env).1 })
