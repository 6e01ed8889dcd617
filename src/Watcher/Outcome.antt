-- ===== src/Watcher/Outcome.antt =====
-- What a cycle of pkg/watcher.go counts as its result.
use github_update_go_watcher.Common.{
  All-intro, Bool, List, [], ◌∷◌, Option, none, some, ◌≡◌, ◌⊎◌, inl, inr, refl, ◌∙◌, arith, Error,
  failed, Result, ok, err,
}
use github_update_go_watcher.Cursor.{Cursor}
use github_update_go_watcher.Cursor.Store.{load_cursor}
use github_update_go_watcher.Repo.{Repo}
use github_update_go_watcher.Version.{Version}
use github_update_go_watcher.Watcher.Complete.{
  complete_repo, complete_merged_updates, complete_entry, on_merged, complete_task, awaits_merge,
}
use github_update_go_watcher.Watcher.Gate.{gate_repo, suppress_in_flight}
use github_update_go_watcher.Watcher.Loops.{process_repos-keeps, complete_merged_updates-keeps}
use github_update_go_watcher.Watcher.Observe.{gather_candidate}
use github_update_go_watcher.Watcher.Poll.{
  poll, save, after_complete, after_process, scan_repos, with_latest, with_cursor,
}
use github_update_go_watcher.Watcher.Process.{
  CycleFilter, process_repo, process_repos, after_filter, after_gate, after_suppress, after_gather,
}
use github_update_go_watcher.Watcher.Publish.{
  publish_create, publish_decision, send, mark_published,
}
use github_update_go_watcher.Watcher.State.{World, Watcher, Event, PollResult, success, poll_cycle}

-- The cycle results among the events, newest first.
unfoldable pub outcomes : List Event → List PollResult
outcomes [] = []
outcomes (poll_cycle r ∷ es) = r ∷ outcomes es
outcomes (_ ∷ es) = outcomes es

module _ {E : Type 0} (d : Watcher E) where
  process_repo-outcomes :
      (chain : CycleFilter) (latest : Version) (repo : Repo) (w : World E)
      → outcomes (process_repo d chain latest repo w).1.events ≡ outcomes w.events
  unfolding process_repo after_gather after_gate after_suppress after_filter gather_candidate
      gate_repo suppress_in_flight publish_create publish_decision send mark_published outcomes
  process_repo-outcomes chain latest repo w = ground arith

  complete_repo-outcomes :
      (repo : Repo) (w : World E) → outcomes (complete_repo d repo w).1.events ≡ outcomes w.events
  unfolding complete_repo complete_entry on_merged complete_task awaits_merge outcomes
  complete_repo-outcomes repo w = ground arith

  module _ (w₀ : World E) where
    abbrev Unchanged : World E → Type 0
    Unchanged w = outcomes w.events ≡ outcomes w₀.events

    -- One result was added, the given one.
    abbrev Added : PollResult → World E → Type 0
    Added r w = outcomes w.events ≡ r ∷ outcomes w₀.events

    process_repos-Unchanged :
        (chain : CycleFilter) (latest : Version) (repos : List Repo) (w : World E)
        → Unchanged w
        → Unchanged (process_repos d chain latest repos w).1
    process_repos-Unchanged chain latest repos w =
        process_repos-keeps d Unchanged (λ w h. h) chain latest (λ repo. Unit {0})
          (λ repo w _ h. process_repo-outcomes chain latest repo w ∙ h) repos w
          (All-intro _ (λ repo. tt) repos)

    complete_merged_updates-Unchanged :
        (repos : List Repo) (w : World E)
        → Unchanged w
        → Unchanged (complete_merged_updates d repos w).1
    complete_merged_updates-Unchanged =
        complete_merged_updates-keeps d Unchanged (λ w h. h)
          (λ repo w h. complete_repo-outcomes repo w ∙ h)

    abbrev Recorded : World E → Type 0
    Recorded w = (r : PollResult) × Added r w

    after_complete-Recorded :
        (reason : Option PollResult) (w : World E)
        → Unchanged w
        → Recorded (after_complete d reason w).1
    unfolding after_complete save outcomes
    after_complete-Recorded (some reason) w h = (reason, cc h)
    after_complete-Recorded none w h = (success, cc h)

    after_process-Recorded :
        (repos : List Repo) (reason : Option PollResult) (w : World E)
        → Unchanged w
        → Recorded (after_process d repos reason w).1
    unfolding after_process outcomes
    after_process-Recorded repos (some reason) w h = (reason, cc h)
    after_process-Recorded repos none w h =
        after_complete-Recorded _ _ (complete_merged_updates-Unchanged repos w h)

    scan_repos-Recorded :
        (force : Bool) (latest : Version) (repos : Result (List Repo)) (w : World E)
        → Unchanged w
        → Recorded (scan_repos d force latest repos w).1
    unfolding scan_repos outcomes
    scan_repos-Recorded force latest (err Error.rate_limited) w h = (PollResult.rate_limited, cc h)
    scan_repos-Recorded force latest (err failed) w h = (PollResult.github_error, cc h)
    scan_repos-Recorded force latest (ok repos) w h =
        after_process-Recorded repos _ _ (process_repos-Unchanged _ latest repos _ h)

    with_latest-Recorded :
        (force : Bool) (latest : Result Version) (w : World E)
        → Unchanged w
        → Recorded (with_latest d force latest w).1
    unfolding with_latest outcomes
    with_latest-Recorded force (err e) w h = (PollResult.go_version_error, cc h)
    with_latest-Recorded force (ok latest) w h = scan_repos-Recorded force latest _ _ h

  with_cursor_ok :
      (force : Bool) (cursor : Cursor) (w : World E) → (with_cursor d force (ok cursor) w).0 ≡ ok tt
  unfolding with_cursor with_latest scan_repos after_process after_complete save
  with_cursor_ok force cursor w = ground arith

  -- The two ways in which a cycle behind its load may end.
  abbrev pub Ends : Result Cursor → World E → Result (Unit {0}) × World E → Type 0
  Ends loaded w end =
      ((e : Error) × (loaded ≡ err e) × (end.0 ≡ err e) × (end.1.events ≡ w.events))
      ⊎ ((c : Cursor) × (loaded ≡ ok c)
          × (end.0 ≡ ok tt)
          × (r : PollResult) × (outcomes end.1.events ≡ r ∷ outcomes w.events))

  with_cursor-Ends :
      (force : Bool) (loaded : Result Cursor) (w : World E)
      → Ends loaded w (with_cursor d force loaded w)
  unfolding with_cursor
  with_cursor-Ends force (err e) w = inl (e, refl, refl, refl)
  with_cursor-Ends force (ok c) w =
      let (r, added) = with_latest-Recorded w force _ _ refl in
      inr (c, refl, with_cursor_ok force c w, r, added)

  -- A cycle either fails to load its cursor, returns this error, and counts and sends nothing; or it
  -- loads its cursor, returns no error, and counts exactly one cycle result.
  pub poll-outcomes :
      (force : Bool) (w : World E)
      → Ends (load_cursor d.files d.codec d.cursor_path w.env).0 w (poll d force w)
  unfolding poll
  poll-outcomes force w = with_cursor-Ends force _ _
