-- ===== src/Watcher/Walk.antt =====
-- The rule for a cycle of pkg/watcher.go: what each round and each count keeps of the events, the cycle
-- keeps.
use github_update_go_watcher.Common.{
  ℕ, length, ◌∷◌, Bool, List, Option, none, some, All, Result, ok, err, Error, failed,
}
use github_update_go_watcher.Cursor.{Cursor}
use github_update_go_watcher.Repo.{Repo}
use github_update_go_watcher.Version.{Version}
use github_update_go_watcher.Watcher.Commands.{poll_chain}
use github_update_go_watcher.Watcher.Complete.{complete_repo, complete_merged_updates}
use github_update_go_watcher.Watcher.Loops.{process_repos-keeps, complete_merged_updates-keeps}
use github_update_go_watcher.Watcher.Poll.{
  poll, save, after_complete, after_process, scan_repos, with_latest, with_cursor,
}
use github_update_go_watcher.Watcher.Process.{process_repo, process_repos}
use github_update_go_watcher.Watcher.State.{
  World, Watcher, Event, PollResult, poll_cycle, repos_scanned, success, github_error,
  go_version_error,
}

-- What is known of the repositories of a listing, if it succeeds.
abbrev pub Lists : (Repo → Type 0) → Result (List Repo) → Type 0
Lists Q (err e) = Unit
Lists Q (ok repos) = All Q repos

-- What is known of the release that is looked up, if the lookup succeeds.
abbrev pub Looks : (Version → Type 0) → Result Version → Type 0
Looks V (err e) = Unit
Looks V (ok v) = V v

module _ {E : Type 0} (d : Watcher E) (Q : Repo → Type 0) (V : Version → Type 0)
    (Inv : List Event → Type 0) where
  abbrev Holds : World E → Type 0
  Holds w = Inv w.events

  -- What a round does to an invariant of the events; `Q` is known of the repositories listed, and `V` of
  -- the release looked up.
  pub record IsKept (force : Bool) : Type 0 where
    pub by_process :
        (latest : Version) (repo : Repo) (w : World E)
        → V latest
        → Q repo
        → Inv w.events
        → Inv (process_repo d (poll_chain d force) latest repo w).1.events
    pub by_complete :
        (repo : Repo) (w : World E) → Inv w.events → Inv (complete_repo d repo w).1.events
    pub by_result : (r : PollResult) (es : List Event) → Inv es → Inv (poll_cycle r ∷ es)
    pub by_scan : (n : ℕ) (es : List Event) → Inv es → Inv (repos_scanned n ∷ es)

  module _ (force : Bool) (kept : IsKept force) where
    pub process_repos-Inv :
        (latest : Version)
        → V latest
        → (repos : List Repo) (w : World E) → All Q repos
        → Inv w.events
        → Inv (process_repos d (poll_chain d force) latest repos w).1.events
    process_repos-Inv latest known =
        process_repos-keeps d Holds (λ w h. h) (poll_chain d force) latest Q
          (λ repo w. kept.by_process latest repo w known)

    complete_merged_updates-Inv :
        (repos : List Repo) (w : World E)
        → Inv w.events
        → Inv (complete_merged_updates d repos w).1.events
    complete_merged_updates-Inv = complete_merged_updates-keeps d Holds (λ w h. h) kept.by_complete

    after_complete-Inv :
        (reason : Option PollResult) (w : World E)
        → Inv w.events
        → Inv (after_complete d reason w).1.events
    unfolding after_complete save
    after_complete-Inv (some reason) w h = kept.by_result reason _ h
    after_complete-Inv none w h = kept.by_result success _ h

    pub after_process-Inv :
        (repos : List Repo) (reason : Option PollResult) (w : World E)
        → Inv w.events
        → Inv (after_process d repos reason w).1.events
    unfolding after_process
    after_process-Inv repos (some reason) w h = kept.by_result reason _ h
    after_process-Inv repos none w h =
        after_complete-Inv _ _ (complete_merged_updates-Inv repos w h)

    module _ (listed : (e : E) → Lists Q (d.github.list_repos d.owner e).0)
        (looked : (e : E) → Looks V (d.latest_stable e).0) where
      scan_repos-Inv :
          (latest : Version) (repos : Result (List Repo)) (w : World E)
          → V latest
          → Lists Q repos
          → Inv w.events
          → Inv (scan_repos d force latest repos w).1.events
      unfolding scan_repos
      scan_repos-Inv latest (err Error.rate_limited) w known q h =
          kept.by_result PollResult.rate_limited _ h
      scan_repos-Inv latest (err failed) w known q h = kept.by_result github_error _ h
      scan_repos-Inv latest (ok repos) w known q h =
          after_process-Inv repos _ _
            (process_repos-Inv latest known repos _ q (kept.by_scan (length repos) _ h))

      with_latest-Inv :
          (latest : Result Version) (w : World E)
          → Looks V latest
          → Inv w.events
          → Inv (with_latest d force latest w).1.events
      unfolding with_latest
      with_latest-Inv (err e) w known h = kept.by_result go_version_error _ h
      with_latest-Inv (ok latest) w known h = scan_repos-Inv latest _ _ known (listed w.env) h

      with_cursor-Inv :
          (loaded : Result Cursor) (w : World E)
          → Inv w.events
          → Inv (with_cursor d force loaded w).1.events
      unfolding with_cursor
      with_cursor-Inv (err e) w h = h
      with_cursor-Inv (ok cursor) w h = with_latest-Inv _ _ (looked w.env) h

      pub poll-Inv : (w : World E) → Inv w.events → Inv (poll d force w).1.events
      unfolding poll
      poll-Inv w h = with_cursor-Inv _ _ h
