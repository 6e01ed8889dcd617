-- ===== src/Watcher/Retained.antt =====
-- The emission claim of pkg/watcher.go from a publish to the end of the cycle, and in the next one.
use mathlib.Core.Path.{subst}
use github_update_go_watcher.Candidate.{Candidate}
use github_update_go_watcher.Common.{
  true, List, Option, none, some, ◌≡◌, ◌≢◌, ◌∙◌, refl, sym, ap, arith, Text, text_dec, All,
}
use github_update_go_watcher.Cursor.{Cursor, RepoState, entry}
use github_update_go_watcher.Cursor.Laws.{entry-set_entry}
use github_update_go_watcher.Repo.{Repo, key}
use github_update_go_watcher.Task.{CreateCommand}
use github_update_go_watcher.Version.{Version, number}
use github_update_go_watcher.Watcher.Complete.{
  complete_repo, complete_merged_updates, complete_entry, on_merged, complete_task, awaits_merge,
}
use github_update_go_watcher.Watcher.Frame.{complete_repo-entry_other, process_repo-entry_other}
use github_update_go_watcher.Watcher.Loops.{complete_merged_updates-keeps, process_repos-keeps}
use github_update_go_watcher.Watcher.Poll.{after_complete, after_process, save}
use github_update_go_watcher.Watcher.Process.{CycleFilter, after_filter, process_repos}
use github_update_go_watcher.Watcher.Publish.{mark_published, publish_create, published_state, send}
use github_update_go_watcher.Watcher.State.{PollResult, World, Watcher}

-- What an entry claims, and since when.
abbrev pub claim_of : Option RepoState → Option (Text × Text)
claim_of none = none
claim_of (some s) = some (s.in_flight_target, s.in_flight_since)

module _ {E : Type 0} (d : Watcher E) where
  complete_entry-claim :
      (r : Repo) (state : Option RepoState) (w : World E)
      → entry (key r) w.cursor ≡ state
      → claim_of (entry (key r) (complete_entry d r state w).1.cursor) ≡ claim_of state
  unfolding complete_entry on_merged complete_task awaits_merge
  complete_entry-claim r none w h = ap claim_of h
  complete_entry-claim r (some s) w h = ground (
    arith,
    entry-set_entry (key r) (key r) (record s { completed_head_sha = s.last_seen_head_sha })
        w.cursor,
    h,
  )

  -- The merge pass leaves every claim as it is.
  pub complete_repo-claim :
      (k : Text) (r : Repo) (w : World E)
      → claim_of (entry k (complete_repo d r w).1.cursor) ≡ claim_of (entry k w.cursor)
  complete_repo-claim k r w = elim (text_dec (key r) k) [
    | no other ↦ ap claim_of (complete_repo-entry_other d r k other w)
    | yes same ↦
        subst (λ j. claim_of (entry j (complete_repo d r w).1.cursor) ≡ claim_of (entry j w.cursor))
          same (unfold complete_repo in complete_entry-claim r _ w refl)
  ]

  module _ (repo : Repo) (target : Version) where
    -- The entry claims the target since a time that the clock showed.
    abbrev pub Claimed : Cursor → Type 0
    Claimed cursor =
        (e : E) × (claim_of (entry (key repo) cursor)
          ≡ some (number target, d.format_time (d.now e).0))

    Claimed-same :
        (c c' : Cursor)
        → claim_of (entry (key repo) c') ≡ claim_of (entry (key repo) c)
        → Claimed c
        → Claimed c'
    Claimed-same c c' same (e, claimed) = (e, same ∙ claimed)

    complete_merged_updates-Claimed :
        (repos : List Repo) (w : World E)
        → Claimed w.cursor
        → Claimed (complete_merged_updates d repos w).1.cursor
    complete_merged_updates-Claimed =
        complete_merged_updates-keeps d (λ w. Claimed w.cursor) (λ w h. h)
          (λ r w h. Claimed-same w.cursor _ (complete_repo-claim (key repo) r w) h)

    after_complete-Claimed :
        (reason : Option PollResult) (w : World E)
        → Claimed w.cursor
        → Claimed (after_complete d reason w).1.cursor
    unfolding after_complete save
    after_complete-Claimed (some reason) w h = h
    after_complete-Claimed none w h = h

    pub after_process-Claimed :
        (repos : List Repo) (reason : Option PollResult) (w : World E)
        → Claimed w.cursor
        → Claimed (after_process d repos reason w).1.cursor
    unfolding after_process
    after_process-Claimed repos (some reason) w h = h
    after_process-Claimed repos none w h =
        after_complete-Claimed _ _ (complete_merged_updates-Claimed repos w h)

    -- The rounds of other repositories leave the claim as it is.
    pub process_repos-Claimed :
        (chain : CycleFilter) (latest : Version) (repos : List Repo) (w : World E)
        → All (λ r. key r ≢ key repo) repos
        → Claimed w.cursor
        → Claimed (process_repos d chain latest repos w).1.cursor
    process_repos-Claimed chain latest repos w others h =
        process_repos-keeps d (λ w. Claimed w.cursor) (λ w h. h) chain latest
          (λ r. key r ≢ key repo)
          (λ r w other h.
            Claimed-same w.cursor _
              (ap claim_of (process_repo-entry_other d r (key repo) other chain latest w)) h)
          repos w others h

    mark_published-Claimed :
        (c : Candidate) (w : World E)
        → c.latest_go ≡ target
        → Claimed (mark_published d repo c w).1.cursor
    unfolding mark_published published_state
    mark_published-Claimed c w same = (
      w.env,
      ap claim_of (entry-set_entry (key repo) (key repo) _ w.cursor) ∙ ground (arith, same),
    )

    after_filter_sent :
        (c : Candidate) (w : World E)
        → (publish_create d c w).0 ≡ true
        → (after_filter d repo c none w).1.cursor
          ≡ (mark_published d repo c (publish_create d c w).1).1.cursor
    unfolding after_filter
    after_filter_sent c w sent = ground (arith, sent)

    -- A publish that succeeds leaves a claim.
    pub after_filter-Claimed :
        (c : Candidate) (w : World E)
        → c.latest_go ≡ target
        → ((cmd : CreateCommand) (e : E) → (d.send_create cmd e).0 ≡ true)
        → Claimed (after_filter d repo c none w).1.cursor
    after_filter-Claimed c w same accepts =
        subst Claimed (sym (after_filter_sent c w (unfold publish_create send in accepts _ w.env)))
          (mark_published-Claimed c (publish_create d c w).1 same)
