-- ===== src/Watcher/Lifecycle/Passes.antt =====
-- The claims over a whole cycle of pkg/watcher.go.
use mathlib.Core.Path.{subst}
use github_update_go_watcher.Common.{
  All-intro, Bool, List, Option, none, some, ◌≡◌, ◌⊎◌, inl, inr, refl, ap, Text, text_dec, Error,
  failed, Result, ok, err,
}
use github_update_go_watcher.Cursor.{Cursor, RepoState, entry}
use github_update_go_watcher.Cursor.Store.{load_cursor}
use github_update_go_watcher.Repo.{Repo, key}
use github_update_go_watcher.Version.{Version}
use github_update_go_watcher.Watcher.Commands.{poll_chain}
use github_update_go_watcher.Watcher.Complete.{complete_merged_updates, complete_repo}
use github_update_go_watcher.Watcher.Frame.{process_repo-entry_other}
use github_update_go_watcher.Watcher.Lifecycle.{Claim, Life, Life-append, claim, still}
use github_update_go_watcher.Watcher.Lifecycle.Rounds.{process_repo-Life}
use github_update_go_watcher.Watcher.Loops.{complete_merged_updates-keeps, process_repos-keeps}
use github_update_go_watcher.Watcher.Poll.{
  after_complete, after_process, poll, save, scan_repos, with_cursor, with_latest,
}
use github_update_go_watcher.Watcher.Process.{process_repo, process_repos}
use github_update_go_watcher.Watcher.Retained.{claim_of, complete_repo-claim}
use github_update_go_watcher.Watcher.State.{PollResult, World, Watcher}

claim-same : (s t : Option RepoState) → claim_of s ≡ claim_of t → claim s ≡ claim t
claim-same none none h = refl
claim-same none (some t) h = cc
claim-same (some s) none h = cc
claim-same (some s) (some t) h = cc

module _ {E : Type 0} (d : Watcher E) (force : Bool) (k : Text) (latest : Version) (a : Claim) where
  abbrev Lived : World E → Type 0
  Lived w = Life d force k latest a (claim (entry k w.cursor))

  Lived-same :
      (w w' : World E) → claim (entry k w'.cursor) ≡ claim (entry k w.cursor) → Lived w → Lived w'
  Lived-same w w' same h = Life-append d h (still same)

  process_repo-Lived :
      (r : Repo) (w : World E) → Lived w → Lived (process_repo d (poll_chain d force) latest r w).1
  process_repo-Lived r w h = elim (text_dec (key r) k) [
    | no other ↦
        Lived-same w (process_repo d (poll_chain d force) latest r w).1
          (ap claim (process_repo-entry_other d r k other (poll_chain d force) latest w)) h
    | yes same ↦ Life-append d h (
        subst
          (λ j.
            Life d force j latest (claim (entry j w.cursor))
              (claim (entry j (process_repo d (poll_chain d force) latest r w).1.cursor)))
          same (process_repo-Life d force latest r w))
  ]

  process_repos-Lived :
      (repos : List Repo) (w : World E)
      → Lived w
      → Lived (process_repos d (poll_chain d force) latest repos w).1
  process_repos-Lived repos w h =
      process_repos-keeps d Lived (λ w h. h) (poll_chain d force) latest (λ r. Unit {0})
        (λ r w _ h. process_repo-Lived r w h) repos w (All-intro _ (λ r. tt) repos) h

  complete_merged_updates-Lived :
      (repos : List Repo) (w : World E) → Lived w → Lived (complete_merged_updates d repos w).1
  complete_merged_updates-Lived =
      complete_merged_updates-keeps d Lived (λ w h. h)
        (λ r w h.
          Lived-same w (complete_repo d r w).1 (claim-same _ _ (complete_repo-claim d k r w)) h)

  after_complete-Lived :
      (reason : Option PollResult) (w : World E) → Lived w → Lived (after_complete d reason w).1
  unfolding after_complete save
  after_complete-Lived (some reason) w h = h
  after_complete-Lived none w h = h

  after_process-Lived :
      (repos : List Repo) (reason : Option PollResult) (w : World E)
      → Lived w
      → Lived (after_process d repos reason w).1
  unfolding after_process
  after_process-Lived repos (some reason) w h = h
  after_process-Lived repos none w h =
      after_complete-Lived _ _ (complete_merged_updates-Lived repos w h)

  scan_repos-Lived :
      (repos : Result (List Repo)) (w : World E)
      → Lived w
      → Lived (scan_repos d force latest repos w).1
  unfolding scan_repos
  scan_repos-Lived (err Error.rate_limited) w h = h
  scan_repos-Lived (err failed) w h = h
  scan_repos-Lived (ok repos) w h = after_process-Lived repos _ _ (process_repos-Lived repos _ h)

module _ {E : Type 0} (d : Watcher E) (force : Bool) (k : Text) where
  -- The claim under a key is as it was, or a stable release was looked up and the claim went through
  -- steps of the state machine for this release.
  abbrev pub Evolves : Claim → Claim → Type 0
  Evolves a b =
      (b ≡ a) ⊎ ((v : Version) × (e : E) × ((d.latest_stable e).0 ≡ ok v) × Life d force k v a b)

  with_latest-Evolves :
      (e : E) (found : Result Version) (w : World E)
      → (d.latest_stable e).0 ≡ found
      → Evolves (claim (entry k w.cursor)) (claim (entry k (with_latest d force found w).1.cursor))
  unfolding with_latest
  with_latest-Evolves e (err _) w h = inl refl
  with_latest-Evolves e (ok v) w h = inr (v, e, h, scan_repos-Lived d force k v _ _ _ (still refl))

  -- A cycle that loads its cursor leaves the claim of every key as it is stored, or it looks up a
  -- release and takes the claim through steps of the state machine for this release.
  pub poll-Evolves :
      (cursor : Cursor) (w : World E)
      → (load_cursor d.files d.codec d.cursor_path w.env).0 ≡ ok cursor
      → Evolves (claim (entry k cursor)) (claim (entry k (poll d force w).1.cursor))
  unfolding poll with_cursor
  poll-Evolves cursor w loaded =
      rw (loaded) (with_latest-Evolves (load_cursor d.files d.codec d.cursor_path w.env).1 _ _ refl)
