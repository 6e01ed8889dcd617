-- ===== src/Watcher/Spared.antt =====
-- A whole cycle of pkg/watcher.go over a stored cursor that holds an emission claim.
use mathlib.Core.Path.{subst}
use github_update_go_watcher.Candidate.{Candidate}
use github_update_go_watcher.Common.{
  Bool, List, [], ◌∷◌, ◌≡◌, ◌≢◌, ◌∙◌, ◌⊎◌, inl, inr, refl, sym, ap, Text, text_dec, All, Error,
  failed, Result, ok, err,
}
use github_update_go_watcher.Cursor.{Cursor, entry}
use github_update_go_watcher.Cursor.Store.{load_cursor}
use github_update_go_watcher.Repo.{Repo, key}
use github_update_go_watcher.Task.{CreateCommand, build_create_command, build_decision_command}
use github_update_go_watcher.Version.{Version}
use github_update_go_watcher.Watcher.Approval.{
  Keeps, Seen, Seen-repo, Sent-IsKept, process_repo-Sent,
}
use github_update_go_watcher.Watcher.Authority.{IsWired}
use github_update_go_watcher.Watcher.Claim.{LiveClaim, process_repo_claimed}
use github_update_go_watcher.Watcher.Commands.{commands, poll_chain}
use github_update_go_watcher.Watcher.Frame.{process_repo-entry_other}
use github_update_go_watcher.Watcher.Loops.{unless_aborted-keeps, unless_done-keeps}
use github_update_go_watcher.Watcher.Poll.{poll, scan_repos, with_cursor, with_latest}
use github_update_go_watcher.Watcher.Process.{process_repo, process_repos}
use github_update_go_watcher.Watcher.State.{World, Watcher}
use github_update_go_watcher.Watcher.Walk.{IsKept, after_process-Inv, process_repos-Inv}

module _ {E : Type 0} (d : Watcher E) (repo : Repo) where
  abbrev pub IsOther : Repo → Type 0
  IsOther r = key r ≢ key repo

  -- No second repository listed has the key of the repository.
  abbrev pub ListedOnce : List Repo → Type 0
  ListedOnce [] = Unit
  ListedOnce (r ∷ rs) = (key r ≡ key repo → All IsOther rs) × ListedOnce rs

  -- A task for another repository.
  abbrev pub ForOther : CreateCommand → Type 0
  ForOther cmd =
      (c : Candidate) × IsOther c.repo
      × ((cmd ≡ build_create_command d.new_sha1 c d.task_config)
          ⊎ (cmd ≡ build_decision_command d.new_sha1 c d.task_config))

  abbrev pub Spared : World E → Type 0
  Spared w = All ForOther (commands w.events)

  module _ (is_allowed : List Text → Text → Bool) (allowlist : List Text)
      (wired : IsWired d is_allowed allowlist) (force : Bool) (latest : Version) where
    others-Keeps : Keeps d IsOther (λ v. Unit {0}) (All ForOther) (poll_chain d force)
    others-Keeps = record {
      on_pass = λ cursor c seen _ sent h. ((c, own c seen, inl refl), h);
      on_undecided = λ cursor c seen _ sent h. ((c, own c seen, inr refl), h);
    }
      where
        own : (c : Candidate) → Seen d IsOther (λ v. Unit {0}) (All ForOther) c → IsOther c.repo
        own = Seen-repo d IsOther (λ v. Unit {0}) (All ForOther)

    spared-IsKept : IsKept d IsOther (λ v. Unit {0}) (λ es. All ForOther (commands es)) force
    spared-IsKept = Sent-IsKept d IsOther (λ v. Unit {0}) (All ForOther) force others-Keeps

    -- A claim is of the key alone, and the rounds of other keys leave it as it is.
    LiveClaim-same :
        (r : Repo) (c c' : Cursor)
        → entry (key r) c' ≡ entry (key repo) c
        → LiveClaim d c repo latest
        → LiveClaim d c' r latest
    LiveClaim-same r c c' same claim = record {
      state = claim.state;
      since = claim.since;
      recorded = same ∙ claim.recorded;
      targeted = claim.targeted;
      dated = claim.dated;
      in_time = claim.in_time;
    }

    own_round-Spared :
        (r : Repo) (w : World E)
        → key r ≡ key repo
        → LiveClaim d w.cursor repo latest
        → Spared w
        → Spared (process_repo d (poll_chain d force) latest r w).1
    own_round-Spared r w same claim h =
        subst (All ForOther)
          (sym (
            process_repo_claimed d is_allowed allowlist wired force latest r w
              (LiveClaim-same r w.cursor w.cursor (ap (λ k. entry k w.cursor) same) claim)))
          h

    process_repos-Spared :
        (repos : List Repo) (w : World E)
        → ListedOnce repos
        → LiveClaim d w.cursor repo latest
        → Spared w
        → Spared (process_repos d (poll_chain d force) latest repos w).1
    unfolding process_repos
    process_repos-Spared [] w once claim h = h
    process_repos-Spared (r ∷ rs) w (single, once) claim h =
        let w₁ : World E = record w { env = (d.ctx_done w.env).1 } in
        elim (text_dec (key r) (key repo)) [
          | yes same ↦
              let h₁ = own_round-Spared r w₁ same claim h in
              unless_done-keeps d Spared (d.ctx_done w.env).0 _ h (
                unless_aborted-keeps d Spared (process_repo d (poll_chain d force) latest r w₁).0 _
                  h₁
                  (process_repos-Inv d IsOther (λ v. Unit {0}) (λ es. All ForOther (commands es))
                    force spared-IsKept latest tt rs _ (single same) h₁))
          | no other ↦
              let h₁ =
                process_repo-Sent d IsOther (λ v. Unit {0}) (All ForOther) (poll_chain d force)
                  others-Keeps latest r w₁ tt other h in
              unless_done-keeps d Spared (d.ctx_done w.env).0 _ h (
                unless_aborted-keeps d Spared (process_repo d (poll_chain d force) latest r w₁).0 _
                  h₁
                  (process_repos-Spared rs _ once
                    (LiveClaim-same repo w₁.cursor _
                      (process_repo-entry_other d r (key repo) other (poll_chain d force) latest w₁)
                      claim)
                    h₁))
        ]

    module _
        (listing : (e : E) (repos : List Repo)
          → (d.github.list_repos d.owner e).0 ≡ ok repos
          → ListedOnce repos)
        (target : (e : E) (v : Version) → (d.latest_stable e).0 ≡ ok v → v ≡ latest) where
      scan_repos-Spared :
          (repos : Result (List Repo)) (w : World E)
          → ((rs : List Repo) → repos ≡ ok rs → ListedOnce rs)
          → LiveClaim d w.cursor repo latest
          → Spared w
          → Spared (scan_repos d force latest repos w).1
      unfolding scan_repos commands
      scan_repos-Spared (err Error.rate_limited) w once claim h = h
      scan_repos-Spared (err failed) w once claim h = h
      scan_repos-Spared (ok repos) w once claim h =
          after_process-Inv d IsOther (λ v. Unit {0}) (λ es. All ForOther (commands es)) force
            spared-IsKept repos _ _ (process_repos-Spared repos _ (once repos refl) claim h)

      with_latest-Spared :
          (found : Result Version) (w : World E)
          → ((v : Version) → found ≡ ok v → v ≡ latest)
          → LiveClaim d w.cursor repo latest
          → Spared w
          → Spared (with_latest d force found w).1
      unfolding with_latest commands
      with_latest-Spared (err e) w same claim h = h
      with_latest-Spared (ok v) w same claim h =
          subst (λ x. Spared (with_latest d force (ok x) w).1) (sym (same v refl))
            (scan_repos-Spared _ _ (listing w.env) claim h)

      with_cursor-Spared :
          (cursor : Cursor) (w : World E)
          → LiveClaim d cursor repo latest
          → Spared w
          → Spared (with_cursor d force (ok cursor) w).1
      unfolding with_cursor
      with_cursor-Spared cursor w claim h = with_latest-Spared _ _ (target w.env) claim h

      -- With the static chain wired in, a cycle, forced or not, sends no task for a repository whose
      -- stored claim is live for the stable release that a lookup finds, if any, and whose key GitHub
      -- lists at most once, if all tasks sent before are for other repositories.
      pub poll-Spared :
          (cursor : Cursor) (w : World E)
          → (load_cursor d.files d.codec d.cursor_path w.env).0 ≡ ok cursor
          → LiveClaim d cursor repo latest
          → Spared w
          → Spared (poll d force w).1
      unfolding poll
      poll-Spared cursor w loaded claim h = rw (loaded) (with_cursor-Spared cursor _ claim h)
