-- ===== src/Watcher/Aborted.antt =====
-- A first pass of pkg/watcher.go that is throttled behind a publish: the cycle saves nothing.
use mathlib.Core.Path.{subst}
use github_update_go_watcher.Common.{
  Bool, false, List, ◌∷◌, Option, none, some, ◌≡◌, ◌≢◌, ◌∙◌, refl, sym, ap, Text, Error, ok, err,
}
use github_update_go_watcher.Cursor.{Cursor, entry}
use github_update_go_watcher.Cursor.Durable.{Disk}
use github_update_go_watcher.Cursor.Store.{load_cursor}
use github_update_go_watcher.Repo.{Repo, key}
use github_update_go_watcher.Task.{CreateCommand, build_create_command}
use github_update_go_watcher.Version.{Version}
use github_update_go_watcher.Watcher.Answered.{poll-scan_repos}
use github_update_go_watcher.Watcher.Authority.{IsWired}
use github_update_go_watcher.Watcher.Commands.{commands, gather_candidate-commands, poll_chain}
use github_update_go_watcher.Watcher.GoesOn.{process_repo_goes_on}
use github_update_go_watcher.Watcher.Delivery.{IsDue, due_candidate, process_repo_due}
use github_update_go_watcher.Watcher.Observe.{Gathered, aborted, gather_candidate}
use github_update_go_watcher.Watcher.Poll.{after_process, poll, scan_repos}
use github_update_go_watcher.Watcher.Process.{
  CycleFilter, after_gather, process_repo, process_repos,
}
use github_update_go_watcher.Watcher.Separate.{IsSeparate, load_stored, stored}
use github_update_go_watcher.Watcher.State.{PollResult, World, Watcher, unless_aborted, unless_done}
use github_update_go_watcher.Watcher.Stored.{load_cursor-stored, process_repos-stored}

module _ {E : Type 0} (d : Watcher E) where
  -- The world behind the question whether the context is done.
  abbrev asked : World E → World E
  asked w = record w { env = (d.ctx_done w.env).1 }

  module _ (chain : CycleFilter) (latest : Version) (blocked : Repo)
      (throttled : (e : E) → (d.github.get_head_sha blocked e).0 ≡ err Error.rate_limited) where
    gather_blocked :
        (w : World E) → (gather_candidate d blocked latest w).0 ≡ aborted PollResult.rate_limited
    unfolding gather_candidate
    gather_blocked w = rw (throttled w.env) refl

    after_gather_aborted :
        (g : Gathered) (w : World E)
        → g ≡ aborted PollResult.rate_limited
        → after_gather d chain blocked g w ≡ (some PollResult.rate_limited, w)
    unfolding after_gather
    after_gather_aborted g w h = rw (h) refl

    process_repo_blocked :
        (w : World E)
        → process_repo d chain latest blocked w
          ≡ (some PollResult.rate_limited, (gather_candidate d blocked latest w).1)
    unfolding process_repo
    process_repo_blocked w = after_gather_aborted _ _ (gather_blocked w)

    -- A pass that goes on behind its first repository and is throttled at its second one.
    process_repos_blocked :
        (live : (e : E) → (d.ctx_done e).0 ≡ false)
        → (repo : Repo) (rest : List Repo) (w : World E)
        → (process_repo d chain latest repo (asked w)).0 ≡ none
        → process_repos d chain latest (repo ∷ blocked ∷ rest) w ≡ (
          some PollResult.rate_limited,
          (gather_candidate d blocked latest
              (asked (process_repo d chain latest repo (asked w)).1)).1,
        )
    unfolding process_repos unless_done unless_aborted
    process_repos_blocked live repo rest w goes_on = rw (live w.env) (
        rw (goes_on) (
          rw (live (process_repo d chain latest repo (asked w)).1.env) (
            rw (process_repo_blocked (asked (process_repo d chain latest repo (asked w)).1)) refl)))

module _ {E : Type 0} (d : Watcher E) (disk : Disk E d.files) (separate : IsSeparate d disk)
    (is_allowed : List Text → Text → Bool) (allowlist : List Text)
    (wired : IsWired d is_allowed allowlist) (force : Bool) (latest : Version) (repo : Repo)
    (sha : Text) (current : Version) (blocked : Repo) (rest : List Repo)
    (throttled : (e : E) → (d.github.get_head_sha blocked e).0 ≡ err Error.rate_limited)
    (live : (e : E) → (d.ctx_done e).0 ≡ false)
    (listing : (e : E) → (d.github.list_repos d.owner e).0 ≡ ok (repo ∷ blocked ∷ rest))
    (stable : (e : E) → (d.latest_stable e).0 ≡ ok latest) where
  abbrev pub sent_task : CreateCommand
  sent_task =
      build_create_command d.new_sha1
        (due_candidate d is_allowed allowlist force latest repo sha current) d.task_config

  abbrev Due : Cursor → Type 0
  Due c = IsDue d is_allowed allowlist force latest repo sha current (entry (key repo) c)

  abbrev chain : CycleFilter
  chain = poll_chain d force

  pass_blocked :
      (w : World E)
      → Due w.cursor
      → process_repos d chain latest (repo ∷ blocked ∷ rest) w ≡ (
        some PollResult.rate_limited,
        (gather_candidate d blocked latest
            (asked d (process_repo d chain latest repo (asked d w)).1)).1,
      )
  pass_blocked w due = process_repos_blocked d chain latest blocked throttled live repo rest w (
      process_repo_goes_on d is_allowed allowlist force latest repo sha current (asked d w) due
        wired)

  pass_sends :
      (w : World E)
      → Due w.cursor
      → commands (process_repos d chain latest (repo ∷ blocked ∷ rest) w).1.events
        ≡ sent_task ∷ commands w.events
  pass_sends w due =
      ap (λ x. commands x.1.events) (pass_blocked w due)
      ∙ (gather_candidate-commands d blocked latest
            (asked d (process_repo d chain latest repo (asked d w)).1)
          ∙ process_repo_due d is_allowed allowlist force latest repo sha current (asked d w) due
              wired)

  -- The task is sent, and the file is as it was.
  abbrev Repeats : World E → World E → Type 0
  Repeats w w' =
      (commands w'.events ≡ sent_task ∷ commands w.events)
      × (stored d disk w'.env ≡ stored d disk w.env)

  after_process_aborted :
      (repos : List Repo) (reason : Option PollResult) (w v : World E)
      → reason ≡ some PollResult.rate_limited
      → commands v.events ≡ sent_task ∷ commands w.events
      → stored d disk v.env ≡ stored d disk w.env
      → Repeats w (after_process d repos reason v).1
  unfolding after_process commands
  after_process_aborted repos none w v h sent kept = cc
  after_process_aborted repos (some reason) w v h sent kept = (sent, kept)

  scan_repos_aborted :
      (w : World E)
      → Due w.cursor
      → Repeats w (scan_repos d force latest (ok (repo ∷ blocked ∷ rest)) w).1
  unfolding scan_repos commands
  scan_repos_aborted w due =
      after_process_aborted _ _ w _ (ap (λ x. x.0) (pass_blocked _ due)) (pass_sends _ due)
        (process_repos-stored d disk separate (stored d disk w.env) force latest _ _ refl)

  poll_aborted :
      (t : Text) (c : Cursor) (w : World E)
      → stored d disk w.env ≡ some t
      → d.codec.unmarshal t ≡ some c
      → c.repos ≢ none
      → Due c
      → Repeats w (poll d force w).1
  poll_aborted t c w there read filled due =
      let (v, cursor, events, env, passes) =
        poll-scan_repos d force latest (repo ∷ blocked ∷ rest) listing stable c w
          (load_stored d disk t c w.env there read filled) in
      let (sent, kept) = scan_repos_aborted v (subst Due (sym cursor) due) in
      let e₁ : E = (load_cursor d.files d.codec d.cursor_path w.env).1 in
      (
        ap (λ x. commands x.1.events) passes ∙ (sent ∙ ap (λ x. sent_task ∷ commands x) events),
        ap (λ x. stored d disk x.1.env) passes
            ∙ (kept
                ∙ (ap (stored d disk) env
                    ∙ (separate.by_listing d.owner (d.latest_stable e₁).1
                        ∙ (separate.by_release e₁
                            ∙ (load_cursor-stored d disk separate t c w.env there read
                                ∙ sym there))))),
      )

  -- A cycle that sends the update task of the first repository and is throttled at the second one
  -- stores nothing, so the next cycle sends the same task again: with the static chain wired in, a live
  -- context, a release and a listing that are answered, a file of the cursor that no other
  -- collaborator touches, and an update that is due by the stored cursor.
  pub poll_aborted_again :
      (t : Text) (c : Cursor) (w : World E)
      → stored d disk w.env ≡ some t
      → d.codec.unmarshal t ≡ some c
      → c.repos ≢ none
      → Due c
      → commands (poll d force (poll d force w).1).1.events
        ≡ sent_task ∷ sent_task ∷ commands w.events
  poll_aborted_again t c w there read filled due =
      let (sent, kept) = poll_aborted t c w there read filled due in
      let (again, _) = poll_aborted t c (poll d force w).1 (kept ∙ there) read filled due in
      again ∙ ap (λ x. sent_task ∷ x) sent
