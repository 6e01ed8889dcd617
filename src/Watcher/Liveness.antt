-- ===== src/Watcher/Liveness.antt =====
-- A cycle of pkg/watcher.go that is not interrupted files the task of each repository whose update is
-- due.
use mathlib.Core.Path.{subst}
use github_update_go_watcher.Common.{
  ap, ◌∙◌, Member, Bool, false, List, [], ◌∷◌, ◌++◌, none, ◌≡◌, ◌≢◌, inl, inr, refl, sym, arith,
  Text, All, All-intro, Error, ok, err,
}
use github_update_go_watcher.Candidate.{Candidate}
use github_update_go_watcher.Cursor.{Cursor, entry}
use github_update_go_watcher.Cursor.Store.{load_cursor}
use github_update_go_watcher.Repo.{Repo, key}
use github_update_go_watcher.Task.{CreateCommand, build_create_command}
use github_update_go_watcher.Version.{Version}
use github_update_go_watcher.Watcher.Approval.{Keeps, Sent-IsKept, process_repo-Sent}
use github_update_go_watcher.Watcher.Walk.{IsKept, process_repos-Inv, after_process-Inv}
use github_update_go_watcher.Watcher.Answered.{poll-scan_repos}
use github_update_go_watcher.Watcher.Authority.{IsWired}
use github_update_go_watcher.Watcher.Commands.{commands, poll_chain}
use github_update_go_watcher.Watcher.Delivery.{
  IsDue, after_suppress-none, due_candidate, process_repo_due,
}
use github_update_go_watcher.Watcher.Frame.{process_repo-entry_other}
use github_update_go_watcher.Watcher.Gate.{GateOutcome, pass, skipped, gate_aborted, gate_repo}
use github_update_go_watcher.Watcher.Observe.{
  Gathered, gathered, aborted, dropped, gather_candidate,
}
use github_update_go_watcher.Watcher.Poll.{poll, scan_repos}
use github_update_go_watcher.Watcher.Process.{
  CycleFilter, process_repo, process_repos, after_gather, after_gate,
}
use github_update_go_watcher.Watcher.State.{PollResult, World, Watcher, unless_done, unless_aborted}

module _ {E : Type 0} (d : Watcher E) where
  -- Nothing ends the first pass early: GitHub throttles no read of it, and the context is live.
  pub record IsCalm : Type 0 where
    pub head_unlimited : (r : Repo) (e : E) → (d.github.get_head_sha r e).0 ≢ err Error.rate_limited
    pub go_mod_unlimited : (r : Repo) (e : E) → (d.github.get_go_mod r e).0 ≢ err Error.rate_limited
    pub consent_unlimited :
        (r : Repo) (e : E) → (d.github.get_maintainer_config r e).0 ≢ err Error.rate_limited
    pub open_pr_unlimited :
        (r : Repo) (e : E) → (d.github.has_open_update_pr r e).0 ≢ err Error.rate_limited
    pub live : (e : E) → (d.ctx_done e).0 ≡ false

  module _ (calm : IsCalm) where
    gather_calm :
        (repo : Repo) (latest : Version) (w : World E) (reason : PollResult)
        → (gather_candidate d repo latest w).0 ≢ aborted reason
    unfolding gather_candidate
    gather_calm repo latest w reason h =
        let e₁ = (d.github.get_head_sha repo w.env).1 in
        let e₂ = (d.github.get_go_mod repo e₁).1 in
        ground (
          arith,
          calm.head_unlimited repo w.env,
          calm.go_mod_unlimited repo e₁,
          calm.consent_unlimited repo e₂,
          h,
        )

    gate_calm :
        (repo : Repo) (c : Candidate) (w : World E) → (gate_repo d repo c w).0 ≢ gate_aborted
    unfolding gate_repo
    gate_calm repo c w h = ground (arith, calm.open_pr_unlimited repo w.env, h)

    after_gate_calm :
        (chain : CycleFilter) (repo : Repo) (c : Candidate) (o : GateOutcome) (w : World E)
        → o ≢ gate_aborted
        → (after_gate d chain repo c o w).0 ≡ none
    unfolding after_gate
    after_gate_calm chain repo c gate_aborted w h = absurd (h refl)
    after_gate_calm chain repo c skipped w h = refl
    after_gate_calm chain repo c pass w h = after_suppress-none d chain repo c _ _

    after_gather_calm :
        (chain : CycleFilter) (repo : Repo) (g : Gathered) (w : World E)
        → ((reason : PollResult) → g ≢ aborted reason)
        → (after_gather d chain repo g w).0 ≡ none
    unfolding after_gather
    after_gather_calm chain repo (aborted reason) w h = absurd (h reason refl)
    after_gather_calm chain repo dropped w h = refl
    after_gather_calm chain repo (gathered c) w h =
        after_gate_calm chain repo c _ _ (gate_calm repo c w)

    process_repo_calm :
        (chain : CycleFilter) (latest : Version) (repo : Repo) (w : World E)
        → (process_repo d chain latest repo w).0 ≡ none
    unfolding process_repo
    process_repo_calm chain latest repo w =
        after_gather_calm chain repo _ _ (gather_calm repo latest w)

    -- A calm loop goes on to the next repository.
    pub process_repos_calm :
        (chain : CycleFilter) (latest : Version) (repo : Repo) (repos : List Repo) (w : World E)
        → process_repos d chain latest (repo ∷ repos) w
          ≡ process_repos d chain latest repos
              (process_repo d chain latest repo (record w { env = (d.ctx_done w.env).1 })).1
    unfolding process_repos unless_done unless_aborted
    process_repos_calm chain latest repo repos w =
        rw (calm.live w.env) (rw (process_repo_calm chain latest repo _) refl)

module _ {E : Type 0} (d : Watcher E) (is_allowed : List Text → Text → Bool) (allowlist : List Text)
    (wired : IsWired d is_allowed allowlist) (calm : IsCalm d) (force : Bool) (latest : Version)
    (repo : Repo) (sha : Text) (current : Version) where
  -- The update task of the repository.
  abbrev pub due_task : CreateCommand
  due_task =
      build_create_command d.new_sha1
        (due_candidate d is_allowed allowlist force latest repo sha current) d.task_config

  abbrev IsDueIn : World E → Type 0
  IsDueIn w = IsDue d is_allowed allowlist force latest repo sha current (entry (key repo) w.cursor)

  -- The commands are those of the past, and newer ones.
  abbrev Extends : List CreateCommand → List CreateCommand → Type 0
  Extends past cs = (new : List CreateCommand) × (cs ≡ new ++ past)

  -- The update task is among the commands that are newer than the past.
  abbrev pub Adds : List CreateCommand → List CreateCommand → Type 0
  Adds past cs = (new : List CreateCommand) × (cs ≡ new ++ past) × Member due_task new

  abbrev Anyone : Repo → Type 0
  Anyone r = Unit

  abbrev Anything : Version → Type 0
  Anything v = Unit

  module _ (past : List CreateCommand) where
    abbrev Filed : World E → Type 0
    Filed w = Adds past (commands w.events)

    Extends-later :
        (cmd : CreateCommand) (cs : List CreateCommand) → Extends past cs → Extends past (cmd ∷ cs)
    Extends-later cmd cs (new, e) = (cmd ∷ new, ap (λ l. cmd ∷ l) e)

    Adds-later :
        (cmd : CreateCommand) (cs : List CreateCommand) → Adds past cs → Adds past (cmd ∷ cs)
    Adds-later cmd cs (new, e, m) = (cmd ∷ new, ap (λ l. cmd ∷ l) e, inr m)

    Extends-Keeps : (chain : CycleFilter) → Keeps d Anyone Anything (Extends past) chain
    Extends-Keeps chain = record {
      on_pass = λ cursor c _ _ sent h. Extends-later _ sent h;
      on_undecided = λ cursor c _ _ sent h. Extends-later _ sent h;
    }

    filed-Keeps : (chain : CycleFilter) → Keeps d Anyone Anything (Adds past) chain
    filed-Keeps chain = record {
      on_pass = λ cursor c _ _ sent h. Adds-later _ sent h;
      on_undecided = λ cursor c _ _ sent h. Adds-later _ sent h;
    }

    filed-IsKept : IsKept d Anyone Anything (λ es. Adds past (commands es)) force
    filed-IsKept = Sent-IsKept d Anyone Anything (Adds past) force (filed-Keeps _)

    process_repos-Filed :
        (repos : List Repo) (w : World E)
        → Filed w
        → Filed (process_repos d (poll_chain d force) latest repos w).1
    process_repos-Filed repos w h =
        process_repos-Inv d Anyone Anything (λ es. Adds past (commands es)) force filed-IsKept
          latest tt repos w (All-intro _ (λ r. tt) repos) h

    -- The round of the repository adds its task to the commands of the past and of the rounds before.
    own_round-Filed :
        (w : World E)
        → Extends past (commands w.events)
        → IsDueIn w
        → Filed (process_repo d (poll_chain d force) latest repo w).1
    own_round-Filed w (new, e) due = (
      due_task ∷ new,
      process_repo_due d is_allowed allowlist force latest repo sha current w due wired
          ∙ ap (λ l. due_task ∷ l) e,
      inl refl,
    )

    -- The rounds before that of the repository leave its entry alone, so its update stays due.
    process_repos_due :
        (before after : List Repo) (w : World E)
        → All (λ r. key r ≢ key repo) before
        → Extends past (commands w.events)
        → IsDueIn w
        → Filed (process_repos d (poll_chain d force) latest (before ++ repo ∷ after) w).1
    process_repos_due [] after w others so_far due =
        rw (process_repos_calm d calm (poll_chain d force) latest repo after w) (
          process_repos-Filed after _
            (own_round-Filed (record w { env = (d.ctx_done w.env).1 }) so_far due))
    process_repos_due (r ∷ before) after w (other, others) so_far due =
        let w₁ : World E = record w { env = (d.ctx_done w.env).1 } in
        rw (process_repos_calm d calm (poll_chain d force) latest r (before ++ repo ∷ after) w) (
          process_repos_due before after _ others
            (process_repo-Sent d Anyone Anything (Extends past) (poll_chain d force)
              (Extends-Keeps _) latest r w₁ tt tt so_far)
            (subst (IsDue d is_allowed allowlist force latest repo sha current)
              (sym (process_repo-entry_other d r (key repo) other (poll_chain d force) latest w₁))
              due))

  module _ (before after : List Repo) (others : All (λ r. key r ≢ key repo) before)
      (listing : (e : E) → (d.github.list_repos d.owner e).0 ≡ ok (before ++ repo ∷ after))
      (stable : (e : E) → (d.latest_stable e).0 ≡ ok latest) where
    scan_repos_due :
        (past : List CreateCommand) (w : World E)
        → commands w.events ≡ past
        → IsDueIn w
        → Adds past (commands (scan_repos d force latest (ok (before ++ repo ∷ after)) w).1.events)
    unfolding scan_repos commands
    scan_repos_due past w so_far due =
        after_process-Inv d Anyone Anything (λ es. Adds past (commands es)) force
          (filed-IsKept past) _ _ _ (process_repos_due past before after _ others ([], so_far) due)

    -- With the static chain wired in, a live context, and neither a throttled read nor a failed lookup
    -- or listing, a cycle sends, newly, the update task of a listed repository whose update is due by
    -- the stored cursor, and whose key none of those listed before it has.
    pub poll_due :
        (cursor : Cursor) (w : World E)
        → (load_cursor d.files d.codec d.cursor_path w.env).0 ≡ ok cursor
        → IsDue d is_allowed allowlist force latest repo sha current (entry (key repo) cursor)
        → Adds (commands w.events) (commands (poll d force w).1.events)
    poll_due cursor w loaded due =
        let (v, same, kept, _, passes) =
          poll-scan_repos d force latest (before ++ repo ∷ after) listing stable cursor w loaded in
        subst (λ x. Adds (commands w.events) (commands x.1.events)) (sym passes)
          (scan_repos_due (commands w.events) v (ap commands kept) (
            subst
              (λ x. IsDue d is_allowed allowlist force latest repo sha current (entry (key repo) x))
              (sym same) due))
