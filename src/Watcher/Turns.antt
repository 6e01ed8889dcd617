-- ===== src/Watcher/Turns.antt =====
-- The order of what the first pass of pkg/watcher.go sends.
pub mod Cycle
use mathlib.Core.Path.{subst}
use github_update_go_watcher.Candidate.{Candidate}
use github_update_go_watcher.Common.{
  Bool, true, false, List, [], ◌∷◌, Option, none, some, ◌≡◌, ◌⊎◌, ◌∙◌, refl, sym, inl, inr, Result,
  ok, err, Error, failed,
}
use github_update_go_watcher.Cursor.{Cursor}
use github_update_go_watcher.Cursor.Store.{load_cursor}
use github_update_go_watcher.Filter.{SkipReason}
use github_update_go_watcher.Repo.{Repo}
use github_update_go_watcher.Task.{CreateCommand, build_create_command, build_decision_command}
use github_update_go_watcher.Version.{Version}
use github_update_go_watcher.Watcher.Commands.{
  after_filter-commands, commands, complete_repo-commands, gate_repo-commands,
  gather_candidate-commands, gather_candidate-repo, suppress_in_flight-commands,
}
use github_update_go_watcher.Watcher.Gate.{GateOutcome, pass, skipped, gate_aborted}
use github_update_go_watcher.Watcher.Loops.{complete_merged_updates-keeps}
use github_update_go_watcher.Watcher.Observe.{Gathered, gathered, aborted, dropped}
use github_update_go_watcher.Watcher.Poll.{
  after_complete, after_process, poll, save, scan_repos, with_cursor, with_latest,
}
use github_update_go_watcher.Watcher.Process.{
  CycleFilter, after_filter, after_gate, after_gather, after_suppress, process_repo, process_repos,
}
use github_update_go_watcher.Watcher.State.{
  M, PollResult, World, Watcher, unless_aborted, unless_done,
}

module _ {E : Type 0} (d : Watcher E) where
  -- One of the two commands for a candidate.
  abbrev pub IsTaskOf : Candidate → CreateCommand → Type 0
  IsTaskOf c cmd =
      (cmd ≡ build_create_command d.new_sha1 c d.task_config)
      ⊎ (cmd ≡ build_decision_command d.new_sha1 c d.task_config)

  -- The repositories take turns, and each sends one command, of a candidate of its own, or none; the
  -- turns may end before the repositories do. The commands before and behind are newest first.
  pub data Turns : List Repo → List CreateCommand → List CreateCommand → Type 0 where
    ended : {repos : List Repo} {cs : List CreateCommand} → Turns repos cs cs
    silent :
        {r : Repo} {repos : List Repo} {cs ds : List CreateCommand}
        → Turns repos cs ds
        → Turns (r ∷ repos) cs ds
    sends :
        {r : Repo} {repos : List Repo} {cs ds : List CreateCommand} (c : Candidate)
        (cmd : CreateCommand)
        → c.repo ≡ r
        → IsTaskOf c cmd
        → Turns repos (cmd ∷ cs) ds
        → Turns (r ∷ repos) cs ds

  -- What a turn adds.
  abbrev AddsOne : Repo → List CreateCommand → List CreateCommand → Type 0
  AddsOne r cs ds =
      (ds ≡ cs)
      ⊎ ((c : Candidate) × (cmd : CreateCommand) × (c.repo ≡ r) × IsTaskOf c cmd × (ds ≡ cmd ∷ cs))

  after_filter-AddsOne :
      (r : Repo) (c : Candidate) (reason : Option SkipReason) (w : World E)
      → c.repo ≡ r
      → AddsOne r (commands w.events) (commands (after_filter d r c reason w).1.events)
  after_filter-AddsOne r c reason w own = elim (after_filter-commands d r c reason w) [
    | inl (same, _, _) ↦ inl same
    | inr (inl (_, added)) ↦ inr (c, _, own, inl refl, added)
    | inr (inr (_, added)) ↦ inr (c, _, own, inr refl, added)
  ]

  after_suppress-AddsOne :
      (chain : CycleFilter) (r : Repo) (c : Candidate) (held : Bool) (w : World E)
      → c.repo ≡ r
      → AddsOne r (commands w.events) (commands (after_suppress d chain r c held w).1.events)
  unfolding after_suppress
  after_suppress-AddsOne chain r c true w own = inl refl
  after_suppress-AddsOne chain r c false w own = after_filter-AddsOne r c _ w own

  after_gate-AddsOne :
      (chain : CycleFilter) (r : Repo) (c : Candidate) (o : GateOutcome) (w : World E)
      → c.repo ≡ r
      → AddsOne r (commands w.events) (commands (after_gate d chain r c o w).1.events)
  unfolding after_gate
  after_gate-AddsOne chain r c gate_aborted w own = inl refl
  after_gate-AddsOne chain r c skipped w own = inl refl
  after_gate-AddsOne chain r c pass w own =
      subst (λ cs. AddsOne r cs (commands (after_gate d chain r c pass w).1.events))
        (suppress_in_flight-commands d r c w) (after_suppress-AddsOne chain r c _ _ own)

  after_gather-AddsOne :
      (chain : CycleFilter) (r : Repo) (g : Gathered) (w : World E)
      → ((c : Candidate) → g ≡ gathered c → c.repo ≡ r)
      → AddsOne r (commands w.events) (commands (after_gather d chain r g w).1.events)
  unfolding after_gather
  after_gather-AddsOne chain r (aborted reason) w own = inl refl
  after_gather-AddsOne chain r dropped w own = inl refl
  after_gather-AddsOne chain r (gathered c) w own =
      subst (λ cs. AddsOne r cs (commands (after_gather d chain r (gathered c) w).1.events))
        (gate_repo-commands d r c w) (after_gate-AddsOne chain r c _ _ (own c refl))

  process_repo-AddsOne :
      (chain : CycleFilter) (latest : Version) (r : Repo) (w : World E)
      → AddsOne r (commands w.events) (commands (process_repo d chain latest r w).1.events)
  unfolding process_repo
  process_repo-AddsOne chain latest r w =
      subst (λ cs. AddsOne r cs (commands (process_repo d chain latest r w).1.events))
        (gather_candidate-commands d r latest w)
        (after_gather-AddsOne chain r _ _ (λ c h. (gather_candidate-repo d r latest w c h).0))

  -- A turn, and what follows it.
  turn :
      {r : Repo} {repos : List Repo} {cs bs ds : List CreateCommand}
      → AddsOne r cs bs
      → Turns repos bs ds
      → Turns (r ∷ repos) cs ds
  turn {repos = repos} {ds = ds} (inl same) more = silent (subst (λ x. Turns repos x ds) same more)
  turn {repos = repos} {ds = ds} (inr (c, cmd, own, task, added)) more =
      sends c cmd own task (subst (λ x. Turns repos x ds) added more)

  unless_done-Turns :
      (repos : List Repo) (done : Bool) (more : M E (Option PollResult)) (w : World E)
      → Turns repos (commands w.events) (commands (more w).1.events)
      → Turns repos (commands w.events) (commands (unless_done done more w).1.events)
  unfolding unless_done
  unless_done-Turns repos true more w h = ended
  unless_done-Turns repos false more w h = h

  unless_aborted-Turns :
      (repos : List Repo) (reason : Option PollResult) (more : M E (Option PollResult))
      (w : World E)
      → Turns repos (commands w.events) (commands (more w).1.events)
      → Turns repos (commands w.events) (commands (unless_aborted reason more w).1.events)
  unfolding unless_aborted
  unless_aborted-Turns repos (some reason) more w h = ended
  unless_aborted-Turns repos none more w h = h

  pub process_repos-Turns :
      (chain : CycleFilter) (latest : Version) (repos : List Repo) (w : World E)
      → Turns repos (commands w.events) (commands (process_repos d chain latest repos w).1.events)
  unfolding process_repos
  process_repos-Turns chain latest [] w = ended
  process_repos-Turns chain latest (r ∷ repos) w =
      let w₁ : World E = record w { env = (d.ctx_done w.env).1 } in
      let w₂ : World E = (process_repo d chain latest r w₁).1 in
      unless_done-Turns (r ∷ repos) (d.ctx_done w.env).0 _ w₁ (
        turn (process_repo-AddsOne chain latest r w₁) (
          unless_aborted-Turns repos (process_repo d chain latest r w₁).0 _ w₂
            (process_repos-Turns chain latest repos w₂)))
