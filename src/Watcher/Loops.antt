-- ===== src/Watcher/Loops.antt =====
-- The rules of the two loops of pkg/watcher.go: what every round keeps, the loop keeps. A context may
-- be cancelled, and a round may abort, at any repository.
use github_update_go_watcher.Common.{Bool, true, false, List, [], ◌∷◌, Option, none, some, All}
use github_update_go_watcher.Repo.{Repo}
use github_update_go_watcher.Version.{Version}
use github_update_go_watcher.Watcher.Complete.{complete_repo, complete_merged_updates}
use github_update_go_watcher.Watcher.Process.{CycleFilter, process_repo, process_repos}
use github_update_go_watcher.Watcher.State.{
  World, Watcher, M, PollResult, unless_done, unless_aborted,
}

module _ {E : Type 0} (d : Watcher E) (Inv : World E → Type 0) where
  -- Asking whether the context is done keeps the invariant.
  abbrev pub IsKeptByAsking : Type 0
  IsKeptByAsking = (w : World E) → Inv w → Inv (record w { env = (d.ctx_done w.env).1 })

  pub unless_done-keeps :
      (done : Bool) (more : M E (Option PollResult)) {w : World E}
      → Inv w
      → Inv (more w).1
      → Inv (unless_done done more w).1
  unfolding unless_done
  unless_done-keeps true more h k = h
  unless_done-keeps false more h k = k

  pub unless_aborted-keeps :
      (reason : Option PollResult) (more : M E (Option PollResult)) {w : World E}
      → Inv w
      → Inv (more w).1
      → Inv (unless_aborted reason more w).1
  unfolding unless_aborted
  unless_aborted-keeps (some reason) more h k = h
  unless_aborted-keeps none more h k = k

  pub process_repos-keeps :
      IsKeptByAsking
      → (chain : CycleFilter) (latest : Version) → (Q : Repo → Type 0)
      → ((repo : Repo) (w : World E) → Q repo → Inv w → Inv (process_repo d chain latest repo w).1)
      → (repos : List Repo) (w : World E) → All Q repos
      → Inv w
      → Inv (process_repos d chain latest repos w).1
  unfolding process_repos
  process_repos-keeps asked chain latest Q body [] w q h = h
  process_repos-keeps asked chain latest Q body (repo ∷ repos) w (q, qs) h =
      let w₁ : World E = record w { env = (d.ctx_done w.env).1 } in
      let h₁ : Inv w₁ = asked w h in
      let h₂ = body repo w₁ q h₁ in
      unless_done-keeps (d.ctx_done w.env).0 _ h₁ (
        unless_aborted-keeps (process_repo d chain latest repo w₁).0 _ h₂
          (process_repos-keeps asked chain latest Q body repos _ qs h₂))

  pub complete_merged_updates-keeps :
      IsKeptByAsking
      → ((repo : Repo) (w : World E) → Inv w → Inv (complete_repo d repo w).1)
      → (repos : List Repo) (w : World E) → Inv w
      → Inv (complete_merged_updates d repos w).1
  unfolding complete_merged_updates
  complete_merged_updates-keeps asked body [] w h = h
  complete_merged_updates-keeps asked body (repo ∷ repos) w h =
      let w₁ : World E = record w { env = (d.ctx_done w.env).1 } in
      let h₁ : Inv w₁ = asked w h in
      let h₂ = body repo w₁ h₁ in
      unless_done-keeps (d.ctx_done w.env).0 _ h₁ (
        unless_aborted-keeps (complete_repo d repo w₁).0 _ h₂
          (complete_merged_updates-keeps asked body repos _ h₂))
