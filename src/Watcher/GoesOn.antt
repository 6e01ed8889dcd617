-- ===== src/Watcher/GoesOn.antt =====
-- A round of pkg/watcher.go for a repository whose update is due does not end the pass.
use github_update_go_watcher.Common.{Bool, List, none, ◌≡◌, sym, Text}
use github_update_go_watcher.Cursor.{entry}
use github_update_go_watcher.Repo.{Repo, key}
use github_update_go_watcher.Version.{Version}
use github_update_go_watcher.Watcher.Authority.{IsWired}
use github_update_go_watcher.Watcher.Commands.{poll_chain}
use mathlib.Core.Path.{subst}
use github_update_go_watcher.Watcher.Gate.{GateOutcome, pass, skipped, gate_aborted}
use github_update_go_watcher.Watcher.Observe.{Gathered, gathered}
use github_update_go_watcher.Watcher.Process.{process_repo, after_gather, after_gate}
use github_update_go_watcher.Watcher.State.{World, Watcher}
use github_update_go_watcher.Watcher.Delivery.{
  IsDue, after_suppress-none, due_candidate, gate_due, gather_due,
}

module _ {E : Type 0} (d : Watcher E) (is_allowed : List Text → Text → Bool) (allowlist : List Text)
    (force : Bool) (latest : Version) (repo : Repo) where
  module _ (sha : Text) (current : Version) (w : World E)
      (due : IsDue d is_allowed allowlist force latest repo sha current (entry (key repo) w.cursor))
      (wired : IsWired d is_allowed allowlist) where
    after_gate_goes_on :
        (o : GateOutcome) (v : World E)
        → o ≡ pass
        → (after_gate d
            (poll_chain d force)
            repo
            (due_candidate d is_allowed allowlist force latest repo sha current)
            o
            v).0
          ≡ none
    unfolding after_gate
    after_gate_goes_on gate_aborted v h = cc
    after_gate_goes_on skipped v h = cc
    after_gate_goes_on pass v h = after_suppress-none d (poll_chain d force) repo _ _ _

    after_gather_goes_on :
        (g : Gathered) (v : World E)
        → g ≡ gathered (due_candidate d is_allowed allowlist force latest repo sha current)
        → (after_gather d (poll_chain d force) repo g v).0 ≡ none
    unfolding after_gather
    after_gather_goes_on g v h =
        subst (λ x. (after_gather d (poll_chain d force) repo x v).0 ≡ none) (sym h)
          (after_gate_goes_on _ _
            (gate_due d is_allowed allowlist force latest repo sha current w due v))

    -- The round does not end the pass.
    pub process_repo_goes_on : (process_repo d (poll_chain d force) latest repo w).0 ≡ none
    unfolding process_repo
    process_repo_goes_on =
        after_gather_goes_on _ _
          (gather_due d is_allowed allowlist force latest repo sha current w due)
