-- ===== src/Watcher/Process.antt =====
-- `processRepos` of pkg/watcher.go: the loop that files tasks.
use github_update_go_watcher.Candidate.{Candidate, filter_candidate}
use github_update_go_watcher.Common.{Bool, true, false, List, [], ◌∷◌, Option, none, some}
use github_update_go_watcher.Cursor.{Cursor}
use github_update_go_watcher.Filter.{SkipReason, TaskCreationFilter, auto_update_undecided}
use github_update_go_watcher.Repo.{Repo}
use github_update_go_watcher.Version.{Version}
use github_update_go_watcher.Watcher.Gate.{
  GateOutcome, pass, skipped, gate_aborted, gate_repo, suppress_in_flight,
}
use github_update_go_watcher.Watcher.Observe.{
  Gathered, gathered, aborted, dropped, gather_candidate,
}
use github_update_go_watcher.Watcher.Publish.{publish_create, publish_decision, mark_published}
use github_update_go_watcher.Watcher.State.{
  PollResult, Watcher, M, ◌>>=◌, ◌>>◌, pure, call, emit, get_cursor, unless_done, unless_aborted,
  filter_skipped,
}

-- The chain of a cycle reads the cursor as it is when it is asked.
abbrev pub CycleFilter : Type 0
CycleFilter = Cursor → TaskCreationFilter

module _ {E : Type 0} (d : Watcher E) where
  -- The verdict of the chain: a skip is counted, and an undecided repository gets a decision task; a
  -- published repository is marked.
  unfoldable pub after_filter : Repo → Candidate → Option SkipReason → M E (Unit {0})
  after_filter repo c none = do
    sent ← publish_create d c
    elim sent [ true ↦ mark_published d repo c | false ↦ pure tt ]
  after_filter repo c (some auto_update_undecided) = do
    emit (filter_skipped auto_update_undecided)
    publish_decision d c
    pure tt
  after_filter repo c (some reason) = emit (filter_skipped reason)

  unfoldable pub after_suppress : CycleFilter → Repo → Candidate → Bool → M E (Option PollResult)
  after_suppress chain repo c true = pure none
  after_suppress chain repo c false = do
    cursor ← get_cursor
    after_filter repo c (chain cursor (filter_candidate c))
    pure none

  -- The steps behind the gate.
  unfoldable pub after_gate : CycleFilter → Repo → Candidate → GateOutcome → M E (Option PollResult)
  after_gate chain repo c gate_aborted = pure (some PollResult.rate_limited)
  after_gate chain repo c skipped = pure none
  after_gate chain repo c pass = do
    suppressed ← suppress_in_flight d repo c
    after_suppress chain repo c suppressed

  unfoldable pub after_gather : CycleFilter → Repo → Gathered → M E (Option PollResult)
  after_gather chain repo (aborted reason) = pure (some reason)
  after_gather chain repo dropped = pure none
  after_gather chain repo (gathered c) = do
    outcome ← gate_repo d repo c
    after_gate chain repo c outcome

  -- The body of the loop for one repository: an abort reason, or `none` to go on.
  unfoldable pub process_repo : CycleFilter → Version → Repo → M E (Option PollResult)
  process_repo chain latest repo = do
    observed ← gather_candidate d repo latest
    after_gather chain repo observed

  -- A cancelled context ends the loop without an abort reason.
  unfoldable pub process_repos : CycleFilter → Version → List Repo → M E (Option PollResult)
  process_repos chain latest [] = pure none
  process_repos chain latest (repo ∷ repos) = do
    done ← call d.ctx_done
    unless_done done (do
      reason ← process_repo chain latest repo
      unless_aborted reason (process_repos chain latest repos))
