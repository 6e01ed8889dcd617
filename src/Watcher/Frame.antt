-- ===== src/Watcher/Frame.antt =====
-- The round of one repository in pkg/watcher.go leaves the cursor entries of the others alone.
use github_update_go_watcher.Candidate.{Candidate}
use github_update_go_watcher.Common.{
  Bool, true, false, Option, ◌≡◌, ◌≢◌, refl, ap, arith, Text, ◌∙◌,
}
use github_update_go_watcher.Cursor.{Cursor, RepoState, entry, set_entry, clear_in_flight}
use github_update_go_watcher.Cursor.Laws.{entry-set_entry, entry-clear_in_flight}
use github_update_go_watcher.Filter.{SkipReason}
use github_update_go_watcher.Repo.{Repo, key}
use github_update_go_watcher.Version.{Version, number}
use github_update_go_watcher.Watcher.Claim.{gather_candidate-cursor}
use github_update_go_watcher.Watcher.Complete.{
  complete_repo, complete_entry, on_merged, complete_task, awaits_merge,
}
use github_update_go_watcher.Watcher.Gate.{
  GateOutcome, pass, skipped, gate_aborted, gate_repo, suppress_in_flight,
}
use github_update_go_watcher.Watcher.Observe.{Gathered, gathered, aborted, dropped}
use github_update_go_watcher.Watcher.Process.{
  CycleFilter, process_repo, after_gather, after_gate, after_suppress, after_filter,
}
use github_update_go_watcher.Watcher.Publish.{
  publish_create, publish_decision, send, mark_published,
}
use github_update_go_watcher.Watcher.State.{World, Watcher}

set_entry_other :
    (j k : Text) (s : RepoState) (c : Cursor) → k ≢ j → entry j (set_entry k s c) ≡ entry j c
set_entry_other j k s c differ = ground (arith, entry-set_entry j k s c)

clear_in_flight_other :
    (j k target : Text) (c : Cursor) → k ≢ j → entry j (clear_in_flight k target c) ≡ entry j c
clear_in_flight_other j k target c differ = ground (arith, entry-clear_in_flight j k target c)

module _ {E : Type 0} (d : Watcher E) (repo : Repo) (other : Text) (differ : key repo ≢ other) where
  gate_repo-entry_other :
      (c : Candidate) (w : World E)
      → entry other (gate_repo d repo c w).1.cursor ≡ entry other w.cursor
  unfolding gate_repo
  gate_repo-entry_other c w =
      ground (arith, clear_in_flight_other other (key repo) (number c.latest_go) w.cursor differ)

  suppress_in_flight-entry_other :
      (c : Candidate) (w : World E)
      → entry other (suppress_in_flight d repo c w).1.cursor ≡ entry other w.cursor
  unfolding suppress_in_flight
  suppress_in_flight-entry_other c w =
      ground (arith, clear_in_flight_other other (key repo) (number c.latest_go) w.cursor differ)

  mark_published-entry_other :
      (c : Candidate) (w : World E)
      → entry other (mark_published d repo c w).1.cursor ≡ entry other w.cursor
  unfolding mark_published
  mark_published-entry_other c w = set_entry_other other (key repo) _ w.cursor differ

  send_create-cursor : (c : Candidate) (w : World E) → (publish_create d c w).1.cursor ≡ w.cursor
  unfolding publish_create send
  send_create-cursor c w = refl

  after_filter-entry_other :
      (c : Candidate) (reason : Option SkipReason) (w : World E)
      → entry other (after_filter d repo c reason w).1.cursor ≡ entry other w.cursor
  unfolding after_filter publish_decision send
  after_filter-entry_other c reason w =
      ground (arith, send_create-cursor c w, mark_published-entry_other c (publish_create d c w).1)

  after_suppress-entry_other :
      (chain : CycleFilter) (c : Candidate) (held : Bool) (w : World E)
      → entry other (after_suppress d chain repo c held w).1.cursor ≡ entry other w.cursor
  unfolding after_suppress
  after_suppress-entry_other chain c true w = refl
  after_suppress-entry_other chain c false w = after_filter-entry_other c _ w

  after_gate-entry_other :
      (chain : CycleFilter) (c : Candidate) (o : GateOutcome) (w : World E)
      → entry other (after_gate d chain repo c o w).1.cursor ≡ entry other w.cursor
  unfolding after_gate
  after_gate-entry_other chain c gate_aborted w = refl
  after_gate-entry_other chain c skipped w = refl
  after_gate-entry_other chain c pass w =
      after_suppress-entry_other chain c _ _ ∙ suppress_in_flight-entry_other c w

  after_gather-entry_other :
      (chain : CycleFilter) (g : Gathered) (w : World E)
      → entry other (after_gather d chain repo g w).1.cursor ≡ entry other w.cursor
  unfolding after_gather
  after_gather-entry_other chain (aborted reason) w = refl
  after_gather-entry_other chain dropped w = refl
  after_gather-entry_other chain (gathered c) w =
      after_gate-entry_other chain c _ _ ∙ gate_repo-entry_other c w

  -- The round of a repository keeps the entry of every other key.
  pub process_repo-entry_other :
      (chain : CycleFilter) (latest : Version) (w : World E)
      → entry other (process_repo d chain latest repo w).1.cursor ≡ entry other w.cursor
  unfolding process_repo
  process_repo-entry_other chain latest w =
      after_gather-entry_other chain _ _
      ∙ ap (entry other) (gather_candidate-cursor d repo latest w)

  -- The merge pass over a repository keeps the entry of every other key.
  pub complete_repo-entry_other :
      (w : World E) → entry other (complete_repo d repo w).1.cursor ≡ entry other w.cursor
  unfolding complete_repo complete_entry on_merged complete_task awaits_merge
  complete_repo-entry_other w = grind (arith, set_entry_other)
