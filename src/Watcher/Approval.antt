-- ===== src/Watcher/Approval.antt =====
-- What a cycle of pkg/watcher.go keeps of the commands that were sent, whatever its collaborators do.
use github_update_go_watcher.Candidate.{Candidate, filter_candidate}
use mathlib.Core.Path.{subst}
use github_update_go_watcher.Common.{
  sym, refl, ◌∷◌, Bool, true, false, List, none, some, ◌≡◌, inl, inr,
}
use github_update_go_watcher.Cursor.{Cursor}
use github_update_go_watcher.Filter.{auto_update_undecided}
use github_update_go_watcher.Repo.{Repo}
use github_update_go_watcher.Task.{CreateCommand, build_create_command, build_decision_command}
use github_update_go_watcher.Version.{Version}
use github_update_go_watcher.Watcher.Commands.{
  commands, gather_candidate-commands, gate_repo-commands, suppress_in_flight-commands,
  complete_repo-commands, after_filter-commands, gather_candidate-repo, poll_chain,
}
use github_update_go_watcher.Watcher.Complete.{complete_repo}
use github_update_go_watcher.Watcher.Gate.{
  GateOutcome, pass, skipped, gate_aborted, suppress_in_flight,
}
use github_update_go_watcher.Watcher.Observe.{
  Gathered, gathered, aborted, dropped, gather_candidate,
}
use github_update_go_watcher.Watcher.Poll.{poll}
use github_update_go_watcher.Watcher.Process.{
  CycleFilter, process_repo, after_filter, after_gate, after_suppress, after_gather,
}
use github_update_go_watcher.Watcher.Walk.{IsKept, Lists, Looks, poll-Inv}
use github_update_go_watcher.Watcher.State.{World, Watcher, Event}

-- A property of the commands sent so far that the chain keeps for the repositories listed is kept by a
-- cycle. `Q` is what is known of these repositories, and `V` of the release looked up.
module _ {E : Type 0} (d : Watcher E) (Q : Repo → Type 0) (V : Version → Type 0)
    (P : List CreateCommand → Type 0) where
  -- The candidate was gathered for a listed repository and the release looked up.
  abbrev pub Seen : Candidate → Type 0
  Seen c =
      (repo : Repo) × (latest : Version) × (v : World E) × Q repo
      × V latest
      × ((gather_candidate d repo latest v).0 ≡ gathered c)

  pub Seen-repo : (c : Candidate) → Seen c → Q c.repo
  Seen-repo c (repo, latest, v, q, _, e) =
      subst Q (sym (gather_candidate-repo d repo latest v c e).0) q

  abbrev pub Sent : World E → Type 0
  Sent w = P (commands w.events)

  Sent-eq : (es fs : List Event) → commands es ≡ commands fs → P (commands fs) → P (commands es)
  Sent-eq es fs e h = subst P (sym e) h

  -- The property survives the command that each verdict of the chain leads to.
  pub record Keeps (chain : CycleFilter) : Type 0 where
    pub on_pass :
        (cursor : Cursor) (c : Candidate)
        → Seen c
        → chain cursor (filter_candidate c) ≡ none
        → (sent : List CreateCommand) → P sent
        → P (build_create_command d.new_sha1 c d.task_config ∷ sent)
    pub on_undecided :
        (cursor : Cursor) (c : Candidate)
        → Seen c
        → chain cursor (filter_candidate c) ≡ some auto_update_undecided
        → (sent : List CreateCommand) → P sent
        → P (build_decision_command d.new_sha1 c d.task_config ∷ sent)

  module _ (chain : CycleFilter) (proper : Keeps chain) where
    after_filter-Sent :
        (repo : Repo) (c : Candidate) (w : World E)
        → Seen c
        → Sent w
        → Sent (after_filter d repo c (chain w.cursor (filter_candidate c)) w).1
    after_filter-Sent repo c w q h =
        elim (after_filter-commands d repo c (chain w.cursor (filter_candidate c)) w) [
          | inl (same, _, _) ↦ Sent-eq _ _ same h
          | inr (inl (passed, added)) ↦ subst P (sym added) (proper.on_pass w.cursor c q passed _ h)
          | inr (inr (unanswered, added)) ↦
              subst P (sym added) (proper.on_undecided w.cursor c q unanswered _ h)
        ]

    after_suppress-Sent :
        (repo : Repo) (c : Candidate) (held : Bool) (w : World E)
        → Seen c
        → Sent w
        → Sent (after_suppress d chain repo c held w).1
    unfolding after_suppress
    after_suppress-Sent repo c true w q h = h
    after_suppress-Sent repo c false w q h = after_filter-Sent repo c w q h

    after_gate-Sent :
        (repo : Repo) (c : Candidate) (o : GateOutcome) (w : World E)
        → Seen c
        → Sent w
        → Sent (after_gate d chain repo c o w).1
    unfolding after_gate
    after_gate-Sent repo c gate_aborted w q h = h
    after_gate-Sent repo c skipped w q h = h
    after_gate-Sent repo c pass w q h =
        let w₁ = (suppress_in_flight d repo c w).1 in
        let h₁ = Sent-eq _ _ (suppress_in_flight-commands d repo c w) h in
        after_suppress-Sent repo c _ w₁ q h₁

    after_gather-Sent :
        (repo : Repo) (g : Gathered) (w : World E)
        → ((c : Candidate) → g ≡ gathered c → Seen c)
        → Sent w
        → Sent (after_gather d chain repo g w).1
    unfolding after_gather
    after_gather-Sent repo (aborted reason) w q h = h
    after_gather-Sent repo dropped w q h = h
    after_gather-Sent repo (gathered c) w q h =
        after_gate-Sent repo c _ _ (q c refl) (Sent-eq _ _ (gate_repo-commands d repo c w) h)

    pub process_repo-Sent :
        (latest : Version) (repo : Repo) (w : World E)
        → V latest
        → Q repo
        → Sent w
        → Sent (process_repo d chain latest repo w).1
    unfolding process_repo
    process_repo-Sent latest repo w known q h =
        after_gather-Sent repo _ _ (λ c e. (repo, latest, w, q, known, e))
          (Sent-eq _ _ (gather_candidate-commands d repo latest w) h)

  module _ (force : Bool) (proper : Keeps (poll_chain d force)) where
    pub Sent-IsKept : IsKept d Q V (λ es. P (commands es)) force
    unfolding commands
    Sent-IsKept = record {
      by_process = process_repo-Sent (poll_chain d force) proper;
      by_complete = λ repo w h.
          Sent-eq (complete_repo d repo w).1.events w.events (complete_repo-commands d repo w) h;
      by_result = λ r es h. h;
      by_scan = λ n es h. h;
    }

    pub poll-Sent :
        ((e : E) → Lists Q (d.github.list_repos d.owner e).0)
        → ((e : E) → Looks V (d.latest_stable e).0)
        → (w : World E) → Sent w
        → Sent (poll d force w).1
    poll-Sent listed looked = poll-Inv d Q V (λ es. P (commands es)) force Sent-IsKept listed looked
