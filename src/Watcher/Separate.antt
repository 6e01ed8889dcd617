-- ===== src/Watcher/Separate.antt =====
-- The file of the cursor while pkg/watcher.go works on the repositories.
use github_update_go_watcher.Common.{
  Bool, true, false, Option, none, some, ◌≡◌, ◌≢◌, ◌∙◌, refl, arith, Text, ok,
}
use github_update_go_watcher.Candidate.{Candidate}
use github_update_go_watcher.Cursor.{Cursor, RepoState}
use github_update_go_watcher.Cursor.Durable.{normalise_filled, Disk}
use github_update_go_watcher.Cursor.Store.{after_unmarshal, load_cursor}
use github_update_go_watcher.Filter.{SkipReason}
use github_update_go_watcher.Repo.{Repo}
use github_update_go_watcher.Task.{
  CreateCommand, build_create_command, build_decision_command, derive_task_id,
}
use github_update_go_watcher.Version.{Version}
use github_update_go_watcher.Watcher.Complete.{
  complete_entry, complete_repo, complete_task, on_merged,
}
use github_update_go_watcher.Watcher.Gate.{
  GateOutcome, pass, skipped, gate_aborted, gate_repo, suppress_in_flight,
}
use github_update_go_watcher.Watcher.Observe.{
  Gathered, gathered, aborted, dropped, gather_candidate,
}
use github_update_go_watcher.Watcher.Process.{
  CycleFilter, after_filter, after_gate, after_gather, after_suppress, process_repo,
}
use github_update_go_watcher.Watcher.Publish.{
  mark_published, publish_create, publish_decision, send,
}
use github_update_go_watcher.Watcher.State.{World, Watcher}

module _ {E : Type 0} (d : Watcher E) (disk : Disk E d.files) where
  -- What stands under the cursor's path.
  abbrev pub stored : E → Option Text
  stored e = disk.at e d.cursor_path

  -- The file holds what the codec reads as the cursor, so a load gives it.
  pub load_stored :
      (t : Text) (c : Cursor) (e : E)
      → stored e ≡ some t
      → d.codec.unmarshal t ≡ some c
      → c.repos ≢ none
      → (load_cursor d.files d.codec d.cursor_path e).0 ≡ ok c
  unfolding load_cursor
  load_stored t c e there read filled =
      rw (disk.read_some d.cursor_path t e there)
        (rw (read, after_unmarshal) (rw (normalise_filled d.files d.codec disk c filled) refl))

  -- No other collaborator touches the file of the cursor.
  pub record IsSeparate : Type 0 where
    pub by_listing : (o : Text) (e : E) → stored (d.github.list_repos o e).1 ≡ stored e
    pub by_head : (r : Repo) (e : E) → stored (d.github.get_head_sha r e).1 ≡ stored e
    pub by_go_mod : (r : Repo) (e : E) → stored (d.github.get_go_mod r e).1 ≡ stored e
    pub by_consent : (r : Repo) (e : E) → stored (d.github.get_maintainer_config r e).1 ≡ stored e
    pub by_merged :
        (r : Repo) (sha : Text) (e : E)
        → stored (d.github.get_merged_update_pr r sha e).1 ≡ stored e
    pub by_open : (r : Repo) (e : E) → stored (d.github.has_open_update_pr r e).1 ≡ stored e
    pub by_release : (e : E) → stored (d.latest_stable e).1 ≡ stored e
    pub by_create : (cmd : CreateCommand) (e : E) → stored (d.send_create cmd e).1 ≡ stored e
    pub by_complete : (id : Text) (e : E) → stored (d.send_complete id e).1 ≡ stored e
    pub by_clock : (e : E) → stored (d.now e).1 ≡ stored e
    pub by_context : (e : E) → stored (d.ctx_done e).1 ≡ stored e

  module _ (separate : IsSeparate) where
    gather_candidate-stored :
        (r : Repo) (latest : Version) (w : World E)
        → stored (gather_candidate d r latest w).1.env ≡ stored w.env
    unfolding gather_candidate
    gather_candidate-stored r latest w =
        let e₁ = (d.github.get_head_sha r w.env).1 in
        let e₂ = (d.github.get_go_mod r e₁).1 in
        ground (arith, separate.by_head r w.env, separate.by_go_mod r e₁, separate.by_consent r e₂)

    gate_repo-stored :
        (r : Repo) (c : Candidate) (w : World E) → stored (gate_repo d r c w).1.env ≡ stored w.env
    unfolding gate_repo
    gate_repo-stored r c w = ground (arith, separate.by_open r w.env)

    suppress_in_flight-stored :
        (r : Repo) (c : Candidate) (w : World E)
        → stored (suppress_in_flight d r c w).1.env ≡ stored w.env
    unfolding suppress_in_flight
    suppress_in_flight-stored r c w = ground (arith, separate.by_clock w.env)

    after_filter-stored :
        (r : Repo) (c : Candidate) (reason : Option SkipReason) (w : World E)
        → stored (after_filter d r c reason w).1.env ≡ stored w.env
    unfolding after_filter publish_create publish_decision send mark_published
    after_filter-stored r c reason w =
        let create = build_create_command d.new_sha1 c d.task_config in
        let decision = build_decision_command d.new_sha1 c d.task_config in
        ground (
          arith,
          separate.by_create create w.env,
          separate.by_create decision w.env,
          separate.by_clock (d.send_create create w.env).1,
        )

    after_suppress-stored :
        (chain : CycleFilter) (r : Repo) (c : Candidate) (held : Bool) (w : World E)
        → stored (after_suppress d chain r c held w).1.env ≡ stored w.env
    unfolding after_suppress
    after_suppress-stored chain r c true w = refl
    after_suppress-stored chain r c false w = after_filter-stored r c _ w

    after_gate-stored :
        (chain : CycleFilter) (r : Repo) (c : Candidate) (o : GateOutcome) (w : World E)
        → stored (after_gate d chain r c o w).1.env ≡ stored w.env
    unfolding after_gate
    after_gate-stored chain r c gate_aborted w = refl
    after_gate-stored chain r c skipped w = refl
    after_gate-stored chain r c pass w =
        after_suppress-stored chain r c _ _ ∙ suppress_in_flight-stored r c w

    after_gather-stored :
        (chain : CycleFilter) (r : Repo) (g : Gathered) (w : World E)
        → stored (after_gather d chain r g w).1.env ≡ stored w.env
    unfolding after_gather
    after_gather-stored chain r (aborted reason) w = refl
    after_gather-stored chain r dropped w = refl
    after_gather-stored chain r (gathered c) w =
        after_gate-stored chain r c _ _ ∙ gate_repo-stored r c w

    pub process_repo-stored :
        (chain : CycleFilter) (latest : Version) (r : Repo) (w : World E)
        → stored (process_repo d chain latest r w).1.env ≡ stored w.env
    unfolding process_repo
    process_repo-stored chain latest r w =
        after_gather-stored chain r _ _ ∙ gather_candidate-stored r latest w

    complete_entry-stored :
        (r : Repo) (s : Option RepoState) (w : World E)
        → stored (complete_entry d r s w).1.env ≡ stored w.env
    unfolding complete_entry on_merged complete_task
    complete_entry-stored r none w = refl
    complete_entry-stored r (some s) w =
        let e₁ = (d.github.get_merged_update_pr r s.last_seen_head_sha w.env).1 in
        let id =
          derive_task_id d.new_sha1 r.owner r.name s.last_seen_go_version s.last_seen_head_sha in
        ground (arith, separate.by_merged r s.last_seen_head_sha w.env, separate.by_complete id e₁)

    pub complete_repo-stored :
        (r : Repo) (w : World E) → stored (complete_repo d r w).1.env ≡ stored w.env
    unfolding complete_repo
    complete_repo-stored r w = complete_entry-stored r _ w
