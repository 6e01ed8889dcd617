-- ===== src/Watcher/Lifecycle/Rounds.antt =====
-- The round of a repository in pkg/watcher.go as steps of its claim.
use mathlib.Core.Path.{subst}
use github_update_go_watcher.Candidate.{Candidate, filter_candidate, go_behind}
use github_update_go_watcher.Common.{
  Bool, true, false, Option, none, ◌≡◌, ◌≢◌, ◌∙◌, ◌⊎◌, inl, inr, refl, sym, ap, arith, Text, ok,
}
use github_update_go_watcher.Cursor.{Cursor, clear_in_flight, entry}
use github_update_go_watcher.Cursor.Laws.{entry-clear_in_flight, entry-set_entry}
use github_update_go_watcher.Filter.{SkipReason}
use github_update_go_watcher.Repo.{Repo, key}
use github_update_go_watcher.Task.{build_create_command}
use github_update_go_watcher.Version.{Version, number}
use github_update_go_watcher.Watcher.Claim.{gather_candidate-cursor, number-ne-nil}
use github_update_go_watcher.Watcher.Commands.{gather_candidate-repo, poll_chain}
use github_update_go_watcher.Watcher.Gate.{
  GateOutcome, pass, skipped, gate_aborted, claims, gate_repo, suppress_in_flight,
}
use github_update_go_watcher.Watcher.Observe.{
  Gathered, gathered, aborted, dropped, gather_candidate,
}
use github_update_go_watcher.Watcher.Lifecycle.{
  Claim, Life, Life-append, claim, claim_at, converged, emitted, expired, further, is_expired,
  landed, still, unclaimed,
}
use github_update_go_watcher.Watcher.Process.{
  after_filter, after_gate, after_gather, after_suppress, process_repo,
}
use github_update_go_watcher.Watcher.Publish.{
  mark_published, publish_create, publish_decision, published_state, send,
}
use github_update_go_watcher.Watcher.State.{World, Watcher}

-- Clearing a claim leaves it as it was, or removes it, and then it had the target.
clear_in_flight-claim :
    (k target : Text) (c : Cursor)
    → (claim (entry k (clear_in_flight k target c)) ≡ claim (entry k c))
      ⊎ (((claim (entry k c)).0 ≡ target)
          × (claim (entry k (clear_in_flight k target c)) ≡ unclaimed))
clear_in_flight-claim k target c = ground (arith, entry-clear_in_flight k k target c)

module _ {E : Type 0} (d : Watcher E) where
  gate_repo-claim :
      (r : Repo) (c : Candidate) (w : World E)
      → (claim_at d r (gate_repo d r c w).1 ≡ claim_at d r w)
        ⊎ (((claim_at d r w).0 ≡ number c.latest_go)
            × (claim_at d r (gate_repo d r c w).1 ≡ unclaimed)
            × ((d.github.has_open_update_pr r w.env).0 ≡ ok true))
  unfolding gate_repo
  gate_repo-claim r c w =
      ground (arith, clear_in_flight-claim (key r) (number c.latest_go) w.cursor)

  suppress_in_flight-claim :
      (r : Repo) (c : Candidate) (w : World E)
      → ((claim_at d r (suppress_in_flight d r c w).1 ≡ claim_at d r w)
          × (((suppress_in_flight d r c w).0 ≡ true) ⊎ ((claim_at d r w).0 ≢ number c.latest_go)))
        ⊎ (((claim_at d r w).0 ≡ number c.latest_go)
            × (claim_at d r (suppress_in_flight d r c w).1 ≡ unclaimed)
            × ((go_behind c ≡ false) ⊎ (is_expired d (claim_at d r w).1 (d.now w.env).0 ≡ true)))
  unfolding suppress_in_flight claims
  suppress_in_flight-claim r c w = ground (
    arith,
    entry-clear_in_flight (key r) (key r) (number c.latest_go) w.cursor,
    number-ne-nil c.latest_go,
  )

  after_filter-claim :
      (r : Repo) (c : Candidate) (reason : Option SkipReason) (w : World E)
      → (claim_at d r (after_filter d r c reason w).1 ≡ claim_at d r w)
        ⊎ ((reason ≡ none)
            × ((d.send_create (build_create_command d.new_sha1 c d.task_config) w.env).0 ≡ true)
            × (claim_at d r (after_filter d r c reason w).1 ≡ (
              number c.latest_go,
              d.format_time
                  (d.now
                    (d.send_create (build_create_command d.new_sha1 c d.task_config) w.env).1).0,
            )))
  unfolding after_filter publish_create publish_decision send mark_published published_state
  after_filter-claim r c reason w = ground (
    arith,
    entry-set_entry (key r) (key r)
        (published_state c
          (d.format_time
            (d.now (d.send_create (build_create_command d.new_sha1 c d.task_config) w.env).1).0)
          (entry (key r) w.cursor))
        w.cursor,
  )

  module _ (force : Bool) (latest : Version) (r : Repo) (v : World E) (c : Candidate)
      (from : (gather_candidate d r latest v).0 ≡ gathered c) where
    abbrev Lives : Claim → Claim → Type 0
    Lives = Life d force (key r) latest

    target_same : number c.latest_go ≡ number latest
    target_same = ap number (gather_candidate-repo d r latest v c from).1

    gate_repo-Life : (w : World E) → Lives (claim_at d r w) (claim_at d r (gate_repo d r c w).1)
    gate_repo-Life w = elim (gate_repo-claim r c w) [
      | inl same ↦ still same
      | inr (claimed, removed, seen) ↦
          further (still refl) (landed r w.env refl (claimed ∙ target_same) removed seen)
    ]

    -- Where the emission is not suppressed, nothing is claimed for the target.
    suppress_in_flight-Life :
        (w : World E)
        → Lives (claim_at d r w) (claim_at d r (suppress_in_flight d r c w).1)
          × (((suppress_in_flight d r c w).0 ≡ true)
              ⊎ ((claim_at d r (suppress_in_flight d r c w).1).0 ≢ number latest))
    suppress_in_flight-Life w = elim (suppress_in_flight-claim r c w) [
      | inl (same, inl held) ↦ (still same, inl held)
      | inl (same, inr other) ↦
          (still same, inr (λ e. other (sym (ap (λ x. x.0) same) ∙ (e ∙ sym target_same))))
      | inr (claimed, removed, inl current) ↦ (
        further (still refl) (converged r v c refl (claimed ∙ target_same) removed from current),
        inr (λ e. number-ne-nil latest (sym e ∙ ap (λ x. x.0) removed)),
      )
      | inr (claimed, removed, inr over) ↦ (
        further (still refl) (expired w.env (claimed ∙ target_same) removed over),
        inr (λ e. number-ne-nil latest (sym e ∙ ap (λ x. x.0) removed)),
      )
    ]

    after_filter-Life :
        (u w : World E)
        → (claim_at d r w).0 ≢ number latest
        → Lives (claim_at d r w) (
            claim_at d r
              (after_filter d r c (poll_chain d force u.cursor (filter_candidate c)) w).1)
    after_filter-Life u w free =
        elim (after_filter-claim r c (poll_chain d force u.cursor (filter_candidate c)) w) [
          | inl same ↦ still same
          | inr (passed, sent, made) ↦
              let e₁ = (d.send_create (build_create_command d.new_sha1 c d.task_config) w.env).1 in
              further (still refl) (
                emitted r v u c w.env e₁ refl free
                  (made ∙ ap (λ t. (t, d.format_time (d.now e₁).0)) target_same) from passed sent)
        ]

  module _ (force : Bool) (latest : Version) (r : Repo) where
    abbrev Grows : World E → World E → Type 0
    Grows w w' = Life d force (key r) latest (claim_at d r w) (claim_at d r w')

    after_suppress-Grows :
        (v : World E) (c : Candidate) (held : Bool) (w : World E)
        → (gather_candidate d r latest v).0 ≡ gathered c
        → (held ≡ true) ⊎ ((claim_at d r w).0 ≢ number latest)
        → Grows w (after_suppress d (poll_chain d force) r c held w).1
    unfolding after_suppress
    after_suppress-Grows v c true w from h = still refl
    after_suppress-Grows v c false w from (inl held) = absurd cc
    after_suppress-Grows v c false w from (inr free) =
        after_filter-Life force latest r v c from w w free

    after_gate-Grows :
        (v : World E) (c : Candidate) (o : GateOutcome) (w : World E)
        → (gather_candidate d r latest v).0 ≡ gathered c
        → Grows w (after_gate d (poll_chain d force) r c o w).1
    unfolding after_gate
    after_gate-Grows v c gate_aborted w from = still refl
    after_gate-Grows v c skipped w from = still refl
    after_gate-Grows v c pass w from =
        let (life, free) = suppress_in_flight-Life force latest r v c from w in
        Life-append d life (after_suppress-Grows v c _ _ from free)

    after_gather-Grows :
        (v : World E) (g : Gathered) (w : World E)
        → (gather_candidate d r latest v).0 ≡ g
        → Grows w (after_gather d (poll_chain d force) r g w).1
    unfolding after_gather
    after_gather-Grows v (aborted reason) w from = still refl
    after_gather-Grows v dropped w from = still refl
    after_gather-Grows v (gathered c) w from =
        Life-append d (gate_repo-Life force latest r v c from w) (after_gate-Grows v c _ _ from)

    -- A round of a repository takes its claim through steps of the state machine.
    pub process_repo-Life :
        (w : World E) → Grows w (process_repo d (poll_chain d force) latest r w).1
    unfolding process_repo
    process_repo-Life w =
        let w₁ : World E = (gather_candidate d r latest w).1 in
        let w₂ : World E =
          (after_gather d (poll_chain d force) r (gather_candidate d r latest w).0 w₁).1 in
        subst (λ x. Life d force (key r) latest (claim (entry (key r) x)) (claim_at d r w₂))
          (gather_candidate-cursor d r latest w) (after_gather-Grows w _ w₁ refl)
