-- ===== src/Watcher/Claim.antt =====
-- The emission claim of pkg/watcher.go: a repository that got a task for the current target version
-- gets no second command while the claim is live, whatever GitHub answers.
use github_update_go_watcher.Candidate.{Candidate, filter_candidate, go_behind}
use mathlib.Core.Path.{subst}
use github_update_go_watcher.Common.{
  ℕ, ◌+◌, ◌≤◌, Bool, true, false, List, [], ◌∷◌, ◌++◌, none, some, ◌≡◌, ◌≢◌, refl, sym, ◌∙◌, arith,
  Text, Bool-cases, inl, inr, ◌⊎◌,
}
use github_update_go_watcher.Cursor.{Cursor, RepoState, entry, cursor_reader}
use github_update_go_watcher.Cursor.Laws.{entry-set_entry}
use github_update_go_watcher.Filter.{auto_update_undecided}
use github_update_go_watcher.Filter.Chain.{
  static_pass_iff, static_undecided_iff, cycle_pass_iff, cycle_undecided,
}
use github_update_go_watcher.Repo.{Repo, key}
use github_update_go_watcher.Version.{Version, number}
use github_update_go_watcher.Version.Decimal.{itoa}
use github_update_go_watcher.Watcher.Commands.{
  commands, gather_candidate-commands, gate_repo-commands, suppress_in_flight-commands,
  after_filter-commands, gather_candidate-repo, poll_chain,
}
use github_update_go_watcher.Watcher.Authority.{IsWired}
use github_update_go_watcher.Watcher.Gate.{
  GateOutcome, pass, skipped, gate_aborted, gate_repo, suppress_in_flight, in_flight_ttl,
}
use github_update_go_watcher.Watcher.Observe.{
  Gathered, gathered, aborted, dropped, gather_candidate,
}
use github_update_go_watcher.Watcher.Process.{
  process_repo, after_gather, after_gate, after_suppress, after_filter,
}
use github_update_go_watcher.Watcher.Publish.{mark_published, published_state}
use github_update_go_watcher.Watcher.State.{World, Watcher}

pub number-ne-nil : (v : Version) → number v ≢ []
unfolding number
number-ne-nil v = append-ne-nil (itoa v.major) _ _
  where
    append-ne-nil : (s : Text) (c : ℕ) (t : Text) → s ++ c ∷ t ≢ []
    append-ne-nil [] c t e = cc
    append-ne-nil (x ∷ s) c t e = cc

module _ {E : Type 0} (d : Watcher E) where
  -- The entry claims the target, and the clock never reads past the end of the claim's time.
  pub record LiveClaim (cursor : Cursor) (repo : Repo) (target : Version) : Type 0 where
    pub state : RepoState
    pub since : ℕ
    pub recorded : entry (key repo) cursor ≡ some state
    pub targeted : state.in_flight_target ≡ number target
    pub dated : d.parse_time state.in_flight_since ≡ some since
    pub in_time : (e : E) → (d.now e).0 ≤ since + in_flight_ttl

  pub gather_candidate-cursor :
      (repo : Repo) (latest : Version) (w : World E)
      → (gather_candidate d repo latest w).1.cursor ≡ w.cursor
  unfolding gather_candidate
  gather_candidate-cursor repo latest w = ground arith

  pub gate_repo-cursor :
      (repo : Repo) (c : Candidate) (w : World E)
      → (gate_repo d repo c w).0 ≡ pass
      → (gate_repo d repo c w).1.cursor ≡ w.cursor
  unfolding gate_repo
  gate_repo-cursor repo c w h = ground arith

  -- A live claim suppresses a candidate that is behind.
  suppress_live :
      (repo : Repo) (c : Candidate) (w : World E) (s : RepoState) (since : ℕ)
      → entry (key repo) w.cursor ≡ some s
      → s.in_flight_target ≡ number c.latest_go
      → d.parse_time s.in_flight_since ≡ some since
      → (d.now w.env).0 ≤ since + in_flight_ttl
      → go_behind c ≡ true
      → (suppress_in_flight d repo c w).0 ≡ true
  unfolding suppress_in_flight
  suppress_live repo c w s since recorded targeted dated in_time behind =
      ground (arith, number-ne-nil c.latest_go)

  module _ (is_allowed : List Text → Text → Bool) (allowlist : List Text)
      (wired : IsWired d is_allowed allowlist) where
    -- The chain neither passes a candidate that is not behind nor reports it as undecided.
    current_not_sent :
        (force : Bool) (cursor : Cursor) (c : Candidate)
        → go_behind c ≡ false
        → (poll_chain d force cursor (filter_candidate c) ≢ none)
          × (poll_chain d force cursor (filter_candidate c) ≢ some auto_update_undecided)
    unfolding filter_candidate
    current_not_sent force cursor c current = (
      (λ passed.
          let (static, _) = (cycle_pass_iff _ (cursor_reader cursor) force _).0 passed in
          let (needs, _) =
            (static_pass_iff is_allowed allowlist (filter_candidate c)).0 (rw wired at static) in
          cc (needs.behind)),
      (λ found.
          let static = cycle_undecided _ (cursor_reader cursor) force _ found in
          let (needs, _, _) =
            (static_undecided_iff is_allowed allowlist (filter_candidate c)).0
              (rw wired at static) in
          cc (needs.behind)),
    )

    after_filter_current :
        (force : Bool) (repo : Repo) (c : Candidate) (w : World E)
        → go_behind c ≡ false
        → commands
            (after_filter d repo c (poll_chain d force w.cursor (filter_candidate c)) w).1.events
          ≡ commands w.events
    after_filter_current force repo c w current =
        let (not_passed, not_open) = current_not_sent force w.cursor c current in
        elim (after_filter-commands d repo c (poll_chain d force w.cursor (filter_candidate c)) w) [
          | inl (same, _, _) ↦ same
          | inr (inl (passed, _)) ↦ absurd (not_passed passed)
          | inr (inr (found, _)) ↦ absurd (not_open found)
        ]

    after_suppress_claimed :
        (force : Bool) (repo : Repo) (c : Candidate) (held : Bool) (w : World E)
        → (held ≡ true) ⊎ (go_behind c ≡ false)
        → commands (after_suppress d (poll_chain d force) repo c held w).1.events
          ≡ commands w.events
    unfolding after_suppress
    after_suppress_claimed force repo c true w h = refl
    after_suppress_claimed force repo c false w (inl h) = cc
    after_suppress_claimed force repo c false w (inr current) =
        after_filter_current force repo c w current

    after_gate_claimed :
        (force : Bool) (repo : Repo) (c : Candidate) (o : GateOutcome) (w : World E)
        → (o ≡ pass → LiveClaim w.cursor repo c.latest_go)
        → commands (after_gate d (poll_chain d force) repo c o w).1.events ≡ commands w.events
    unfolding after_gate
    after_gate_claimed force repo c gate_aborted w h = refl
    after_gate_claimed force repo c skipped w h = refl
    after_gate_claimed force repo c pass w h =
        let claim = h refl in
        after_suppress_claimed force repo c _ _ (elim (Bool-cases (go_behind c)) [
          | inr current ↦ inr current
          | inl behind ↦ inl (
              suppress_live repo c w claim.state claim.since claim.recorded claim.targeted
                claim.dated (claim.in_time w.env) behind)
        ])
        ∙ suppress_in_flight-commands d repo c w

    after_gather_claimed :
        (force : Bool) (repo : Repo) (latest : Version) (g : Gathered) (w : World E)
        → ((c : Candidate) → g ≡ gathered c → (c.repo ≡ repo) × (c.latest_go ≡ latest))
        → LiveClaim w.cursor repo latest
        → commands (after_gather d (poll_chain d force) repo g w).1.events ≡ commands w.events
    unfolding after_gather
    after_gather_claimed force repo latest (aborted reason) w _ h = refl
    after_gather_claimed force repo latest dropped w _ h = refl
    after_gather_claimed force repo latest (gathered c) w from h =
        after_gate_claimed force repo c _ _ (λ passed.
          subst (λ x. LiveClaim x repo c.latest_go) (sym (gate_repo-cursor repo c w passed))
            (subst (LiveClaim w.cursor repo) (sym (from c refl).1) h))
        ∙ gate_repo-commands d repo c w

    -- While the claim of a repository for the cycle's target version is live, the round of the
    -- repository sends no command, forced or not, whatever the collaborators answer.
    pub process_repo_claimed :
        (force : Bool) (latest : Version) (repo : Repo) (w : World E)
        → LiveClaim w.cursor repo latest
        → commands (process_repo d (poll_chain d force) latest repo w).1.events ≡ commands w.events
    unfolding process_repo
    process_repo_claimed force latest repo w h =
        after_gather_claimed force repo latest _ _ (gather_candidate-repo d repo latest w)
          (subst (λ x. LiveClaim x repo latest) (sym (gather_candidate-cursor repo latest w)) h)
        ∙ gather_candidate-commands d repo latest w

  -- A successful publish records a claim of the repository for the candidate's target. It is live if
  -- the time is read back as it was written and the clock shows at most fourteen days more.
  pub mark_published-LiveClaim :
      (repo : Repo) (c : Candidate) (w : World E) (since : ℕ)
      → d.parse_time (d.format_time (d.now w.env).0) ≡ some since
      → ((e : E) → (d.now e).0 ≤ since + in_flight_ttl)
      → LiveClaim (mark_published d repo c w).1.cursor repo c.latest_go
  unfolding mark_published published_state
  mark_published-LiveClaim repo c w since read in_time = record {
    state = published_state c (d.format_time (d.now w.env).0) (entry (key repo) w.cursor);
    since = since;
    recorded = entry-set_entry (key repo) (key repo) _ w.cursor ∙ ground arith;
    targeted = refl;
    dated = read;
    in_time = in_time;
  }
