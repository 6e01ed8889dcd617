-- ===== src/Watcher/Delivery.antt =====
-- What a round of pkg/watcher.go does for a repository whose update is due.
use github_update_go_watcher.Candidate.{Candidate, filter_candidate, go_behind}
use github_update_go_watcher.Common.{
  Bool, true, false, List, [], ◌∷◌, Option, none, some, ◌≡◌, ◌≢◌, ◌⊎◌, refl, sym, ap, ◌∙◌, arith,
  Text, ok,
}
use github_update_go_watcher.Cursor.{RepoState, entry, seen, cursor_reader}
use github_update_go_watcher.Filter.Chain.{static_pass_iff, cycle_pass_iff}
use github_update_go_watcher.Filter.Maintainer.{granted}
use github_update_go_watcher.GoMod.{parse_go_mod_version}
use github_update_go_watcher.Repo.{Repo, key}
use github_update_go_watcher.Task.{build_create_command}
use github_update_go_watcher.Version.{Version, number, less}
use github_update_go_watcher.Watcher.Authority.{IsWired}
use github_update_go_watcher.Watcher.Commands.{
  commands, poll_chain, after_filter-commands, suppress_in_flight-commands,
  gather_candidate-commands, gate_repo-commands,
}
use github_update_go_watcher.Watcher.Claim.{gate_repo-cursor, gather_candidate-cursor}
use github_update_go_watcher.Filter.{SkipReason}
use mathlib.Core.Path.{subst}
use github_update_go_watcher.Watcher.Gate.{
  GateOutcome, pass, skipped, gate_aborted, gate_repo, suppress_in_flight, claims,
}
use github_update_go_watcher.Watcher.Observe.{Gathered, gathered, gather_candidate, observe}
use github_update_go_watcher.Watcher.Process.{
  CycleFilter, process_repo, after_gather, after_gate, after_suppress, after_filter,
}
use github_update_go_watcher.Watcher.State.{World, Watcher}

module _ {E : Type 0} (d : Watcher E) where
  -- No verdict of the chain aborts the cycle.
  pub after_suppress-none :
      (chain : CycleFilter) (repo : Repo) (c : Candidate) (held : Bool) (w : World E)
      → (after_suppress d chain repo c held w).0 ≡ none
  unfolding after_suppress
  after_suppress-none chain repo c true w = refl
  after_suppress-none chain repo c false w = refl

-- A repository whose update is due.
module _ {E : Type 0} (d : Watcher E) (is_allowed : List Text → Text → Bool) (allowlist : List Text)
    (force : Bool) (latest : Version) (repo : Repo) where
  -- What is observed of the repository.
  abbrev pub due_candidate : Text → Version → Candidate
  due_candidate sha current = record {
    repo = repo;
    head_sha = sha;
    go_mod_present = true;
    go_mod_parsable = true;
    current_go = current;
    latest_go = latest;
    consent = granted;
  }

  -- GitHub answers each read of the repository; its go.mod is behind, its owner granted updates, it is
  -- in scope, and no pull request is open. The entry of the cursor claims no emission for the target,
  -- and unless the cycle is forced it records another HEAD or another target.
  pub record IsDue (sha : Text) (current : Version) (state : Option RepoState) : Type 0 where
    pub content : Text
    pub head_read : (e : E) → (d.github.get_head_sha repo e).0 ≡ ok sha
    pub go_mod_read : (e : E) → (d.github.get_go_mod repo e).0 ≡ ok (some content)
    pub consent_read : (e : E) → (d.github.get_maintainer_config repo e).0 ≡ ok granted
    pub no_open_pr : (e : E) → (d.github.has_open_update_pr repo e).0 ≡ ok false
    pub parsed : parse_go_mod_version content ≡ ok current
    pub behind : less current latest ≡ true
    pub in_scope : is_allowed allowlist (key repo) ≡ true
    pub unclaimed : claims d state (number latest) ≡ false
    pub fresh :
        (force ≡ true)
        ⊎ (sha ≡ [])
        ⊎ (sha ≢ seen (λ s. s.last_seen_head_sha) state)
        ⊎ (number latest ≢ seen (λ s. s.last_seen_go_version) state)

  observe_due :
      (sha content : Text) (current : Version)
      → parse_go_mod_version content ≡ ok current
      → observe repo sha latest granted (some content) ≡ due_candidate sha current
  unfolding observe
  observe_due sha content current h = ground arith

  module _ (sha : Text) (current : Version) (w : World E)
      (due : IsDue sha current (entry (key repo) w.cursor)) where
    abbrev c : Candidate
    c = due_candidate sha current

    pub gather_due : (gather_candidate d repo latest w).0 ≡ gathered c
    unfolding gather_candidate
    gather_due = rw (due.head_read w.env) (
        rw (due.go_mod_read (d.github.get_head_sha repo w.env).1) (
          rw (due.consent_read (d.github.get_go_mod repo (d.github.get_head_sha repo w.env).1).1)
            (ap gathered (observe_due sha due.content current due.parsed))))

    pub gate_due : (v : World E) → (gate_repo d repo c v).0 ≡ pass
    unfolding gate_repo
    gate_due v = rw (due.no_open_pr v.env) refl

    suppress_due :
        (v : World E)
        → v.cursor ≡ w.cursor
        → ((suppress_in_flight d repo c v).0 ≡ false)
          × ((suppress_in_flight d repo c v).1.cursor ≡ w.cursor)
    unfolding suppress_in_flight
    suppress_due v same =
        let open_target : claims d (entry (key repo) v.cursor) (number latest) ≡ false =
          subst (λ x. claims d (entry (key repo) x) (number latest) ≡ false) (sym same)
            due.unclaimed in
        ground (arith, open_target, same)

    chain_due :
        IsWired d is_allowed allowlist → poll_chain d force w.cursor (filter_candidate c) ≡ none
    unfolding filter_candidate go_behind cursor_reader
    chain_due wired = (cycle_pass_iff _ (cursor_reader w.cursor) force _).1 (
      rw (wired) (
          (static_pass_iff is_allowed allowlist (filter_candidate c)).1 (
            record {
              in_scope = due.in_scope;
              present = refl;
              parsable = refl;
              behind = due.behind;
            },
            refl,
          )),
      due.fresh,
    )

  after_filter_passed :
      (c : Candidate) (reason : Option SkipReason) (w : World E)
      → reason ≡ none
      → commands (after_filter d repo c reason w).1.events
        ≡ build_create_command d.new_sha1 c d.task_config ∷ commands w.events
  after_filter_passed c reason w h = ground (arith, after_filter-commands d repo c reason w, h)

  -- The round ends in a publish of the candidate, from the cursor and the commands that it began with.
  abbrev pub Publishes : Candidate → World E → World E → Type 0
  Publishes c w end =
      (v : World E) × (v.cursor ≡ w.cursor)
      × (commands v.events ≡ commands w.events)
      × (end ≡ (after_filter d repo c none v).1)

  Publishes-from :
      (c : Candidate) (w v : World E) (end : World E)
      → v.cursor ≡ w.cursor
      → commands v.events ≡ commands w.events
      → Publishes c v end
      → Publishes c w end
  Publishes-from c w v end same_cursor same_commands (u, cursor, sent, ends) =
      (u, cursor ∙ same_cursor, sent ∙ same_commands, ends)

  after_suppress_passed :
      (chain : CycleFilter) (c : Candidate) (held : Bool) (w : World E)
      → held ≡ false
      → chain w.cursor (filter_candidate c) ≡ none
      → Publishes c w (after_suppress d chain repo c held w).1
  unfolding after_suppress
  after_suppress_passed chain c true w h passed = cc
  after_suppress_passed chain c false w h passed =
      (w, refl, refl, ap (λ reason. (after_filter d repo c reason w).1) passed)

  module _ (sha : Text) (current : Version) (w : World E)
      (due : IsDue sha current (entry (key repo) w.cursor))
      (wired : IsWired d is_allowed allowlist) where
    after_gate_due :
        (o : GateOutcome) (v : World E)
        → o ≡ pass
        → v.cursor ≡ w.cursor
        → Publishes
            (due_candidate sha current)
            v
            (after_gate d (poll_chain d force) repo (due_candidate sha current) o v).1
    unfolding after_gate
    after_gate_due gate_aborted v h same = cc
    after_gate_due skipped v h same = cc
    after_gate_due pass v h same =
        let (unheld, kept) = suppress_due sha current w due v same in
        Publishes-from _ v (suppress_in_flight d repo (due_candidate sha current) v).1 _
          (kept ∙ sym same) (suppress_in_flight-commands d repo (due_candidate sha current) v)
          (after_suppress_passed (poll_chain d force) _ _ _ unheld (
            subst (λ x. poll_chain d force x (filter_candidate (due_candidate sha current)) ≡ none)
              (sym kept) (chain_due sha current w due wired)))

    after_gather_due :
        (g : Gathered) (v : World E)
        → g ≡ gathered (due_candidate sha current)
        → v.cursor ≡ w.cursor
        → Publishes (due_candidate sha current) v (after_gather d (poll_chain d force) repo g v).1
    unfolding after_gather
    after_gather_due g v h same =
        subst
          (λ x.
            Publishes (due_candidate sha current) v
              (after_gather d (poll_chain d force) repo x v).1)
          (sym h)
          (let kept = gate_repo-cursor d repo _ v (gate_due sha current w due v) in
            Publishes-from _ v (gate_repo d repo (due_candidate sha current) v).1 _ kept
              (gate_repo-commands d repo (due_candidate sha current) v)
              (after_gate_due _ _ (gate_due sha current w due v) (kept ∙ same)))

    pub process_repo-Publishes :
        Publishes
          (due_candidate sha current)
          w
          (process_repo d (poll_chain d force) latest repo w).1
    unfolding process_repo
    process_repo-Publishes =
        Publishes-from _ w (gather_candidate d repo latest w).1 _
          (gather_candidate-cursor d repo latest w) (gather_candidate-commands d repo latest w)
          (after_gather_due _ _ (gather_due sha current w due)
            (gather_candidate-cursor d repo latest w))

    -- The round of a repository whose update is due sends its update task, and nothing else.
    pub process_repo_due :
        commands (process_repo d (poll_chain d force) latest repo w).1.events
        ≡ build_create_command d.new_sha1 (due_candidate sha current) d.task_config
          ∷ commands w.events
    process_repo_due =
        let (v, cursor, sent, ends) = process_repo-Publishes in
        ap (λ x. commands x.events) ends
        ∙ (after_filter_passed (due_candidate sha current) none v refl
            ∙ ap
                (λ x. build_create_command d.new_sha1 (due_candidate sha current) d.task_config ∷ x)
                sent)
