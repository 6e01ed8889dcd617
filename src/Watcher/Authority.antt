-- ===== src/Watcher/Authority.antt =====
-- The two gates of the watcher: nothing is sent without the operator's scope and the owner's answer.
use github_update_go_watcher.Candidate.{Candidate, filter_candidate, go_behind}
use github_update_go_watcher.Common.{
  Bool, List, ◌≡◌, ◌≢◌, ◌⊎◌, inl, inr, refl, sym, ap, ◌∙◌, true, some, Result, ok, err, Text, All,
}
use github_update_go_watcher.Cursor.{cursor_reader}
use github_update_go_watcher.Filter.{create_static_filters}
use github_update_go_watcher.Filter.Chain.{
  NeedsUpdate, static_pass_iff, static_undecided_iff, cycle_pass_iff, cycle_undecided,
}
use github_update_go_watcher.Filter.Maintainer.{Consent, granted, refused}
use github_update_go_watcher.GoMod.{parse_go_mod_version}
use github_update_go_watcher.Version.{Version, less}
use github_update_go_watcher.Watcher.Seen.{gather_candidate-SeenAs, observe_read, read_candidate}
use mathlib.Core.Path.{subst}
use github_update_go_watcher.Task.{CreateCommand, build_create_command, build_decision_command}
use github_update_go_watcher.Watcher.Commands.{commands, poll_chain}
use github_update_go_watcher.Watcher.Approval.{Keeps, Seen, poll-Sent}
use github_update_go_watcher.Watcher.Walk.{Lists, Looks}
use github_update_go_watcher.Repo.{Repo, key}
use github_update_go_watcher.Watcher.Poll.{poll}
use github_update_go_watcher.Watcher.State.{World, Watcher}

module _ {E : Type 0} (d : Watcher E) (is_allowed : List Text → Text → Bool)
    (allowlist : List Text) where
  -- The chain of the watcher is the static chain for this allowlist.
  abbrev pub IsWired : Type 0
  IsWired = d.task_creation_filter ≡ create_static_filters is_allowed allowlist

  -- The release that was looked up.
  abbrev pub IsStable : Version → Type 0
  IsStable v = (e : E) × ((d.latest_stable e).0 ≡ ok v)

  -- What GitHub answered on the repository, in the order of the reads: its HEAD, a go.mod whose
  -- directive was read, and the verdict of its configuration; the repository is in scope, and behind
  -- the release. `env` is the environment that the first of the reads found, and each later one found
  -- what the one before it left.
  pub record Read (r : Repo) (latest : Version) (sha : Text) (current : Version) (verdict : Consent)
      : Type 0 where
    pub env : E
    pub content : Text
    pub head_read : (d.github.get_head_sha r env).0 ≡ ok sha
    pub go_mod_read : (d.github.get_go_mod r (d.github.get_head_sha r env).1).0 ≡ ok (some content)
    pub consent_read :
        (d.github.get_maintainer_config r
          (d.github.get_go_mod r (d.github.get_head_sha r env).1).1).0
        ≡ ok verdict
    pub parsed : parse_go_mod_version content ≡ ok current
    pub behind : less current latest ≡ true
    pub in_scope : is_allowed allowlist (key r) ≡ true

  -- `Q` is what is known of the repositories that GitHub lists.
  module _ (Q : Repo → Type 0) where
    -- The command is built from what was read of a listed repository, for the release that was looked
    -- up, with a verdict of this kind.
    abbrev pub BuiltFrom : (Candidate → CreateCommand) → (Consent → Type 0) → CreateCommand → Type 0
    BuiltFrom build Verdict cmd =
        (r : Repo) × (latest : Version) × (sha : Text) × (current : Version) × (verdict : Consent)
        × (cmd ≡ build (read_candidate r latest sha current verdict))
        × Q r
        × IsStable latest
        × Read r latest sha current verdict
        × Verdict verdict

    -- The update task of a repository whose configuration was read as granting updates.
    abbrev pub GrantedUpdate : CreateCommand → Type 0
    GrantedUpdate =
        BuiltFrom (λ c. build_create_command d.new_sha1 c d.task_config) (λ v. v ≡ granted)

    -- The decision task of a repository whose configuration was read as giving no answer.
    abbrev pub OpenDecision : CreateCommand → Type 0
    OpenDecision =
        BuiltFrom (λ c. build_decision_command d.new_sha1 c d.task_config)
          (λ v. (v ≢ granted) × (v ≢ refused))

    abbrev pub Authorised : CreateCommand → Type 0
    Authorised cmd = GrantedUpdate cmd ⊎ OpenDecision cmd

    -- A candidate that was gathered and needs an update is one that was read.
    Seen-BuiltFrom :
        (build : Candidate → CreateCommand) (Verdict : Consent → Type 0) (c : Candidate)
        → Seen d Q IsStable (All Authorised) c
        → NeedsUpdate is_allowed allowlist (filter_candidate c)
        → Verdict c.consent
        → BuiltFrom build Verdict (build c)
    unfolding filter_candidate go_behind
    Seen-BuiltFrom build Verdict c (r, latest, w, q, stable, e) needs verdict_of_c =
        let (sha, content, verdict, head, go_mod, consent, same) =
          gather_candidate-SeenAs d r latest w c e in
        let (t, current, there, parsed, known) =
          observe_read r latest sha verdict content
            (subst (λ x. x.go_mod_present ≡ true) (sym same) needs.present)
            (subst (λ x. x.go_mod_parsable ≡ true) (sym same) needs.parsable) in
        let is_c : c ≡ read_candidate r latest sha current verdict = sym same ∙ known in
        (
          r,
          latest,
          sha,
          current,
          verdict,
          ap build is_c,
          q,
          stable,
          record {
            env = w.env;
            content = t;
            head_read = head;
            go_mod_read = go_mod ∙ ap ok there;
            consent_read = consent;
            parsed = parsed;
            behind = subst (λ x. x.go_behind ≡ true) (ap filter_candidate is_c) needs.behind;
            in_scope =
                subst (λ x. is_allowed allowlist x.repo_key ≡ true) (ap filter_candidate is_c)
                  needs.in_scope;
          },
          subst (λ x. Verdict x.consent) is_c verdict_of_c,
        )

    poll_chain-Keeps :
        IsWired → (force : Bool) → Keeps d Q IsStable (All Authorised) (poll_chain d force)
    unfolding filter_candidate
    poll_chain-Keeps wired force = record {
      on_pass = λ cursor c seen passed sent h.
          let (static, _) = (cycle_pass_iff _ (cursor_reader cursor) force _).0 passed in
          let (needs, consent) =
            (static_pass_iff is_allowed allowlist (filter_candidate c)).0 (rw wired at static) in
          (
            inl (
                Seen-BuiltFrom (λ x. build_create_command d.new_sha1 x d.task_config)
                  (λ v. v ≡ granted) c seen needs consent),
            h,
          );
      on_undecided = λ cursor c seen passed sent h.
          let static = cycle_undecided _ (cursor_reader cursor) force _ passed in
          let (needs, ungranted, unrefused) =
            (static_undecided_iff is_allowed allowlist (filter_candidate c)).0
              (rw wired at static) in
          (
            inr (
                Seen-BuiltFrom (λ x. build_decision_command d.new_sha1 x d.task_config)
                  (λ v. (v ≢ granted) × (v ≢ refused)) c seen needs (ungranted, unrefused)),
            h,
          );
    }

    looked_up :
        (found : Result Version) (e : E) → (d.latest_stable e).0 ≡ found → Looks IsStable found
    looked_up (err x) e h = tt
    looked_up (ok v) e h = (e, h)

    -- With the static chain wired in, every command that a cycle sends, forced or not, is built from
    -- what was read of one repository: GitHub answered its HEAD, then a go.mod whose directive is
    -- behind a release that go.dev answered, then the verdict of its configuration. It is an update
    -- task, and the verdict is granted, or a decision task, and the verdict is neither granted nor
    -- refused. The repository is in scope and has every property of those that GitHub lists. All this
    -- holds if it holds of what was sent before.
    pub poll-Authorised :
        IsWired
        → ((e : E) → Lists Q (d.github.list_repos d.owner e).0)
        → (force : Bool) (w : World E) → All Authorised (commands w.events)
        → All Authorised (commands (poll d force w).1.events)
    poll-Authorised wired listed force w h =
        poll-Sent d Q IsStable (All Authorised) force (poll_chain-Keeps wired force) listed
          (λ e. looked_up _ e refl) w h
