-- ===== src/Watcher/Lifecycle.antt =====
-- The life of an emission claim of pkg/watcher.go, as steps of a state machine, each with what it
-- stands on.
pub mod Rounds
pub mod Passes
use mathlib.Core.Path.{subst}
use github_update_go_watcher.Candidate.{Candidate, filter_candidate, go_behind}
use github_update_go_watcher.Common.{
  ℕ, ◌+◌, ltb, Bool, true, false, [], Option, none, some, ◌≡◌, ◌≢◌, ◌∙◌, ◌⊎◌, inl, inr, refl, sym,
  ap, arith, Text, text_dec, ok,
}
use github_update_go_watcher.Cursor.{Cursor, RepoState, clear_in_flight, entry}
use github_update_go_watcher.Cursor.Laws.{entry-clear_in_flight, entry-set_entry}
use github_update_go_watcher.Filter.{SkipReason}
use github_update_go_watcher.Repo.{Repo, key}
use github_update_go_watcher.Task.{build_create_command}
use github_update_go_watcher.Version.{Version, number}
use github_update_go_watcher.Watcher.Claim.{number-ne-nil}
use github_update_go_watcher.Watcher.Commands.{gather_candidate-repo, poll_chain}
use github_update_go_watcher.Watcher.Gate.{claims, gate_repo, in_flight_ttl, suppress_in_flight}
use github_update_go_watcher.Watcher.Observe.{gathered, gather_candidate}
use github_update_go_watcher.Watcher.Process.{
  after_filter, after_gate, after_gather, after_suppress, process_repo,
}
use github_update_go_watcher.Watcher.Publish.{
  mark_published, publish_create, publish_decision, published_state, send,
}
use github_update_go_watcher.Watcher.State.{World, Watcher}

-- The target of a claim and the text of its time, both empty where nothing is claimed.
abbrev pub Claim : Type 0
Claim = Text × Text

abbrev pub unclaimed : Claim
unclaimed = ([], [])

abbrev pub claim : Option RepoState → Claim
claim none = unclaimed
claim (some s) = (s.in_flight_target, s.in_flight_since)

module _ {E : Type 0} (d : Watcher E) where
  -- A time that cannot be read counts as expired.
  abbrev pub is_expired : Text → ℕ → Bool
  is_expired since now = elim (d.parse_time since) [
    | none ↦ true
    | some t ↦ ltb (t + in_flight_ttl) now
  ]

  abbrev pub claim_at : Repo → World E → Claim
  claim_at r w = claim (entry (key r) w.cursor)

  -- The claim of a target is removed because an open pull request was seen, because a candidate was
  -- not behind, or because its time is over; and a claim is made by an accepted update command, for a
  -- candidate that passed the chain, and never where the target is claimed already.
  pub data ClaimStep (force : Bool) (k : Text) (latest : Version) (a b : Claim) : Type 0 where
    landed :
        (r : Repo) (e : E)
        → key r ≡ k
        → a.0 ≡ number latest
        → b ≡ unclaimed
        → (d.github.has_open_update_pr r e).0 ≡ ok true
        → ClaimStep force k latest a b
    converged :
        (r : Repo) (v : World E) (c : Candidate)
        → key r ≡ k
        → a.0 ≡ number latest
        → b ≡ unclaimed
        → (gather_candidate d r latest v).0 ≡ gathered c
        → go_behind c ≡ false
        → ClaimStep force k latest a b
    expired :
        (e : E)
        → a.0 ≡ number latest
        → b ≡ unclaimed
        → is_expired a.1 (d.now e).0 ≡ true
        → ClaimStep force k latest a b
    emitted :
        (r : Repo) (v u : World E) (c : Candidate) (e e' : E)
        → key r ≡ k
        → a.0 ≢ number latest
        → b ≡ (number latest, d.format_time (d.now e').0)
        → (gather_candidate d r latest v).0 ≡ gathered c
        → poll_chain d force u.cursor (filter_candidate c) ≡ none
        → (d.send_create (build_create_command d.new_sha1 c d.task_config) e).0 ≡ true
        → ClaimStep force k latest a b

  pub data Life (force : Bool) (k : Text) (latest : Version) (a : Claim) : Claim → Type 0 where
    still : {b : Claim} → b ≡ a → Life force k latest a b
    further :
        {b c : Claim}
        → Life force k latest a b
        → ClaimStep force k latest b c
        → Life force k latest a c

  pub Life-append :
      {force : Bool} {k : Text} {latest : Version} {a b c : Claim}
      → Life force k latest a b
      → Life force k latest b c
      → Life force k latest a c
  Life-append first (still same) = subst (Life _ _ _ _) (sym same) first
  Life-append first (further more step) = further (Life-append first more) step
