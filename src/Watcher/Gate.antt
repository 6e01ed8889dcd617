-- ===== src/Watcher/Gate.antt =====
-- The gates of pkg/watcher.go in front of the filter chain: the open pull request and the emission
-- claim.
use github_update_go_watcher.Candidate.{Candidate, go_behind}
use github_update_go_watcher.Common.{
  ℕ, ◌+◌, ◌*◌, ◌^◌, Bool, true, false, not, ◌&&◌, Option, none, some, Text, [], Error, failed,
  Result, ok, err, ◌==◌, ltb,
}
use github_update_go_watcher.Cursor.{RepoState, entry, clear_in_flight}
use github_update_go_watcher.Filter.{open_update_pr, emission_in_flight}
use github_update_go_watcher.Repo.{Repo, key}
use github_update_go_watcher.Version.{number}
use github_update_go_watcher.Watcher.State.{
  Watcher, M, ◌>>=◌, ◌>>◌, pure, call, emit, get_cursor, put_cursor, filter_skipped,
}

-- `14 * libtime.Day`, in nanoseconds.
abbrev pub in_flight_ttl : ℕ
in_flight_ttl = 14 * (24 * 60 * 60 * 10 ^ 9)

-- The actions of `openUpdatePRGate`: "", "skip" and "rate_limited".
pub data GateAction : Type 0 where
  proceed skip rate_limited : GateAction

-- The results of `gateRepo`: continue, skip the repository, or abort the cycle as rate limited.
pub data GateOutcome : Type 0 where
  pass skipped gate_aborted : GateOutcome

module _ {E : Type 0} (d : Watcher E) where
  -- What the answer of `HasOpenUpdatePR` leads to, with whether an open pull request was seen.
  open_pr_action : Result Bool → M E (GateAction × Bool)
  open_pr_action (err Error.rate_limited) = pure (rate_limited, false)
  open_pr_action (err failed) = pure (skip, false)
  open_pr_action (ok true) = do emit (filter_skipped open_update_pr); pure (skip, true)
  open_pr_action (ok false) = pure (proceed, false)

  unfoldable pub open_update_pr_gate : Repo → M E (GateAction × Bool)
  unfolding open_pr_action
  open_update_pr_gate repo = do
    answer ← call (d.github.has_open_update_pr repo)
    open_pr_action answer

  clear_claim_of : Repo → Candidate → M E (Unit {0})
  clear_claim_of repo c = do
    cursor ← get_cursor
    put_cursor (clear_in_flight (key repo) (number c.latest_go) cursor)

  gate_outcome : Repo → Candidate → GateAction × Bool → M E GateOutcome
  gate_outcome repo c (proceed, _) = pure pass
  gate_outcome repo c (rate_limited, _) = pure gate_aborted
  gate_outcome repo c (skip, true) = do clear_claim_of repo c; pure skipped
  gate_outcome repo c (skip, false) = pure skipped

  unfoldable pub gate_repo : Repo → Candidate → M E GateOutcome
  unfolding open_update_pr_gate gate_outcome clear_claim_of
  gate_repo repo c = do action ← open_update_pr_gate repo; gate_outcome repo c action

  -- An unparsable time counts as expired.
  unfoldable pub in_flight_expired : RepoState → ℕ → Bool
  in_flight_expired s now = elim (d.parse_time s.in_flight_since) [
    | none ↦ true
    | some since ↦ ltb (since + in_flight_ttl) now
  ]

  -- Whether the entry claims the target of this cycle.
  unfoldable pub claims : Option RepoState → Text → Bool
  claims none target = false
  claims (some s) target = not (s.in_flight_target == []) && s.in_flight_target == target

  -- A claim that targets this cycle's version is cleared once the repository is not behind, or once
  -- it has expired.
  live_claim : Repo → Candidate → Option RepoState → M E Bool
  live_claim repo c none = pure false
  live_claim repo c (some s) = elim (go_behind c) [
    | false ↦ do clear_claim_of repo c; pure false
    | true ↦ do
      now ← call d.now
      elim (in_flight_expired s now) [
        | true ↦ do clear_claim_of repo c; pure false
        | false ↦ pure true
      ]
  ]

  unfoldable pub emission_claimed : Repo → Candidate → M E Bool
  unfolding live_claim claims clear_claim_of in_flight_expired
  emission_claimed repo c = do
    cursor ← get_cursor
    let state = entry (key repo) cursor
    elim (claims state (number c.latest_go)) [ false ↦ pure false | true ↦ live_claim repo c state ]

  unfoldable pub suppress_in_flight : Repo → Candidate → M E Bool
  unfolding emission_claimed
  suppress_in_flight repo c = do
    claimed ← emission_claimed repo c
    elim claimed [
      | false ↦ pure false
      | true ↦ do emit (filter_skipped emission_in_flight); pure true
    ]
