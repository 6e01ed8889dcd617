-- ===== src/Watcher/Observe.antt =====
-- `gatherCandidate` of pkg/watcher.go.
use github_update_go_watcher.Candidate.{Candidate}
use github_update_go_watcher.Common.{
  true, false, Option, none, some, Text, Error, failed, Result, ok, err,
}
use github_update_go_watcher.Filter.Maintainer.{Consent}
use github_update_go_watcher.GoMod.{parse_go_mod_version}
use github_update_go_watcher.Repo.{Repo}
use github_update_go_watcher.Version.{Version, zero_version}
use github_update_go_watcher.Watcher.State.{PollResult, Watcher, M, ◌>>=◌, pure, call}

-- The three results of `gatherCandidate`: a candidate, an abort reason, or a dropped repository.
pub data Gathered : Type 0 where
  gathered : Candidate → Gathered
  aborted : PollResult → Gathered
  dropped : Gathered

-- The candidate of a repository, whose go.mod is missing, unparsable or read.
unfoldable pub observe : Repo → Text → Version → Consent → Option Text → Candidate
observe repo sha latest consent none = record {
  repo = repo;
  head_sha = sha;
  go_mod_present = false;
  go_mod_parsable = false;
  current_go = zero_version;
  latest_go = latest;
  consent = consent;
}
observe repo sha latest consent (some go_mod) = elim (parse_go_mod_version go_mod) [
  | ok current ↦ record {
    repo = repo;
    head_sha = sha;
    go_mod_present = true;
    go_mod_parsable = true;
    current_go = current;
    latest_go = latest;
    consent = consent;
  }
  | err e ↦ record {
    repo = repo;
    head_sha = sha;
    go_mod_present = true;
    go_mod_parsable = false;
    current_go = zero_version;
    latest_go = latest;
    consent = consent;
  }
]

module _ {E : Type 0} where
  -- The error branches of each read: a rate limit aborts the cycle, any other error drops the
  -- repository.
  unfoldable pub on_ok : {A : Type 0} → Result A → (A → M E Gathered) → M E Gathered
  on_ok (ok a) next = next a
  on_ok (err Error.rate_limited) next = pure (aborted PollResult.rate_limited)
  on_ok (err failed) next = pure dropped

  module _ (d : Watcher E) where
    unfoldable pub gather_candidate : Repo → Version → M E Gathered
    unfolding on_ok
    gather_candidate repo latest = do
      head_sha ← call (d.github.get_head_sha repo)
      on_ok head_sha λ sha. do
        go_mod ← call (d.github.get_go_mod repo)
        on_ok go_mod λ content. do
          consent ← call (d.github.get_maintainer_config repo)
          on_ok consent λ verdict. pure (gathered (observe repo sha latest verdict content))
