-- ===== src/GitHub/Faults.antt =====
-- The errors of pkg/githubclient.go: the sentinel that aborts a cycle stands for a rate limit, and
-- for nothing else.
use mathlib.Core.Logic.{if_neg}
use github_update_go_watcher.Common.{
  text_dec, ◌≡◌, ◌≢◌, ◌↔◌, arith, Bool, true, false, List, [], ◌∷◌, Option, none, some, Text, bytes,
  rate_limited, Result, ok, err,
}
use github_update_go_watcher.Filter.Maintainer.{YamlNode, verdict_of, parse_consent}
use github_update_go_watcher.GitHub.Api.{
  Api, Reply, answer, fault, FileContent, PullRequest, rate_limit_error, abuse_rate_limit_error,
  error_response, other_error,
}
use github_update_go_watcher.GitHub.Client.{
  unless_cancelled, any_pull_request, check_pull_requests, content_of, consent_of, get_go_mod,
  get_maintainer_config, get_head_sha, head_sha_of, has_open_update_pr, get_merged_update_pr,
}
use github_update_go_watcher.GitHub.PullRequests.{merged_query}
use github_update_go_watcher.Repo.{Repo}

-- GitHub reports a rate limit, the primary one or the secondary one (abuse).
unfoldable pub limits : {A : Type 0} → Reply A → Bool
limits (answer a) = false
limits (fault rate_limit_error) = true
limits (fault abuse_rate_limit_error) = true
limits (fault (error_response status)) = false
limits (fault other_error) = false

-- A result that is the sentinel exactly when the reply reports a rate limit.
abbrev pub Mirrors : {A B : Type 0} → Result A → Reply B → Type 0
Mirrors result reply = (result ≡ err rate_limited) ↔ (limits reply ≡ true)

head_sha_of-Mirrors : (reply : Reply Text) → Mirrors (head_sha_of reply) reply
unfolding head_sha_of limits
head_sha_of-Mirrors (answer sha) = ground arith
head_sha_of-Mirrors (fault rate_limit_error) = ground arith
head_sha_of-Mirrors (fault abuse_rate_limit_error) = ground arith
head_sha_of-Mirrors (fault (error_response status)) = ground arith
head_sha_of-Mirrors (fault other_error) = ground arith

content_of-Mirrors : (reply : Reply (Option FileContent)) → Mirrors (content_of reply) reply
unfolding content_of limits
content_of-Mirrors (answer file) = ground arith
content_of-Mirrors (fault rate_limit_error) = ground arith
content_of-Mirrors (fault abuse_rate_limit_error) = ground arith
content_of-Mirrors (fault (error_response status)) = ground arith
content_of-Mirrors (fault other_error) = ground arith

parse_consent-unlimited :
    (unmarshal : Text → Option YamlNode) (content : Text)
    → parse_consent unmarshal content ≢ err rate_limited
unfolding parse_consent verdict_of
parse_consent-unlimited unmarshal content h = ground arith

consent_of-Mirrors :
    (unmarshal : Text → Option YamlNode) (read : Result (Option Text))
    → (consent_of unmarshal read ≡ err rate_limited) ↔ (read ≡ err rate_limited)
unfolding consent_of
consent_of-Mirrors unmarshal (err e) = ground arith
consent_of-Mirrors unmarshal (ok none) = ground arith
consent_of-Mirrors unmarshal (ok (some content)) =
    ground (arith, parse_consent-unlimited unmarshal content)

configuration-Mirrors :
    (unmarshal : Text → Option YamlNode) (reply : Reply (Option FileContent))
    → Mirrors (consent_of unmarshal (content_of reply)) reply
configuration-Mirrors unmarshal reply =
    let (forth, back) = consent_of-Mirrors unmarshal (content_of reply) in
    let (read, unread) = content_of-Mirrors reply in (λ h. read (forth h), λ h. back (unread h))

module _ {E : Type 0} (api : Api E) (ctx_done : E → Bool × E) where
  any_pull_request-unlimited :
      (test : PullRequest → Bool) (prs : List PullRequest) (env : E)
      → (any_pull_request api ctx_done test prs env).0 ≢ err rate_limited
  unfolding any_pull_request unless_cancelled
  any_pull_request-unlimited test [] env h = ground arith
  any_pull_request-unlimited test (pr ∷ prs) env h =
      ground (arith, any_pull_request-unlimited test prs (ctx_done env).1)

  check_pull_requests-Mirrors :
      (test : PullRequest → Bool) (reply : Reply (List PullRequest)) (env : E)
      → Mirrors (check_pull_requests api ctx_done test reply env).0 reply
  unfolding check_pull_requests limits
  check_pull_requests-Mirrors test (fault rate_limit_error) env = ground arith
  check_pull_requests-Mirrors test (fault abuse_rate_limit_error) env = ground arith
  check_pull_requests-Mirrors test (fault (error_response status)) env = ground arith
  check_pull_requests-Mirrors test (fault other_error) env = ground arith
  check_pull_requests-Mirrors test (answer prs) env =
      ground (arith, any_pull_request-unlimited test prs env)

  get_head_sha-Mirrors :
      (repo : Repo) (env : E)
      → repo.default_branch ≢ []
      → Mirrors
          (get_head_sha api ctx_done repo env).0
          (api.get_branch repo.owner repo.name repo.default_branch env).0
  unfolding get_head_sha
  get_head_sha-Mirrors repo env branch =
      rw (if_neg (text_dec repo.default_branch []) branch) (head_sha_of-Mirrors _)

  -- For a repository with a default branch, each of the five reads returns the sentinel exactly when
  -- GitHub answers it with a rate limit, primary or secondary.
  pub reads-rate_limited :
      (unmarshal : Text → Option YamlNode) (repo : Repo) (sha : Text) (env : E)
      → repo.default_branch ≢ []
      → Mirrors
          (get_head_sha api ctx_done repo env).0
          (api.get_branch repo.owner repo.name repo.default_branch env).0
        × Mirrors
            (get_go_mod api ctx_done repo env).0
            (api.get_contents repo.owner repo.name (bytes "go.mod") repo.default_branch env).0
        × Mirrors
            (get_maintainer_config api ctx_done unmarshal repo env).0
            (api.get_contents repo.owner repo.name
              (bytes ".maintainer.yaml")
              repo.default_branch
              env).0
        × Mirrors
            (has_open_update_pr api ctx_done repo env).0
            (api.list_pull_requests repo.owner repo.name
              (record { state = bytes "open"; head = [] })
              env).0
        × Mirrors
            (get_merged_update_pr api ctx_done repo sha env).0
            (api.list_pull_requests repo.owner repo.name (merged_query repo sha) env).0
  unfolding get_head_sha get_go_mod get_maintainer_config has_open_update_pr get_merged_update_pr
  reads-rate_limited unmarshal repo sha env branch = (
    get_head_sha-Mirrors repo env branch,
    content_of-Mirrors _,
    configuration-Mirrors unmarshal _,
    check_pull_requests-Mirrors _ _ _,
    check_pull_requests-Mirrors _ _ _,
  )
