-- ===== src/GitHub/Client.antt =====
-- `githubClient` of pkg/githubclient.go over the calls of go-github.
use github_update_go_watcher.Common.{
  ℕ, suc, zero, ◌*◌, Bool, true, false, not, List, [], ◌∷◌, ◌++◌, Option, none, some, Text, bytes,
  take, length, ltb, ◌=?◌, ◌==◌, has_prefix, Error, rate_limited, failed, Result, ok, err,
  if◌then◌else◌,
}
use github_update_go_watcher.Filter.Maintainer.{Consent, undecided, parse_consent, YamlNode}
use github_update_go_watcher.GitHub.Api.{
  ApiError, rate_limit_error, abuse_rate_limit_error, error_response, other_error, Reply, answer,
  fault, Repository, Page, FileContent, PullRequest, Api,
}
use github_update_go_watcher.GitHub.{GitHubClient}
use github_update_go_watcher.Repo.{Repo}

abbrev pub max_content_bytes : ℕ
max_content_bytes = 1024 * 1024

abbrev pub max_list_pages : ℕ
max_list_pages = 100

abbrev pub update_branch_prefix : Text
update_branch_prefix = bytes "fix/update-go-"

-- `isRateLimitError`
abbrev pub is_rate_limit_error : ApiError → Bool
is_rate_limit_error rate_limit_error = true
is_rate_limit_error abuse_rate_limit_error = true
is_rate_limit_error (error_response status) = false
is_rate_limit_error other_error = false

-- `isNotFound`
abbrev pub is_not_found : ApiError → Bool
is_not_found (error_response (some status)) = status =? 404
is_not_found (error_response none) = false
is_not_found rate_limit_error = false
is_not_found abuse_rate_limit_error = false
is_not_found other_error = false

-- `wrapRateLimitErr`
abbrev pub wrap_rate_limit_err : ApiError → Error
wrap_rate_limit_err e = if is_rate_limit_error e then rate_limited else failed

-- `mapGitHubRepos`
unfoldable pub map_github_repos : List Repository → Text → List Repo
map_github_repos [] owner = []
map_github_repos (r ∷ rs) owner =
    let rest = map_github_repos rs owner in
    if r.archived
    then rest
    else if not (r.owner_login == owner)
    then rest
    else if r.name == []
    then rest
    else record { owner = r.owner_login; name = r.name; default_branch = r.default_branch } ∷ rest

-- `updateBranchName`
unfoldable pub update_branch_name : Text → Text
update_branch_name head_sha =
    update_branch_prefix ++ (if ltb 7 (length head_sha) then take 7 head_sha else head_sha)

-- `pr.MergedAt != nil`
unfoldable pub is_merged : PullRequest → Bool
is_merged pr = elim pr.merged_at [ none ↦ false | some at ↦ true ]

-- `strings.HasPrefix(pr.GetHead().GetRef(), updateBranchPrefix)`
unfoldable pub is_update_pr : PullRequest → Bool
is_update_pr pr = has_prefix pr.head_ref update_branch_prefix

-- What `GetHeadSHA` makes of the branch.
unfoldable pub head_sha_of : Reply Text → Result Text
head_sha_of (answer sha) = ok sha
head_sha_of (fault e) = err (wrap_rate_limit_err e)

-- The size is checked before the content is decoded, and the content again.
unfoldable pub content_of : Reply (Option FileContent) → Result (Option Text)
content_of (fault e) =
    if is_not_found e
    then ok none
    else if is_rate_limit_error e
    then err rate_limited
    else err failed
content_of (answer none) = ok none
content_of (answer (some file)) =
    if ltb max_content_bytes file.size then err failed else elim file.content [
      | none ↦ err failed
      | some decoded ↦
          if ltb max_content_bytes (length decoded) then err failed else ok (some decoded)
    ]

-- The verdict of the file that was read; a missing one leaves the owner undecided.
unfoldable pub consent_of : (Text → Option YamlNode) → Result (Option Text) → Result Consent
consent_of unmarshal (err e) = err e
consent_of unmarshal (ok none) = ok undecided
consent_of unmarshal (ok (some content)) = parse_consent unmarshal content

module _ {E : Type 0} (api : Api E) (ctx_done : E → Bool × E) where
  -- What follows the check of the context at the head of a loop; a cancelled one is an error.
  unfoldable pub unless_cancelled : {A : Type 0} → Bool → (E → Result A × E) → E → Result A × E
  unless_cancelled true more e = (err failed, e)
  unless_cancelled false more e = more e

  -- The end of a round of `ListRepos`: the end of the listing, or the next page.
  unfoldable pub after_next :
      (ℕ → List Repo → E → Result (List Repo) × E)
      → Option ℕ
      → List Repo
      → E
      → Result (List Repo) × E
  after_next again none repos env = (ok repos, env)
  after_next again (some zero) repos env = (ok repos, env)
  after_next again (some (suc n)) repos env = again (suc n) repos env

  unfoldable pub after_page :
      Text
      → List Repo
      → (ℕ → List Repo → E → Result (List Repo) × E)
      → Reply Page
      → E
      → Result (List Repo) × E
  after_page owner repos again (fault e) env = (err (wrap_rate_limit_err e), env)
  after_page owner repos again (answer page) env =
      after_next again page.next_page (repos ++ map_github_repos page.repositories owner) env

  -- The loop of `ListRepos`, by the number of pages that are still allowed: none are left once the
  -- counter has reached the maximum, and then a next page is an error.
  unfoldable pub list_from : ℕ → Text → ℕ → List Repo → E → Result (List Repo) × E
  list_from zero owner page repos env = (err failed, env)
  list_from (suc left) owner page repos env =
      unless_cancelled (ctx_done env).0
        (λ env₁.
          after_page owner repos (list_from left owner) (api.list_page page env₁).0
            (api.list_page page env₁).1)
        (ctx_done env).1

  unfoldable pub list_repos : Text → E → Result (List Repo) × E
  list_repos owner = list_from max_list_pages owner 1 []

  unfoldable pub get_head_sha : Repo → E → Result Text × E
  get_head_sha repo env =
      if repo.default_branch == []
      then (err failed, env)
      else (let (reply, env₁) = api.get_branch repo.owner repo.name repo.default_branch env in
          (head_sha_of reply, env₁))

  unfoldable pub get_go_mod : Repo → E → Result (Option Text) × E
  get_go_mod repo env =
      let (reply, env₁) =
        api.get_contents repo.owner repo.name (bytes "go.mod") repo.default_branch env in
      (content_of reply, env₁)

  unfoldable pub get_maintainer_config : (Text → Option YamlNode) → Repo → E → Result Consent × E
  get_maintainer_config unmarshal repo env =
      let (reply, env₁) =
        api.get_contents repo.owner repo.name (bytes ".maintainer.yaml") repo.default_branch env in
      (consent_of unmarshal (content_of reply), env₁)

  -- The loop over the pull requests of the two checks, up to the first that has what they look for.
  unfoldable pub any_pull_request : (PullRequest → Bool) → List PullRequest → E → Result Bool × E
  any_pull_request test [] env = (ok false, env)
  any_pull_request test (pr ∷ prs) env =
      unless_cancelled (ctx_done env).0
        (λ env₁. if test pr then (ok true, env₁) else any_pull_request test prs env₁)
        (ctx_done env).1

  unfoldable pub check_pull_requests :
      (PullRequest → Bool) → Reply (List PullRequest) → E → Result Bool × E
  check_pull_requests test (fault e) env =
      (err (if is_rate_limit_error e then rate_limited else failed), env)
  check_pull_requests test (answer prs) env = any_pull_request test prs env

  unfoldable pub get_merged_update_pr : Repo → Text → E → Result Bool × E
  get_merged_update_pr repo head_sha env =
      let head = repo.owner ++ (bytes ":" ++ update_branch_name head_sha) in
      let (reply, env₁) =
        api.list_pull_requests repo.owner repo.name (record { state = bytes "all"; head = head })
          env in
      check_pull_requests is_merged reply env₁

  -- Only the first page of open pull requests is read.
  unfoldable pub has_open_update_pr : Repo → E → Result Bool × E
  has_open_update_pr repo env =
      let (reply, env₁) =
        api.list_pull_requests repo.owner repo.name (record { state = bytes "open"; head = [] })
          env in
      check_pull_requests is_update_pr reply env₁

  -- The client behind the interface of the watcher.
  unfoldable pub github_client : (Text → Option YamlNode) → GitHubClient E
  github_client unmarshal = record {
    list_repos = list_repos;
    get_head_sha = get_head_sha;
    get_go_mod = get_go_mod;
    get_maintainer_config = get_maintainer_config unmarshal;
    get_merged_update_pr = get_merged_update_pr;
    has_open_update_pr = has_open_update_pr;
  }
