-- ===== src/GitHub/PullRequests.antt =====
-- The two pull request checks of pkg/githubclient.go.
use github_update_go_watcher.Common.{
  ◌≡◌, ◌↔◌, ◌⊎◌, inl, inr, refl, Bool-cases, Option-cases, arith, Bool, true, false, List, [], ◌∷◌,
  ◌++◌, some, Text, bytes, ok, has_prefix, strip_prefix-append, strip_prefix_sound, strip_prefix,
}
use github_update_go_watcher.GitHub.Api.{Api, PullRequest, PullRequestQuery, answer}
use github_update_go_watcher.GitHub.Client.{
  unless_cancelled, any_pull_request, check_pull_requests, is_update_pr, has_open_update_pr,
  update_branch_name, update_branch_prefix, is_merged, get_merged_update_pr,
}
use github_update_go_watcher.Repo.{Repo}

-- Some pull request of the list has the property.
unfoldable pub Some : (PullRequest → Type 0) → List PullRequest → Type 0
Some P [] = ⊥
Some P (pr ∷ prs) = P pr ⊎ Some P prs

-- The head branch is one that the agent opens for some commit.
abbrev pub IsUpdateBranch : PullRequest → Type 0
IsUpdateBranch pr = (rest : Text) × (pr.head_ref ≡ update_branch_prefix ++ rest)

has_prefix_iff : (s p : Text) → (has_prefix s p ≡ true) ↔ ((rest : Text) × (s ≡ p ++ rest))
has_prefix_iff s p =
    (has_prefix_sound, λ (rest, h). rw (h, has_prefix, strip_prefix-append p rest) refl)
  where
    has_prefix_sound : has_prefix s p ≡ true → (rest : Text) × (s ≡ p ++ rest)
    has_prefix_sound h = elim (Option-cases (strip_prefix p s)) [
      | inl missing ↦ ground arith
      | inr (rest, found) ↦ (rest, strip_prefix_sound p s found)
    ]

is_update_pr_iff : (pr : PullRequest) → (is_update_pr pr ≡ true) ↔ IsUpdateBranch pr
unfolding is_update_pr
is_update_pr_iff pr = has_prefix_iff pr.head_ref update_branch_prefix

abbrev pub IsMerged : PullRequest → Type 0
IsMerged pr = (time : Text) × (pr.merged_at ≡ some time)

is_merged_iff : (pr : PullRequest) → (is_merged pr ≡ true) ↔ IsMerged pr
unfolding is_merged
is_merged_iff pr = ground arith

-- The branch that the agent opens for a commit is one that the open check looks for.
update_branch_name-IsUpdateBranch :
    (sha : Text) (pr : PullRequest) → pr.head_ref ≡ update_branch_name sha → IsUpdateBranch pr
unfolding update_branch_name
update_branch_name-IsUpdateBranch sha pr h = (_, h)

Some-map :
    {P Q : PullRequest → Type 0}
    → ((pr : PullRequest) → P pr → Q pr)
    → (prs : List PullRequest) → Some P prs
    → Some Q prs
unfolding Some
Some-map f [] h = h
Some-map f (pr ∷ prs) (inl here) = inl (f pr here)
Some-map f (pr ∷ prs) (inr later) = inr (Some-map f prs later)

-- The pull requests of any state whose branch is the agent's for the commit.
abbrev pub merged_query : Repo → Text → PullRequestQuery
merged_query repo sha = record {
  state = bytes "all";
  head = repo.owner ++ (bytes ":" ++ update_branch_name sha);
}

module _ {E : Type 0} (api : Api E) (ctx_done : E → Bool × E)
    (live : (env : E) → (ctx_done env).0 ≡ false) where
  module _ (test : PullRequest → Bool) (P : PullRequest → Type 0)
      (test_iff : (pr : PullRequest) → (test pr ≡ true) ↔ P pr) where
    any_after :
        (pr : PullRequest) (prs : List PullRequest) {A : Type 0}
        → test pr ≡ false
        → A ↔ Some P prs
        → A ↔ Some P (pr ∷ prs)
    unfolding Some
    any_after pr prs miss (forth, back) = (
      λ a. inr (forth a),
      λ found. elim found [
        | inl here ↦ ground (arith, (test_iff pr).1 here)
        | inr later ↦ back later
      ],
    )

    any_pull_request_iff :
        (prs : List PullRequest) (env : E)
        → ((any_pull_request api ctx_done test prs env).0 ≡ ok true) ↔ Some P prs
    unfolding any_pull_request unless_cancelled Some
    any_pull_request_iff [] env = ground arith
    any_pull_request_iff (pr ∷ prs) env = rw (live env) (elim (Bool-cases (test pr)) [
      | inl hit ↦ rw (hit) (λ _. inl ((test_iff pr).0 hit), λ _. refl)
      | inr miss ↦ rw (miss) (any_after pr prs miss (any_pull_request_iff prs _))
    ])

  -- With an answer of GitHub and a context that is not cancelled, an open update pull request is
  -- reported exactly when one of the listed pull requests has a branch of the agent.
  pub has_open_update_pr_iff :
      (repo : Repo) (prs : List PullRequest) (env : E)
      → (api.list_pull_requests repo.owner repo.name
          (record { state = bytes "open"; head = [] })
          env).0
        ≡ answer prs
      → ((has_open_update_pr api ctx_done repo env).0 ≡ ok true) ↔ Some IsUpdateBranch prs
  unfolding has_open_update_pr check_pull_requests
  has_open_update_pr_iff repo prs env h =
      rw (h) (any_pull_request_iff is_update_pr IsUpdateBranch is_update_pr_iff prs _)

  -- With an answer of GitHub to the query for the branch of a commit and a context that is not
  -- cancelled, a merged update is reported exactly when one of the listed pull requests is merged.
  pub get_merged_update_pr_iff :
      (repo : Repo) (sha : Text) (prs : List PullRequest) (env : E)
      → (api.list_pull_requests repo.owner repo.name (merged_query repo sha) env).0 ≡ answer prs
      → ((get_merged_update_pr api ctx_done repo sha env).0 ≡ ok true) ↔ Some IsMerged prs
  unfolding get_merged_update_pr check_pull_requests
  get_merged_update_pr_iff repo sha prs env h =
      rw (h) (any_pull_request_iff is_merged IsMerged is_merged_iff prs _)

  -- With an answer of GitHub and a context that is not cancelled, a listed pull request on the branch
  -- of any commit, by the name that the merge check asks for, is reported as an open update.
  pub has_open_update_pr-branch :
      (repo : Repo) (sha : Text) (prs : List PullRequest) (env : E)
      → (api.list_pull_requests repo.owner repo.name
          (record { state = bytes "open"; head = [] })
          env).0
        ≡ answer prs
      → Some (λ pr. pr.head_ref ≡ update_branch_name sha) prs
      → (has_open_update_pr api ctx_done repo env).0 ≡ ok true
  has_open_update_pr-branch repo sha prs env h found =
      (has_open_update_pr_iff repo prs env h).1
        (Some-map (update_branch_name-IsUpdateBranch sha) prs found)
