-- ===== src/GitHub/Api.antt =====
-- The calls of go-github that pkg/githubclient.go makes, with the fields of the replies that it
-- reads. A field that GitHub leaves out is its zero value, as the getters of go-github return it.
use github_update_go_watcher.Common.{ℕ, Bool, List, Option, Text}

-- What `errors.As` tells apart; an `ErrorResponse` carries its status unless it has no response.
pub data ApiError : Type 0 where
  rate_limit_error abuse_rate_limit_error other_error : ApiError
  error_response : Option ℕ → ApiError

pub data Reply (A : Type 0) : Type 0 where
  answer : A → Reply A
  fault : ApiError → Reply A

pub record Repository : Type 0 where
  pub archived : Bool
  pub owner_login : Text
  pub name : Text
  pub default_branch : Text

-- A page of a listing: its repositories, and the number of the next page. A missing response and the
-- number 0 both end the listing.
pub record Page : Type 0 where
  pub repositories : List Repository
  pub next_page : Option ℕ

-- A file: the size that the API reports, and the content unless its decoding fails.
pub record FileContent : Type 0 where
  pub size : ℕ
  pub content : Option Text

pub record PullRequest : Type 0 where
  pub merged_at : Option Text
  pub head_ref : Text

-- The filter of `PullRequests.List`: the state, and the head branch, empty for any.
pub record PullRequestQuery : Type 0 where
  pub state : Text
  pub head : Text

pub record Api (E : Type 0) : Type 0 where
  pub list_page : ℕ → E → Reply Page × E
  -- The SHA of the head commit of a branch, by owner, name and branch.
  pub get_branch : Text → Text → Text → E → Reply Text × E
  -- A file by owner, name, path and ref; `none` for a directory.
  pub get_contents : Text → Text → Text → Text → E → Reply (Option FileContent) × E
  pub list_pull_requests : Text → Text → PullRequestQuery → E → Reply (List PullRequest) × E
