-- ===== src/GitHub.antt =====
-- pkg/githubclient.go: the interface by which the watcher reads GitHub. An operation reads the
-- environment, of any type, and leaves it changed. The children model the client behind it.
pub mod Api
pub mod Client
pub mod Owned
pub mod Listing
pub mod Paging
pub mod PullRequests
pub mod Contents
pub mod Faults
use github_update_go_watcher.Common.{Bool, List, Option, Text, Result}
use github_update_go_watcher.Filter.Maintainer.{Consent}
use github_update_go_watcher.Repo.{Repo}

pub record GitHubClient (E : Type 0) : Type 0 where
  pub list_repos : Text → E → Result (List Repo) × E
  pub get_head_sha : Repo → E → Result Text × E
  -- A missing file is `none`.
  pub get_go_mod : Repo → E → Result (Option Text) × E
  pub get_maintainer_config : Repo → E → Result Consent × E
  pub get_merged_update_pr : Repo → Text → E → Result Bool × E
  pub has_open_update_pr : Repo → E → Result Bool × E
