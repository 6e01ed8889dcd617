-- ===== src/Examples/GitHubApi.antt =====
-- The GitHub client on a small installation: two pages of repositories, an open and a merged update
-- pull request, a go.mod, and a configuration that grants updates.
use github_update_go_watcher.Common.{
  ℕ, ◌<◌, ◌⊎◌, suc, ◌≤◌, ◌≡◌, ◌↔◌, refl, arith, Bool, true, false, List, [], ◌∷◌, Option, none,
  some, Text, bytes, length, ok, err, failed,
}
use github_update_go_watcher.Filter.Maintainer.{YamlNode, parse_consent, verdict_of, node_consent}
use github_update_go_watcher.GitHub.Api.{Api, Reply, answer, Page, Repository, PullRequest}
use github_update_go_watcher.GitHub.Client.{
  list_repos, get_go_mod, get_maintainer_config, get_head_sha, has_open_update_pr,
  get_merged_update_pr, max_list_pages, max_content_bytes, content_of, consent_of,
}
use github_update_go_watcher.GitHub.Contents.{IsTrue, get_maintainer_config-granted}
use github_update_go_watcher.GitHub.Faults.{Mirrors, reads-rate_limited}
use github_update_go_watcher.GitHub.Listing.{all_of, list_repos-pages}
use github_update_go_watcher.GitHub.Owned.{Picks}
use github_update_go_watcher.GitHub.Paging.{counted, counted_done, list_repos_bounded}
use github_update_go_watcher.GitHub.PullRequests.{
  Some, IsMerged, IsUpdateBranch, merged_query, get_merged_update_pr_iff, has_open_update_pr_iff,
}
use github_update_go_watcher.Repo.{Repo}

abbrev pub alice : Text
alice = bytes "alice"

abbrev tool : Repo
tool = record { owner = alice; name = bytes "tool"; default_branch = bytes "main" }

abbrev sha : Text
sha = bytes "0123456789"

abbrev first_page : List Repository
first_page =
    record {
      archived = false;
      owner_login = alice;
      name = bytes "tool";
      default_branch = bytes "main";
    }
    ∷ record {
      archived = true;
      owner_login = alice;
      name = bytes "old";
      default_branch = bytes "main";
    }
    ∷ record {
      archived = false;
      owner_login = bytes "bob";
      name = bytes "lib";
      default_branch = bytes "main";
    }
    ∷ []

abbrev second_page : List Repository
second_page =
    record {
      archived = false;
      owner_login = alice;
      name = bytes "site";
      default_branch = bytes "master";
    }
    ∷ []

abbrev list_page : ℕ → Unit {0} → Reply Page × Unit {0}
list_page (suc (suc n)) e = (answer (record { repositories = second_page; next_page = some 0 }), e)
list_page n e = (answer (record { repositories = first_page; next_page = some 2 }), e)

abbrev update_pr : PullRequest
update_pr = record {
  merged_at = some (bytes "2026-01-01T00:00:00Z");
  head_ref = bytes "fix/update-go-0123456";
}

abbrev other_pr : PullRequest
other_pr = record { merged_at = none; head_ref = bytes "feature" }

abbrev go_mod : Text
go_mod = bytes "go 1.25"

abbrev pub installation : Api (Unit {0})
installation = record {
  list_page = list_page;
  get_branch = λ owner name branch e. (answer sha, e);
  get_contents =
      λ owner name path ref e. (answer (some (record { size = 7; content = some go_mod })), e);
  list_pull_requests = λ owner name query e. (answer (other_pr ∷ update_pr ∷ []), e);
}

abbrev pub never_done : Unit {0} → Bool × Unit {0}
never_done e = (false, e)

abbrev pub yaml_true : Text → Option YamlNode
yaml_true content = some (record { kind = 8; tag = "!!bool"; value = "true" })

-- GitHub names a next page forever.
abbrev endless : Api (Unit {0})
endless = record installation {
  list_page = λ n e. (answer (record { repositories = first_page; next_page = some (suc n) }), e);
}

list_repos_bounded_example :
    (list_repos
      (counted endless never_done alice)
      (counted_done endless never_done alice)
      alice
      (0, tt)).1.0
    ≤ max_list_pages
list_repos_bounded_example = list_repos_bounded endless never_done alice tt

list_repos-pages_example :
    ((length (second_page ∷ []) < max_list_pages)
      × (repos : List Repo) × ((list_repos installation never_done alice tt).0 ≡ ok repos)
      × Picks alice (all_of installation never_done alice first_page (second_page ∷ [])) repos)
    ⊎ ((max_list_pages ≤ length (second_page ∷ []))
        × ((list_repos installation never_done alice tt).0 ≡ err failed))
list_repos-pages_example =
    list_repos-pages installation never_done alice (λ e. refl) first_page (second_page ∷ []) tt
      ((λ e. refl), λ e. refl)

has_open_update_pr_iff_example :
    ((has_open_update_pr installation never_done tool tt).0 ≡ ok true)
    ↔ Some IsUpdateBranch (other_pr ∷ update_pr ∷ [])
has_open_update_pr_iff_example =
    has_open_update_pr_iff installation never_done (λ e. refl) tool (other_pr ∷ update_pr ∷ []) tt
      refl

get_merged_update_pr_iff_example :
    ((get_merged_update_pr installation never_done tool sha tt).0 ≡ ok true)
    ↔ Some IsMerged (other_pr ∷ update_pr ∷ [])
get_merged_update_pr_iff_example =
    get_merged_update_pr_iff installation never_done (λ e. refl) tool sha
      (other_pr ∷ update_pr ∷ []) tt refl

get_maintainer_config-granted_example :
    (size : ℕ) × (content : Text) × (node : YamlNode) × ((installation.get_contents alice
        (bytes "tool")
        (bytes ".maintainer.yaml")
        (bytes "main")
        tt).0
      ≡ answer (some (record { size = size; content = some content })))
    × (size ≤ max_content_bytes)
    × (length content ≤ max_content_bytes)
    × (yaml_true content ≡ some node)
    × IsTrue node
unfolding get_maintainer_config consent_of content_of parse_consent verdict_of node_consent
get_maintainer_config-granted_example =
    get_maintainer_config-granted installation never_done yaml_true tool tt refl

reads-rate_limited_example :
    Mirrors
      (get_head_sha installation never_done tool tt).0
      (installation.get_branch alice (bytes "tool") (bytes "main") tt).0
    × Mirrors
        (get_go_mod installation never_done tool tt).0
        (installation.get_contents alice (bytes "tool") (bytes "go.mod") (bytes "main") tt).0
    × Mirrors
        (get_maintainer_config installation never_done yaml_true tool tt).0
        (installation.get_contents alice
          (bytes "tool")
          (bytes ".maintainer.yaml")
          (bytes "main")
          tt).0
    × Mirrors
        (has_open_update_pr installation never_done tool tt).0
        (installation.list_pull_requests alice
          (bytes "tool")
          (record { state = bytes "open"; head = [] })
          tt).0
    × Mirrors
        (get_merged_update_pr installation never_done tool sha tt).0
        (installation.list_pull_requests alice (bytes "tool") (merged_query tool sha) tt).0
reads-rate_limited_example =
    reads-rate_limited installation never_done yaml_true tool sha tt (ground arith)
