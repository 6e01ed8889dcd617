-- ===== src/GitHub/Paging.antt =====
-- `ListRepos` of pkg/githubclient.go ends: the requests that it makes are bounded.
use github_update_go_watcher.Common.{
  ℕ, zero, suc, ◌+◌, ◌≤◌, arith, Bool, true, false, List, [], Option, none, some, Text, Result,
}
use github_update_go_watcher.GitHub.Api.{Api, Reply, Page, answer, fault}
use github_update_go_watcher.GitHub.Client.{
  unless_cancelled, after_next, after_page, list_from, list_repos, max_list_pages,
}
use github_update_go_watcher.Repo.{Repo}

module _ {E : Type 0} (api : Api E) (ctx_done : E → Bool × E) (owner : Text) where
  -- The calls of GitHub, with a count of the pages requested.
  abbrev pub counted : Api (ℕ × E)
  counted = record {
    list_page =
        λ page env. ((api.list_page page env.1).0, (suc env.0, (api.list_page page env.1).1));
    get_branch = λ owner name branch env. (
      (api.get_branch owner name branch env.1).0,
      (env.0, (api.get_branch owner name branch env.1).1),
    );
    get_contents = λ owner name path ref env. (
      (api.get_contents owner name path ref env.1).0,
      (env.0, (api.get_contents owner name path ref env.1).1),
    );
    list_pull_requests = λ owner name query env. (
      (api.list_pull_requests owner name query env.1).0,
      (env.0, (api.list_pull_requests owner name query env.1).1),
    );
  }

  abbrev pub counted_done : ℕ × E → Bool × (ℕ × E)
  counted_done env = ((ctx_done env.1).0, (env.0, (ctx_done env.1).1))

  -- The pages requested when the listing has ended.
  abbrev requests : Result (List Repo) × (ℕ × E) → ℕ
  requests end = end.1.0

  module _ (left : ℕ) (again : ℕ → List Repo → ℕ × E → Result (List Repo) × (ℕ × E))
      (later : (page : ℕ) (repos : List Repo) (env : ℕ × E)
        → requests (again page repos env) ≤ left + env.0) where
    after_next_bounded :
        (next : Option ℕ) (repos : List Repo) (env : ℕ × E)
        → requests (after_next counted counted_done again next repos env) ≤ left + env.0
    unfolding after_next
    after_next_bounded none repos env = omega arith
    after_next_bounded (some zero) repos env = omega arith
    after_next_bounded (some (suc page)) repos env = later (suc page) repos env

    after_page_bounded :
        (repos : List Repo) (reply : Reply Page) (env : ℕ × E)
        → requests (after_page counted counted_done owner repos again reply env) ≤ left + env.0
    unfolding after_page
    after_page_bounded repos (fault e) env = omega arith
    after_page_bounded repos (answer page) env = after_next_bounded page.next_page _ env

  unless_cancelled_bounded :
      (done : Bool) (more : ℕ × E → Result (List Repo) × (ℕ × E)) (env : ℕ × E) (bound : ℕ)
      → env.0 ≤ bound
      → requests (more env) ≤ bound
      → requests (unless_cancelled counted counted_done done more env) ≤ bound
  unfolding unless_cancelled
  unless_cancelled_bounded true more env bound h k = h
  unless_cancelled_bounded false more env bound h k = k

  list_from_bounded :
      (left page : ℕ) (repos : List Repo) (env : ℕ × E)
      → requests (list_from counted counted_done left owner page repos env) ≤ left + env.0
  unfolding list_from
  list_from_bounded zero page repos env = omega arith
  list_from_bounded (suc left) page repos env =
      unless_cancelled_bounded (ctx_done env.1).0 _ _ (suc left + env.0) (omega arith) (
        omega (
          arith,
          after_page_bounded left (list_from counted counted_done left owner)
              (list_from_bounded left) repos (api.list_page page (ctx_done env.1).1).0
              (suc env.0, (api.list_page page (ctx_done env.1).1).1),
        ))

  -- Whatever GitHub answers, also if it always names a next page, a listing ends behind at most the
  -- maximum number of page requests.
  pub list_repos_bounded :
      (env : E) → (list_repos counted counted_done owner (0, env)).1.0 ≤ max_list_pages
  unfolding list_repos
  list_repos_bounded env = omega (arith, list_from_bounded max_list_pages 1 [] (0, env))
