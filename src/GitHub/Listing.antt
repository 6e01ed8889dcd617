-- ===== src/GitHub/Listing.antt =====
-- `ListRepos` of pkg/githubclient.go: what it lists, and how far it reads.
use github_update_go_watcher.Common.{
  Bool-cases, ◌∙◌, ◌⊎◌, inl, inr, ◌<◌, ◌≤◌, ℕ, zero, suc, ◌≡◌, refl, arith, Bool, true, false, List,
  [], ◌∷◌, ◌++◌, append_assoc, Option, none, some, Text, length, ltb, All, All-append, Result, ok,
  err, failed, if◌then◌else◌,
}
use github_update_go_watcher.GitHub.Api.{Api, Reply, Page, Repository, answer, fault}
use github_update_go_watcher.GitHub.Client.{
  map_github_repos, unless_cancelled, after_next, after_page, list_from, list_repos, max_list_pages,
}
use github_update_go_watcher.Repo.{Repo}
use github_update_go_watcher.GitHub.Owned.{
  IsOwned, Picks, map_github_repos-IsOwned, map_github_repos-Picks,
}

ltb-lt : (m n : ℕ) → ltb m n ≡ true → m < n
ltb-lt m n h = ground arith

ltb-ge : (m n : ℕ) → ltb m n ≡ false → n ≤ m
ltb-ge m n h = ground arith

map_github_repos-append :
    (rs rs' : List Repository) (owner : Text)
    → map_github_repos (rs ++ rs') owner ≡ map_github_repos rs owner ++ map_github_repos rs' owner
unfolding map_github_repos
map_github_repos-append [] rs' owner = refl
map_github_repos-append (r ∷ rs) rs' owner = ground (arith, map_github_repos-append rs rs' owner)

ltb-zero : (n : ℕ) → ltb n 0 ≡ false
ltb-zero n = ground arith

ltb-suc : (m n : ℕ) → ltb (suc m) (suc n) ≡ ltb m n
ltb-suc m n = ground arith

module _ {E : Type 0} (api : Api E) (ctx_done : E → Bool × E) (owner : Text) where
  -- A result whose repositories, if there are any, are the owner's.
  abbrev pub ListsOwned : Result (List Repo) → Type 0
  ListsOwned (err e) = Unit
  ListsOwned (ok repos) = All (IsOwned owner) repos

  module _ (again : ℕ → List Repo → E → Result (List Repo) × E)
      (later : (n : ℕ) (all : List Repo) (env : E)
        → All (IsOwned owner) all
        → ListsOwned (again n all env).0) where
    after_next-ListsOwned :
        (next : Option ℕ) (repos : List Repo) (env : E)
        → All (IsOwned owner) repos
        → ListsOwned (after_next api ctx_done again next repos env).0
    unfolding after_next
    after_next-ListsOwned none repos env h = h
    after_next-ListsOwned (some zero) repos env h = h
    after_next-ListsOwned (some (suc n)) repos env h = later (suc n) repos env h

    after_page-ListsOwned :
        (repos : List Repo) (reply : Reply Page) (env : E)
        → All (IsOwned owner) repos
        → ListsOwned (after_page api ctx_done owner repos again reply env).0
    unfolding after_page
    after_page-ListsOwned repos (fault e) env h = tt
    after_page-ListsOwned repos (answer page) env h =
        after_next-ListsOwned page.next_page _ env
          (All-append (IsOwned owner) repos _ h (map_github_repos-IsOwned page.repositories owner))

  unless_cancelled-ListsOwned :
      (done : Bool) (more : E → Result (List Repo) × E) (env : E)
      → ListsOwned (more env).0
      → ListsOwned (unless_cancelled api ctx_done done more env).0
  unfolding unless_cancelled
  unless_cancelled-ListsOwned true more env h = tt
  unless_cancelled-ListsOwned false more env h = h

  list_from-ListsOwned :
      (left page : ℕ) (repos : List Repo) (env : E)
      → All (IsOwned owner) repos
      → ListsOwned (list_from api ctx_done left owner page repos env).0
  unfolding list_from
  list_from-ListsOwned zero page repos env h = tt
  list_from-ListsOwned (suc left) page repos env h =
      unless_cancelled-ListsOwned (ctx_done env).0 _ _ (
        after_page-ListsOwned (list_from api ctx_done left owner) (list_from-ListsOwned left) repos
          _ _ h)

  -- Every repository that is listed belongs to the owner that was asked for, and has a name,
  -- whatever GitHub answers.
  pub list_repos-ListsOwned : (env : E) → ListsOwned (list_repos api ctx_done owner env).0
  unfolding list_repos
  list_repos-ListsOwned env = list_from-ListsOwned max_list_pages 1 [] env tt

  -- The listing has a page with these repositories under the number, and the others behind it.
  abbrev pub Serves : ℕ → List Repository → List (List Repository) → Type 0
  Serves n rs [] =
      (env : E)
      → (api.list_page n env).0 ≡ answer (record { repositories = rs; next_page = some 0 })
  Serves n rs (more ∷ pages) =
      ((env : E)
        → (api.list_page n env).0 ≡ answer (record { repositories = rs; next_page = some (suc n) }))
      × Serves (suc n) more pages

  -- The repositories of all pages, in their order.
  abbrev pub all_of : List Repository → List (List Repository) → List Repository
  all_of rs [] = rs
  all_of rs (more ∷ pages) = rs ++ all_of more pages

  module _ (live : (env : E) → (ctx_done env).0 ≡ false) where
    -- A round on a page that is served goes on from it with the repositories that it adds.
    list_from_round :
        (left n : ℕ) (repos : List Repo) (page : Page) (env : E)
        → ((env : E) → (api.list_page n env).0 ≡ answer page)
        → list_from api ctx_done (suc left) owner n repos env
          ≡ after_next api ctx_done
              (list_from api ctx_done left owner)
              page.next_page
              (repos ++ map_github_repos page.repositories owner)
              (api.list_page n (ctx_done env).1).1
    unfolding list_from unless_cancelled after_page
    list_from_round left n repos page env h = rw (live env) (rw (h (ctx_done env).1) refl)

    list_from-zero :
        (n : ℕ) (repos : List Repo) (env : E)
        → (list_from api ctx_done zero owner n repos env).0 ≡ err failed
    unfolding list_from
    list_from-zero n repos env = refl

    list_from-pages :
        (left n : ℕ) (rs : List Repository) (pages : List (List Repository)) (repos : List Repo)
        (env : E)
        → Serves n rs pages
        → (list_from api ctx_done left owner n repos env).0 ≡ (
            if ltb (length pages) left
            then ok (repos ++ map_github_repos (all_of rs pages) owner)
            else err failed)
    unfolding after_next
    list_from-pages zero n rs pages repos env h =
        rw (ltb-zero (length pages)) (list_from-zero n repos env)
    list_from-pages (suc left) n rs [] repos env h =
        rw (list_from_round left n repos _ env h) (ground arith)
    list_from-pages (suc left) n rs (more ∷ pages) repos env h =
        rw (list_from_round left n repos _ env h.0) (
          rw
            (list_from-pages left (suc n) more pages (repos ++ map_github_repos rs owner)
              (api.list_page n (ctx_done env).1).1 h.1)
            (rw (map_github_repos-append rs (all_of more pages) owner) (
              rw
                (append_assoc repos (map_github_repos rs owner)
                  (map_github_repos (all_of more pages) owner))
                (rw (ltb-suc (length pages) left) refl))))

    -- The listing, by what the pages hold.
    list_repos-all_of :
        (rs : List Repository) (pages : List (List Repository)) (env : E)
        → Serves 1 rs pages
        → (list_repos api ctx_done owner env).0 ≡ (
            if ltb (length pages) max_list_pages
            then ok (map_github_repos (all_of rs pages) owner)
            else err failed)
    unfolding list_repos
    list_repos-all_of rs pages env h = list_from-pages max_list_pages 1 rs pages [] env h

    -- If the context is not cancelled, a listing of at most a hundred pages yields, in order, of all
    -- their repositories exactly those that are not archived, belong to the owner and have a name; a
    -- longer one fails.
    pub list_repos-pages :
        (rs : List Repository) (pages : List (List Repository)) (env : E)
        → Serves 1 rs pages
        → ((length pages < max_list_pages)
            × (repos : List Repo) × ((list_repos api ctx_done owner env).0 ≡ ok repos)
            × Picks owner (all_of rs pages) repos)
          ⊎ ((max_list_pages ≤ length pages) × ((list_repos api ctx_done owner env).0 ≡ err failed))
    list_repos-pages rs pages env h = elim (Bool-cases (ltb (length pages) max_list_pages)) [
      | inl short ↦ inl (
        ltb-lt (length pages) max_list_pages short,
        map_github_repos (all_of rs pages) owner,
        list_repos-all_of rs pages env h ∙ (rw (short) refl),
        map_github_repos-Picks (all_of rs pages) owner,
      )
      | inr long ↦ inr (
        ltb-ge (length pages) max_list_pages long,
        list_repos-all_of rs pages env h ∙ (rw (long) refl),
      )
    ]
