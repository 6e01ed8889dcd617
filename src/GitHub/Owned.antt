-- ===== src/GitHub/Owned.antt =====
-- `mapGitHubRepos` of pkg/githubclient.go: the repositories of a page that count.
use mathlib.Core.Path.{subst}
use github_update_go_watcher.Common.{
  Bool-cases, text_dec, ◌⊎◌, inl, inr, ◌≡◌, ◌≢◌, sym, arith, true, false, List, [], ◌∷◌, Text, All,
}
use github_update_go_watcher.GitHub.Api.{Repository}
use github_update_go_watcher.GitHub.Client.{map_github_repos}
use github_update_go_watcher.Repo.{Repo}

-- A repository of the owner, with a name.
abbrev pub IsOwned : Text → Repo → Type 0
IsOwned owner r = (r.owner ≡ owner) × (r.name ≢ [])

pub map_github_repos-IsOwned :
    (rs : List Repository) (owner : Text) → All (IsOwned owner) (map_github_repos rs owner)
unfolding map_github_repos
map_github_repos-IsOwned [] owner = tt
map_github_repos-IsOwned (r ∷ rs) owner = ground (arith, map_github_repos-IsOwned rs owner)

-- The repositories that are listed of those on the pages: not archived, of the owner, with a name.
pub data Picks (owner : Text) : List Repository → List Repo → Type 0 where
  all_seen : Picks owner [] []
  passed_over :
      {r : Repository} {rs : List Repository} {repos : List Repo}
      → (r.archived ≡ true) ⊎ (r.owner_login ≢ owner) ⊎ (r.name ≡ [])
      → Picks owner rs repos
      → Picks owner (r ∷ rs) repos
  picked :
      {r : Repository} {rs : List Repository} {repos : List Repo}
      → r.archived ≡ false
      → r.owner_login ≡ owner
      → r.name ≢ []
      → Picks owner rs repos
      → Picks owner
          (r ∷ rs)
          (record { owner = owner; name = r.name; default_branch = r.default_branch } ∷ repos)

module _ (r : Repository) (rs : List Repository) (owner : Text) where
  map_github_repos_passed :
      (r.archived ≡ true) ⊎ (r.owner_login ≢ owner) ⊎ (r.name ≡ [])
      → map_github_repos (r ∷ rs) owner ≡ map_github_repos rs owner
  unfolding map_github_repos
  map_github_repos_passed h = ground (arith, h)

  map_github_repos_picked :
      r.archived ≡ false
      → r.owner_login ≡ owner
      → r.name ≢ []
      → map_github_repos (r ∷ rs) owner ≡ (
          record { owner = owner; name = r.name; default_branch = r.default_branch }
          ∷ map_github_repos rs owner)
  unfolding map_github_repos
  map_github_repos_picked live own named = ground (arith, live, own, named)

  map_github_repos_pass :
      (r.archived ≡ true) ⊎ (r.owner_login ≢ owner) ⊎ (r.name ≡ [])
      → Picks owner rs (map_github_repos rs owner)
      → Picks owner (r ∷ rs) (map_github_repos (r ∷ rs) owner)
  map_github_repos_pass why more =
      subst (Picks owner (r ∷ rs)) (sym (map_github_repos_passed why)) (passed_over why more)

pub map_github_repos-Picks :
    (rs : List Repository) (owner : Text) → Picks owner rs (map_github_repos rs owner)
map_github_repos-Picks [] owner = unfold map_github_repos in all_seen
map_github_repos-Picks (r ∷ rs) owner = elim (Bool-cases r.archived) [
  | inl archived ↦ map_github_repos_pass r rs owner (inl archived) (map_github_repos-Picks rs owner)
  | inr live ↦ elim (text_dec r.owner_login owner) [
    | no foreign ↦
        map_github_repos_pass r rs owner (inr (inl foreign)) (map_github_repos-Picks rs owner)
    | yes own ↦ elim (text_dec r.name []) [
      | yes nameless ↦
          map_github_repos_pass r rs owner (inr (inr nameless)) (map_github_repos-Picks rs owner)
      | no named ↦
          subst (Picks owner (r ∷ rs)) (sym (map_github_repos_picked r rs owner live own named))
            (picked live own named (map_github_repos-Picks rs owner))
    ]
  ]
]
