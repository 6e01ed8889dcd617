-- ===== src/Repo.antt =====
-- pkg/repo.go: a repository and its two text forms.
use github_update_go_watcher.Common.{Text, bytes, ◌++◌}

pub record Repo : Type 0 where
  pub owner : Text
  pub name : Text
  pub default_branch : Text

-- `r.Key()`: "github.com/<owner>/<name>"
unfoldable pub key : Repo → Text
key r = bytes "github.com/" ++ (r.owner ++ (bytes "/" ++ r.name))

-- `r.String()`: "<owner>/<name>"
unfoldable pub string : Repo → Text
string r = r.owner ++ (bytes "/" ++ r.name)
