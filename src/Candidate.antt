-- ===== src/Candidate.antt =====
-- pkg/candidate.go: what a cycle observes of one repository.
use github_update_go_watcher.Common.{Bool, ◌&&◌, Text, length, take, ltb, if◌then◌else◌}
use github_update_go_watcher.Filter
use github_update_go_watcher.Filter.Maintainer.{Consent}
use github_update_go_watcher.Repo.{Repo, key}
use github_update_go_watcher.Version.{Version, less, number}

pub record Candidate : Type 0 where
  pub repo : Repo
  pub head_sha : Text
  pub go_mod_present : Bool
  pub go_mod_parsable : Bool
  pub current_go : Version
  pub latest_go : Version
  pub consent : Consent

-- The first seven bytes of the SHA, or all of a shorter one.
unfoldable pub short_sha : Candidate → Text
short_sha c = if ltb (length c.head_sha) 7 then c.head_sha else take 7 c.head_sha

unfoldable pub go_behind : Candidate → Bool
go_behind c = c.go_mod_parsable && less c.current_go c.latest_go

unfoldable pub filter_candidate : Candidate → Filter.Candidate
filter_candidate c = record {
  repo_key = key c.repo;
  head_sha = c.head_sha;
  latest_go_version = number c.latest_go;
  go_mod_present = c.go_mod_present;
  go_mod_parsable = c.go_mod_parsable;
  go_behind = go_behind c;
  consent = c.consent;
}
