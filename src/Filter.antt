-- ===== src/Filter.antt =====
-- pkg/filter: the chain of predicates that decides whether a task is filed, and the static chain of
-- pkg/factory/factory.go. A skip reason, a metric label in the source, is a constructor of
-- `SkipReason`, and the empty label is `none`.
pub mod Maintainer
pub mod Chain
pub mod Allowlist
use text.Mathlib.Text.{◌==◌ as str_eq}
use github_update_go_watcher.Common.{
  Bool, true, false, not, ◌&&◌, List, [], ◌∷◌, Option, none, some, Text, String, bytes, ◌==◌,
  if◌then◌else◌,
}
use github_update_go_watcher.Filter.Maintainer.{Consent, granted, refused}

-- `FilterSkipReasons` of pkg/metrics.go.
pub data SkipReason : Type 0 where
  scope no_gomod gomod_unparsable go_current auto_update_disabled : SkipReason
  auto_update_undecided sha_unchanged open_update_pr emission_in_flight : SkipReason

pub record Candidate : Type 0 where
  pub repo_key : Text
  pub head_sha : Text
  pub latest_go_version : Text
  pub go_mod_present : Bool
  pub go_mod_parsable : Bool
  pub go_behind : Bool
  pub consent : Consent

-- `TaskCreationFilter`, by its only method `Skip`.
abbrev pub TaskCreationFilter : Type 0
TaskCreationFilter = Candidate → Option SkipReason

-- `TaskCreationFilterList.Skip`: the first reason that a member gives.
unfoldable pub filter_list : List TaskCreationFilter → TaskCreationFilter
filter_list [] c = none
filter_list (f ∷ fs) c = elim (f c) [ some reason ↦ some reason | none ↦ filter_list fs c ]

-- `repoallowlist.IsAllowed` stands for the first argument.
unfoldable pub repo_allowlist_filter : (List Text → Text → Bool) → List Text → TaskCreationFilter
repo_allowlist_filter is_allowed allowlist c =
    if not (is_allowed allowlist c.repo_key) then some scope else none

unfoldable pub gomod_present_filter : TaskCreationFilter
gomod_present_filter c = if not c.go_mod_present then some no_gomod else none

unfoldable pub gomod_parsable_filter : TaskCreationFilter
gomod_parsable_filter c =
    if c.go_mod_present && not c.go_mod_parsable then some gomod_unparsable else none

unfoldable pub go_behind_filter : TaskCreationFilter
go_behind_filter c = if not c.go_behind then some go_current else none

unfoldable pub auto_update_filter : TaskCreationFilter
auto_update_filter c =
    if str_eq c.consent granted
    then none
    else if str_eq c.consent refused
    then some auto_update_disabled
    else some auto_update_undecided

-- The read surface of the cursor; an unseen repository reads as the empty text.
pub record CursorReader : Type 0 where
  pub last_seen_sha : Text → Text
  pub last_seen_go_version : Text → Text

unfoldable pub sha_unchanged_filter : CursorReader → TaskCreationFilter
sha_unchanged_filter cursor c =
    if not (c.head_sha == [])
      && (c.head_sha == cursor.last_seen_sha c.repo_key)
      && (c.latest_go_version == cursor.last_seen_go_version c.repo_key)
    then some sha_unchanged
    else none

-- `factory.CreateStaticFilters`: filters 1 to 5 in their frozen order.
unfoldable pub create_static_filters : (List Text → Text → Bool) → List Text → TaskCreationFilter
create_static_filters is_allowed allowlist = filter_list (
    repo_allowlist_filter is_allowed allowlist
    ∷ gomod_present_filter
    ∷ gomod_parsable_filter
    ∷ go_behind_filter
    ∷ auto_update_filter
    ∷ [])

-- The chain of one cycle, composed in `Poll` of pkg/watcher.go: a forced cycle leaves the last
-- filter out.
unfoldable pub cycle_filter : TaskCreationFilter → CursorReader → Bool → TaskCreationFilter
cycle_filter static cursor true = filter_list (static ∷ [])
cycle_filter static cursor false = filter_list (static ∷ sha_unchanged_filter cursor ∷ [])
