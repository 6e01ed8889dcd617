-- ===== src/Filter/Chain.antt =====
-- What passes the chains of pkg/filter, and why a candidate is skipped.
use text.Mathlib.TextEquality.{eq_iff}
use github_update_go_watcher.Common.{
  Bool, true, false, List, [], Option, none, some, ◌≡◌, ◌≢◌, ◌↔◌, ◌⊎◌, arith, Text,
}
use github_update_go_watcher.Filter.Maintainer.{granted, refused}
use github_update_go_watcher.Filter.{
  Candidate, CursorReader, TaskCreationFilter, SkipReason, auto_update_undecided, filter_list,
  create_static_filters, cycle_filter, sha_unchanged_filter, repo_allowlist_filter,
  gomod_present_filter, gomod_parsable_filter, go_behind_filter, auto_update_filter,
}

module _ (is_allowed : List Text → Text → Bool) (allowlist : List Text) (c : Candidate) where
  -- In scope, with a go.mod that was read and is behind.
  pub record NeedsUpdate : Type 0 where
    pub in_scope : is_allowed allowlist c.repo_key ≡ true
    pub present : c.go_mod_present ≡ true
    pub parsable : c.go_mod_parsable ≡ true
    pub behind : c.go_behind ≡ true

  abbrev pub static : Option SkipReason
  static = create_static_filters is_allowed allowlist c

  -- The static chain passes a candidate exactly when it needs an update and its owner has granted it.
  pub static_pass_iff : (static ≡ none) ↔ (NeedsUpdate × (c.consent ≡ granted))
  unfolding create_static_filters filter_list repo_allowlist_filter gomod_present_filter
      gomod_parsable_filter go_behind_filter auto_update_filter
  static_pass_iff = ground (arith, eq_iff c.consent granted, eq_iff c.consent refused)

  -- The chain reports an undecided owner exactly for a candidate that needs an update and whose
  -- consent is neither granted nor refused.
  pub static_undecided_iff :
      (static ≡ some auto_update_undecided)
      ↔ (NeedsUpdate × (c.consent ≢ granted) × (c.consent ≢ refused))
  unfolding create_static_filters filter_list repo_allowlist_filter gomod_present_filter
      gomod_parsable_filter go_behind_filter auto_update_filter
  static_undecided_iff = ground (arith, eq_iff c.consent granted, eq_iff c.consent refused)

-- The chain of a cycle passes what the static chain passes, unless the cycle is not forced, the HEAD
-- is not empty, and it and the target version are the recorded ones.
pub cycle_pass_iff :
    (static : TaskCreationFilter) (cursor : CursorReader) (force : Bool) (c : Candidate)
    → (cycle_filter static cursor force c ≡ none) ↔ (
        (static c ≡ none)
        × ((force ≡ true)
            ⊎ (c.head_sha ≡ [])
            ⊎ (c.head_sha ≢ cursor.last_seen_sha c.repo_key)
            ⊎ (c.latest_go_version ≢ cursor.last_seen_go_version c.repo_key)))
unfolding cycle_filter filter_list sha_unchanged_filter
cycle_pass_iff static cursor true c = ground arith
cycle_pass_iff static cursor false c = ground arith

-- A reason of the static chain is the reason of the cycle's chain.
pub cycle_undecided :
    (static : TaskCreationFilter) (cursor : CursorReader) (force : Bool) (c : Candidate)
    → cycle_filter static cursor force c ≡ some auto_update_undecided
    → static c ≡ some auto_update_undecided
unfolding cycle_filter filter_list sha_unchanged_filter
cycle_undecided static cursor true c h = ground arith
cycle_undecided static cursor false c h = ground arith
