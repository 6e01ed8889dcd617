-- ===== src/Watcher/Twice.antt =====
-- Two cycles of pkg/watcher.go, the second of which loads what the first has stored.
use mathlib.Core.Path.{subst}
use github_update_go_watcher.Common.{
  ℕ, ◌+◌, ◌≤◌, Bool, true, List, [], ◌∷◌, ◌++◌, Option, none, some, ◌≡◌, ◌≢◌, ◌∙◌, refl, sym, ap,
  Text, All, ok,
}
use github_update_go_watcher.Cursor.{Cursor, RepoState, entry}
use github_update_go_watcher.Cursor.Store.{load_cursor}
use github_update_go_watcher.Repo.{Repo, key}
use github_update_go_watcher.Task.{CreateCommand}
use github_update_go_watcher.Version.{Version, number}
use github_update_go_watcher.Watcher.Answered.{poll-scan_repos}
use github_update_go_watcher.Watcher.Authority.{IsWired}
use github_update_go_watcher.Watcher.Claim.{LiveClaim}
use github_update_go_watcher.Watcher.Commands.{commands, poll_chain}
use github_update_go_watcher.Watcher.Delivery.{IsDue, due_candidate, process_repo-Publishes}
use github_update_go_watcher.Watcher.Frame.{process_repo-entry_other}
use github_update_go_watcher.Watcher.Gate.{in_flight_ttl}
use github_update_go_watcher.Watcher.Liveness.{IsCalm, process_repos_calm}
use github_update_go_watcher.Watcher.Poll.{poll, scan_repos}
use github_update_go_watcher.Watcher.Process.{process_repos}
use github_update_go_watcher.Watcher.Retained.{
  Claimed, after_filter-Claimed, after_process-Claimed, claim_of, process_repos-Claimed,
}
use github_update_go_watcher.Watcher.Spared.{ListedOnce, Spared, poll-Spared}
use github_update_go_watcher.Watcher.State.{World, Watcher}

module _ {E : Type 0} (d : Watcher E) (repo : Repo) (latest : Version) where
  -- A time that the clock showed is read back as it was written, to some precision, and the clock
  -- shows at most fourteen days more.
  abbrev pub IsRecent : Type 0
  IsRecent =
      (e : E)
      → (since : ℕ) × (d.parse_time (d.format_time (d.now e).0) ≡ some since)
        × ((later : E) → (d.now later).0 ≤ since + in_flight_ttl)

  Claimed-LiveClaim :
      (cursor : Cursor) → IsRecent → Claimed d repo latest cursor → LiveClaim d cursor repo latest
  Claimed-LiveClaim cursor recent (e, claimed) =
      of_entry (entry (key repo) cursor) refl claimed (recent e)
    where
      of_entry :
          (state : Option RepoState)
          → entry (key repo) cursor ≡ state
          → claim_of state ≡ some (number latest, d.format_time (d.now e).0)
          → ((since : ℕ) × (d.parse_time (d.format_time (d.now e).0) ≡ some since)
              × ((later : E) → (d.now later).0 ≤ since + in_flight_ttl))
          → LiveClaim d cursor repo latest
      of_entry none h claimed (since, read, bounded) = cc
      of_entry (some s) h claimed (since, read, bounded) = record {
        state = s;
        since = since;
        recorded = h;
        targeted = cc;
        dated = ap d.parse_time (cc) ∙ read;
        in_time = bounded;
      }

module _ {E : Type 0} (d : Watcher E) (is_allowed : List Text → Text → Bool) (allowlist : List Text)
    (wired : IsWired d is_allowed allowlist) (calm : IsCalm d) (force : Bool) (latest : Version)
    (repo : Repo) (sha : Text) (current : Version)
    (accepts : (cmd : CreateCommand) (e : E) → (d.send_create cmd e).0 ≡ true) where
  abbrev Due : Cursor → Type 0
  Due cursor = IsDue d is_allowed allowlist force latest repo sha current (entry (key repo) cursor)

  abbrev IsOther : Repo → Type 0
  IsOther r = key r ≢ key repo

  process_repos-claims :
      (before after : List Repo) (w : World E)
      → All IsOther before
      → All IsOther after
      → Due w.cursor
      → Claimed d repo latest
          (process_repos d (poll_chain d force) latest (before ++ repo ∷ after) w).1.cursor
  process_repos-claims [] after w _ others due =
      let w₁ : World E = record w { env = (d.ctx_done w.env).1 } in
      let (v, cursor, sent, ends) =
        process_repo-Publishes d is_allowed allowlist force latest repo sha current w₁ due wired in
      rw (process_repos_calm d calm (poll_chain d force) latest repo after w) (
        process_repos-Claimed d repo latest (poll_chain d force) latest after _ others (
          subst (λ x. Claimed d repo latest x.cursor) (sym ends)
            (after_filter-Claimed d repo latest
              (due_candidate d is_allowed allowlist force latest repo sha current) v refl accepts)))
  process_repos-claims (r ∷ before) after w (other, first) others due =
      rw (process_repos_calm d calm (poll_chain d force) latest r (before ++ repo ∷ after) w) (
        process_repos-claims before after _ first others (
          subst (IsDue d is_allowed allowlist force latest repo sha current)
            (sym (
              process_repo-entry_other d r (key repo) other (poll_chain d force) latest
                (record w { env = (d.ctx_done w.env).1 })))
            due))

  module _ (before after : List Repo) (first : All IsOther before) (others : All IsOther after)
      (listing : (e : E) → (d.github.list_repos d.owner e).0 ≡ ok (before ++ repo ∷ after))
      (stable : (e : E) → (d.latest_stable e).0 ≡ ok latest) where
    scan_repos-claims :
        (w : World E)
        → Due w.cursor
        → Claimed d repo latest (scan_repos d force latest (ok (before ++ repo ∷ after)) w).1.cursor
    unfolding scan_repos
    scan_repos-claims w due =
        after_process-Claimed d repo latest _ _ _
          (process_repos-claims before after _ first others due)

    pub poll-claims :
        (cursor : Cursor) (w : World E)
        → (load_cursor d.files d.codec d.cursor_path w.env).0 ≡ ok cursor
        → Due cursor
        → Claimed d repo latest (poll d force w).1.cursor
    poll-claims cursor w loaded due =
        let (v, same, _, _, passes) =
          poll-scan_repos d force latest (before ++ repo ∷ after) listing stable cursor w loaded in
        subst (λ x. Claimed d repo latest x.1.cursor) (sym passes)
          (scan_repos-claims v (subst Due (sym same) due))

    -- Only the listed repository itself has its key.
    listed_once : (rs : List Repo) → All IsOther rs → ListedOnce d repo (rs ++ repo ∷ after)
    listed_once [] h = ((λ _. others), spared after others)
      where
        spared : (rs : List Repo) → All IsOther rs → ListedOnce d repo rs
        spared [] h = tt
        spared (r ∷ rs) (other, h) = ((λ same. absurd (other same)), spared rs h)
    listed_once (r ∷ rs) (other, h) = ((λ same. absurd (other same)), listed_once rs h)

    abbrev pub after_first : World E → World E
    after_first w = record (poll d force w).1 { events = [] }

    -- With the static chain wired in, a live context, no throttled read, lookups and listings that
    -- answer the same, accepted commands, and a clock that stays within fourteen days: if the update
    -- of a repository, the only one listed with its key, is due in a cycle and the next cycle loads
    -- the cursor that this one ended with, then the next cycle, forced or not, sends no task for it.
    pub poll_twice-Spared :
        IsRecent d repo latest
        → (cursor : Cursor) (w : World E)
        → (load_cursor d.files d.codec d.cursor_path w.env).0 ≡ ok cursor
        → Due cursor
        → (load_cursor d.files d.codec d.cursor_path (poll d force w).1.env).0
          ≡ ok (poll d force w).1.cursor
        → (again : Bool) → Spared d repo (poll d again (after_first w)).1
    unfolding commands
    poll_twice-Spared recent cursor w loaded due stored again =
        poll-Spared d repo is_allowed allowlist wired again latest once same
          (poll d force w).1.cursor (after_first w) stored
          (Claimed-LiveClaim d repo latest _ recent (poll-claims cursor w loaded due)) tt
      where
        once :
            (e : E) (repos : List Repo)
            → (d.github.list_repos d.owner e).0 ≡ ok repos
            → ListedOnce d repo repos
        once e repos h = subst (ListedOnce d repo) (cc (listing e)) (listed_once before first)

        same : (e : E) (v : Version) → (d.latest_stable e).0 ≡ ok v → v ≡ latest
        same e v h = cc (stable e)
