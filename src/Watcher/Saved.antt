-- ===== src/Watcher/Saved.antt =====
-- Two cycles of pkg/watcher.go over a disk: the first one saves its cursor, the second one loads it.
use github_update_go_watcher.Common.{
  Bool, true, List, ◌∷◌, ◌++◌, none, some, ◌≡◌, ◌≢◌, inl, inr, arith, Text, All, ok,
}
use github_update_go_watcher.Cursor.{Cursor, entry}
use github_update_go_watcher.Cursor.Durable.{Disk}
use github_update_go_watcher.Cursor.Store.{load_cursor}
use github_update_go_watcher.Repo.{Repo, key}
use github_update_go_watcher.Task.{CreateCommand}
use github_update_go_watcher.Version.{Version}
use github_update_go_watcher.Watcher.Authority.{IsWired}
use github_update_go_watcher.Watcher.Delivery.{IsDue}
use github_update_go_watcher.Watcher.Liveness.{IsCalm}
use github_update_go_watcher.Watcher.Poll.{poll}
use github_update_go_watcher.Watcher.Retained.{Claimed, claim_of}
use github_update_go_watcher.Watcher.Spared.{IsOther, Spared}
use github_update_go_watcher.Watcher.State.{World, Watcher}
use github_update_go_watcher.Watcher.Stored.{poll-IsAtomic}
use github_update_go_watcher.Watcher.Separate.{IsSeparate, load_stored, stored}
use github_update_go_watcher.Watcher.Twice.{IsRecent, after_first, poll-claims, poll_twice-Spared}

-- A cursor that claims something has a map.
claimed_filled :
    (k : Text) (c : Cursor) (p : Text × Text) → claim_of (entry k c) ≡ some p → c.repos ≢ none
unfolding entry
claimed_filled k c p claimed nil = ground (arith, claimed, nil)

module _ {E : Type 0} (d : Watcher E) (disk : Disk E d.files) (separate : IsSeparate d disk) where
  module _ (is_allowed : List Text → Text → Bool) (allowlist : List Text)
      (wired : IsWired d is_allowed allowlist) (calm : IsCalm d) (force : Bool) (latest : Version)
      (repo : Repo) (sha : Text) (current : Version)
      (accepts : (cmd : CreateCommand) (e : E) → (d.send_create cmd e).0 ≡ true)
      (before after : List Repo) (first : All (IsOther d repo) before)
      (others : All (IsOther d repo) after)
      (listing : (e : E) → (d.github.list_repos d.owner e).0 ≡ ok (before ++ repo ∷ after))
      (stable : (e : E) → (d.latest_stable e).0 ≡ ok latest) where
    abbrev pub after_saved : World E → World E
    after_saved =
        after_first d is_allowed allowlist wired calm force latest repo sha current accepts before
          after first others listing stable

    claims_saved :
        (c : Cursor) (w : World E)
        → (load_cursor d.files d.codec d.cursor_path w.env).0 ≡ ok c
        → IsDue d is_allowed allowlist force latest repo sha current (entry (key repo) c)
        → Claimed d repo latest (poll d force w).1.cursor
    claims_saved =
        poll-claims d is_allowed allowlist wired calm force latest repo sha current accepts before
          after first others listing stable

    -- The first cycle has changed the file, so it holds the final cursor.
    load_saved :
        (t : Text) (c : Cursor) (w : World E)
        → stored d disk w.env ≡ some t
        → d.codec.unmarshal t ≡ some c
        → (poll d force w).1.cursor.repos ≢ none
        → stored d disk (poll d force w).1.env ≢ some t
        → ((t' : Text)
            → d.codec.marshal (poll d force w).1.cursor ≡ some t'
            → d.codec.unmarshal t' ≡ some (poll d force w).1.cursor)
        → (load_cursor d.files d.codec d.cursor_path (poll d force w).1.env).0
          ≡ ok (poll d force w).1.cursor
    load_saved t c w there read filled changed reads_back =
        elim (poll-IsAtomic d disk separate t c force w there read) [
          | inl kept ↦ absurd (changed kept)
          | inr (t', text, written) ↦
              load_stored d disk t' (poll d force w).1.cursor (poll d force w).1.env written
                (reads_back t' text) filled
        ]

    -- With the static chain wired in, a live context, no throttled read, lookups and listings that
    -- answer the same, accepted commands, a clock that stays within fourteen days, and a file of the
    -- cursor that no other collaborator touches: if the update of a repository, the only one listed
    -- with its key, is due by the stored cursor, the cycle has changed the file, and the codec reads
    -- back the text of its final cursor, then the next cycle, forced or not, sends no task for it.
    pub poll_saved-Spared :
        IsRecent d repo latest
        → (t : Text) (c : Cursor) (w : World E) → stored d disk w.env ≡ some t
        → d.codec.unmarshal t ≡ some c
        → c.repos ≢ none
        → IsDue d is_allowed allowlist force latest repo sha current (entry (key repo) c)
        → stored d disk (poll d force w).1.env ≢ some t
        → ((t' : Text)
            → d.codec.marshal (poll d force w).1.cursor ≡ some t'
            → d.codec.unmarshal t' ≡ some (poll d force w).1.cursor)
        → (again : Bool) → Spared d repo (poll d again (after_saved w)).1
    poll_saved-Spared recent t c w there read filled due changed reads_back again =
        let loaded = load_stored d disk t c w.env there read filled in
        let (e, claimed) = claims_saved c w loaded due in
        poll_twice-Spared d is_allowed allowlist wired calm force latest repo sha current accepts
          before after first others listing stable recent c w loaded due
          (load_saved t c w there read (claimed_filled (key repo) _ _ claimed) changed reads_back)
          again
