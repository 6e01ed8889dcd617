-- ===== src/Watcher/Stored.antt =====
-- What a cycle of pkg/watcher.go leaves in the file of the cursor.
use mathlib.Core.Path.{subst}
use github_update_go_watcher.Common.{
  All-intro, Bool, List, Option, none, some, ◌≡◌, ◌⊎◌, ◌∙◌, refl, sym, inl, inr, Text, Error,
  failed, Result, ok, err,
}
use github_update_go_watcher.Cursor.{Cursor}
use github_update_go_watcher.Cursor.Durable.{Disk, save_cursor-Saves}
use github_update_go_watcher.Cursor.Store.{after_read, after_unmarshal, load_cursor}
use github_update_go_watcher.Repo.{Repo}
use github_update_go_watcher.Version.{Version}
use github_update_go_watcher.Watcher.Commands.{poll_chain}
use github_update_go_watcher.Watcher.Complete.{complete_merged_updates}
use github_update_go_watcher.Watcher.Loops.{complete_merged_updates-keeps, process_repos-keeps}
use github_update_go_watcher.Watcher.Poll.{
  after_complete, after_process, poll, save, scan_repos, with_cursor, with_latest,
}
use github_update_go_watcher.Watcher.Process.{process_repos}
use github_update_go_watcher.Watcher.State.{PollResult, World, Watcher}
use github_update_go_watcher.Watcher.Separate.{
  IsSeparate, complete_repo-stored, process_repo-stored, stored,
}

module _ {E : Type 0} (d : Watcher E) (disk : Disk E d.files) where
  module _ (separate : IsSeparate d disk) where
    module _ (before : Option Text) where
      abbrev Holds : World E → Type 0
      Holds w = stored d disk w.env ≡ before

      pub process_repos-stored :
          (force : Bool) (latest : Version) (repos : List Repo) (w : World E)
          → Holds w
          → Holds (process_repos d (poll_chain d force) latest repos w).1
      process_repos-stored force latest repos w h =
          process_repos-keeps d Holds (λ w h. separate.by_context w.env ∙ h) (poll_chain d force)
            latest (λ r. Unit {0})
            (λ r w _ h. process_repo-stored d disk separate (poll_chain d force) latest r w ∙ h)
            repos w (All-intro _ (λ r. tt) repos) h

      complete_merged_updates-stored :
          (repos : List Repo) (w : World E) → Holds w → Holds (complete_merged_updates d repos w).1
      complete_merged_updates-stored =
          complete_merged_updates-keeps d Holds (λ w h. separate.by_context w.env ∙ h)
            (λ r w h. complete_repo-stored d disk separate r w ∙ h)

      -- The file is as it was before the cycle, or it holds the text of the cursor that the cycle ends
      -- with.
      abbrev pub IsAtomic : World E → Type 0
      IsAtomic w =
          (stored d disk w.env ≡ before)
          ⊎ ((t : Text) × (d.codec.marshal w.cursor ≡ some t) × (stored d disk w.env ≡ some t))

      save-IsAtomic : (w : World E) → Holds w → IsAtomic (save d w).1
      unfolding save
      save-IsAtomic w h =
          elim (save_cursor-Saves d.files d.codec disk d.cursor_path w.cursor w.env) [
            | inl (t, text, inl (_, written)) ↦ inr (t, text, written)
            | inl (t, text, inr (_, kept)) ↦ inl (kept ∙ h)
            | inr (text, unsaved, kept) ↦ inl (kept ∙ h)
          ]

      after_complete-IsAtomic :
          (reason : Option PollResult) (w : World E)
          → Holds w
          → IsAtomic (after_complete d reason w).1
      unfolding after_complete
      after_complete-IsAtomic (some reason) w h = save-IsAtomic _ h
      after_complete-IsAtomic none w h = save-IsAtomic w h

      after_process-IsAtomic :
          (repos : List Repo) (reason : Option PollResult) (w : World E)
          → Holds w
          → IsAtomic (after_process d repos reason w).1
      unfolding after_process
      after_process-IsAtomic repos (some reason) w h = inl h
      after_process-IsAtomic repos none w h =
          after_complete-IsAtomic _ _ (complete_merged_updates-stored repos w h)

      scan_repos-IsAtomic :
          (force : Bool) (latest : Version) (repos : Result (List Repo)) (w : World E)
          → Holds w
          → IsAtomic (scan_repos d force latest repos w).1
      unfolding scan_repos
      scan_repos-IsAtomic force latest (err Error.rate_limited) w h = inl h
      scan_repos-IsAtomic force latest (err failed) w h = inl h
      scan_repos-IsAtomic force latest (ok repos) w h =
          after_process-IsAtomic repos _ _ (process_repos-stored force latest repos _ h)

      with_latest-IsAtomic :
          (force : Bool) (latest : Result Version) (w : World E)
          → Holds w
          → IsAtomic (with_latest d force latest w).1
      unfolding with_latest
      with_latest-IsAtomic force (err e) w h = inl h
      with_latest-IsAtomic force (ok latest) w h =
          scan_repos-IsAtomic force latest _ _ (separate.by_listing d.owner w.env ∙ h)

      with_cursor-IsAtomic :
          (force : Bool) (loaded : Result Cursor) (w : World E)
          → Holds w
          → IsAtomic (with_cursor d force loaded w).1
      unfolding with_cursor
      with_cursor-IsAtomic force (err e) w h = inl h
      with_cursor-IsAtomic force (ok cursor) w h =
          with_latest-IsAtomic force _ _ (separate.by_release w.env ∙ h)

    pub load_cursor-stored :
        (t : Text) (c : Cursor) (e : E)
        → stored d disk e ≡ some t
        → d.codec.unmarshal t ≡ some c
        → stored d disk (load_cursor d.files d.codec d.cursor_path e).1 ≡ some t
    unfolding load_cursor
    load_cursor-stored t c e there read =
        rw (disk.read_some d.cursor_path t e there) (rw (read, after_unmarshal) there)

    -- If the file holds the text of a cursor and no other collaborator touches it, then behind a
    -- cycle, however it ends, it holds this text still, or the text of the cursor that the cycle ends
    -- with.
    pub poll-IsAtomic :
        (t : Text) (c : Cursor) (force : Bool) (w : World E)
        → stored d disk w.env ≡ some t
        → d.codec.unmarshal t ≡ some c
        → IsAtomic (some t) (poll d force w).1
    unfolding poll
    poll-IsAtomic t c force w there read =
        with_cursor-IsAtomic (some t) force _ _ (load_cursor-stored t c w.env there read)

    load_cursor-missing :
        (e : E)
        → stored d disk e ≡ none
        → stored d disk (load_cursor d.files d.codec d.cursor_path e).1 ≡ none
    unfolding load_cursor
    load_cursor-missing e missing = rw (disk.read_none d.cursor_path e missing, after_read) missing

    poll_missing-IsAtomic :
        (force : Bool) (w : World E) → stored d disk w.env ≡ none → IsAtomic none (poll d force w).1
    unfolding poll
    poll_missing-IsAtomic force w missing =
        with_cursor-IsAtomic none force _ _ (load_cursor-missing w.env missing)

    -- The file is missing, or the codec reads it as a cursor.
    abbrev pub IsReadable : Option Text → Type 0
    IsReadable none = Unit
    IsReadable (some t) = (c : Cursor) × (d.codec.unmarshal t ≡ some c)

    module _
        (reads : (c : Cursor) (t : Text) → d.codec.marshal c ≡ some t → IsReadable (some t)) where
      IsAtomic-IsReadable :
          (before : Option Text) (w : World E)
          → IsReadable before
          → IsAtomic before w
          → IsReadable (stored d disk w.env)
      IsAtomic-IsReadable before w h (inl kept) = subst IsReadable (sym kept) h
      IsAtomic-IsReadable before w h (inr (t, text, written)) =
          subst IsReadable (sym written) (reads w.cursor t text)

      poll-IsReadable_from :
          (force : Bool) (w : World E) (before : Option Text)
          → stored d disk w.env ≡ before
          → IsReadable before
          → IsReadable (stored d disk (poll d force w).1.env)
      poll-IsReadable_from force w none there h =
          IsAtomic-IsReadable none (poll d force w).1 tt (poll_missing-IsAtomic force w there)
      poll-IsReadable_from force w (some t) there (c, read) =
          IsAtomic-IsReadable (some t) (poll d force w).1 (c, read)
            (poll-IsAtomic t c force w there read)

      -- A cycle keeps the file readable, if the codec reads what it writes.
      pub poll-IsReadable :
          (force : Bool) (w : World E)
          → IsReadable (stored d disk w.env)
          → IsReadable (stored d disk (poll d force w).1.env)
      poll-IsReadable force w h = poll-IsReadable_from force w _ refl h
