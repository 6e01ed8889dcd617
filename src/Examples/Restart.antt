-- ===== src/Examples/Restart.antt =====
-- A cycle that publishes over the disk in memory, and the next one over the saved cursor.
use github_update_go_watcher.Common.{
  false, true, [], ◌∷◌, none, some, ◌≡◌, refl, arith, ok, ap, ◌∙◌, sym, Option,
}
use github_update_go_watcher.Cursor.{empty_cursor, entry, lookup, set_entry, insert}
use github_update_go_watcher.Cursor.Store.{
  load_cursor, after_marshal, after_rename, after_write, save_cursor,
}
use github_update_go_watcher.Examples.Samples.{allow_all, go_1_26_0, go_1_27_2, head, tool}
use github_update_go_watcher.Repo.{key}
use github_update_go_watcher.Watcher.Commands.{poll_chain}
use github_update_go_watcher.Watcher.Delivery.{IsDue, due_candidate, process_repo-Publishes}
use github_update_go_watcher.Watcher.Liveness.{process_repos_calm}
use github_update_go_watcher.Watcher.Loops.{unless_aborted-keeps}
use github_update_go_watcher.Watcher.Poll.{
  poll, after_complete, after_process, save, scan_repos, with_cursor, with_latest,
}
use github_update_go_watcher.Watcher.Spared.{Spared}
use github_update_go_watcher.Watcher.State.{PollResult, World, unless_done}
use github_update_go_watcher.Common.{Text, text_dec, ◌≢◌}
use github_update_go_watcher.Examples.Disk.{Memory, memory_disk}
use github_update_go_watcher.Watcher.Separate.{load_stored, stored}
use github_update_go_watcher.Watcher.Stored.{IsAtomic, poll-IsAtomic}
use github_update_go_watcher.Watcher.Saved.{after_saved, poll_saved-Spared}
use github_update_go_watcher.Watcher.State.{repos_scanned}
use mathlib.Core.Path.{subst}
use github_update_go_watcher.Candidate.{Candidate}
use github_update_go_watcher.Watcher.Complete.{
  awaits_merge, complete_entry, complete_merged_updates, complete_repo, on_merged,
}
use github_update_go_watcher.Watcher.Process.{after_filter, process_repo, process_repos}
use github_update_go_watcher.Watcher.Publish.{
  completed_of, mark_published, publish_create, published_state, send,
}
use github_update_go_watcher.Examples.Storing.{
  published_cursor, old_text, new_text, two_codec, storing, old_memory, begun, storing-IsSeparate,
  begun_stored, old_read, new_read, storing-IsRecent, storing-IsCalm, storing-IsDue,
}

abbrev IsPublished : World Memory → Type 0
IsPublished w = w.cursor ≡ published_cursor

never_completed :
    (w : World Memory) → w.cursor ≡ empty_cursor → completed_of (entry (key tool) w.cursor) ≡ []
unfolding entry lookup
never_completed w cursor = ap (λ x. completed_of (entry (key tool) x)) cursor

after_filter-IsPublished :
    (c : Candidate) (w : World Memory)
    → c.latest_go ≡ go_1_27_2
    → c.head_sha ≡ head
    → w.cursor ≡ empty_cursor
    → IsPublished (after_filter storing tool c none w).1
unfolding after_filter publish_create send mark_published published_state set_entry insert entry
    lookup
after_filter-IsPublished c w version sha cursor =
    rw (cursor) (rw (version) (rw (sha) (rw (never_completed w cursor) refl)))

own_round-IsPublished :
    (w : World Memory)
    → w.cursor ≡ empty_cursor
    → IsPublished (process_repo storing (poll_chain storing false) go_1_27_2 tool w).1
own_round-IsPublished w cursor =
    let (v, same, sent, ends) =
      process_repo-Publishes storing allow_all [] false go_1_27_2 tool head go_1_26_0 w
        (subst
          (λ x. IsDue storing allow_all [] false go_1_27_2 tool head go_1_26_0 (entry (key tool) x))
          (sym cursor) storing-IsDue)
        refl in
    subst IsPublished (sym ends) (
      after_filter-IsPublished
        (due_candidate storing allow_all [] false go_1_27_2 tool head go_1_26_0) v refl refl
        (same ∙ cursor))

-- The merge pass finds no merged pull request, and the save leaves the clock alone.
complete_repo-IsPublished :
    (w : World Memory) → IsPublished w → IsPublished (complete_repo storing tool w).1
unfolding complete_repo complete_entry on_merged awaits_merge
complete_repo-IsPublished w h = ground (arith, h)

complete_merged_updates-IsPublished :
    (w : World Memory)
    → IsPublished w
    → IsPublished (complete_merged_updates storing (tool ∷ []) w).1
unfolding complete_merged_updates unless_done
complete_merged_updates-IsPublished w h =
    let h₁ = complete_repo-IsPublished w h in
    unless_aborted-keeps storing IsPublished (complete_repo storing tool w).0 _ h₁ h₁

-- The cursor of the publish stands in memory, and a save brings it into the file.
abbrev IsSaved : World Memory → Type 0
IsSaved w = (stored storing memory_disk w.env ≡ some new_text) × (w.cursor ≡ published_cursor)

after_complete-IsSaved :
    (reason : Option PollResult) (w : World Memory)
    → IsPublished w
    → IsSaved (after_complete storing reason w).1
unfolding after_complete save save_cursor after_marshal after_write after_rename text_dec
after_complete-IsSaved (some reason) w h = (refl, h)
after_complete-IsSaved none w h = (refl, h)

after_process-IsSaved :
    (pass : Option PollResult × World Memory)
    → pass.0 ≡ none
    → IsPublished pass.1
    → IsSaved (after_process storing (tool ∷ []) pass.0 pass.1).1
unfolding after_process
after_process-IsSaved (some reason, w) over h = cc
after_process-IsSaved (none, w) over h =
    after_complete-IsSaved _ _ (complete_merged_updates-IsPublished w h)

abbrev pass : World Memory → Option PollResult × World Memory
pass w = process_repos storing (poll_chain storing false) go_1_27_2 (tool ∷ []) w

pass_lem :
    (w : World Memory)
    → pass w ≡ (none, (process_repo storing (poll_chain storing false) go_1_27_2 tool w).1)
pass_lem w =
    process_repos_calm storing storing-IsCalm (poll_chain storing false) go_1_27_2 tool [] w
    ∙ (unfold process_repos in refl)

scan_repos-IsSaved :
    (w : World Memory)
    → w.cursor ≡ empty_cursor
    → IsSaved (scan_repos storing false go_1_27_2 (ok (tool ∷ [])) w).1
unfolding scan_repos
scan_repos-IsSaved w cursor =
    let v : World Memory = record w { events = repos_scanned 1 ∷ w.events } in
    after_process-IsSaved (pass v) (ap (λ x. x.0) (pass_lem v))
      (subst (λ x. IsPublished x.1) (sym (pass_lem v)) (own_round-IsPublished v cursor))

begun_loaded :
    (load_cursor storing.files storing.codec storing.cursor_path old_memory).0 ≡ ok empty_cursor
begun_loaded =
    load_stored storing memory_disk old_text empty_cursor old_memory begun_stored old_read (λ e. cc)

with_cursor-IsSaved : (w : World Memory) → IsSaved (with_cursor storing false (ok empty_cursor) w).1
unfolding with_cursor with_latest
with_cursor-IsSaved w = scan_repos-IsSaved _ refl

poll-IsSaved : IsSaved (poll storing false begun).1
unfolding poll
poll-IsSaved = rw (begun_loaded) (with_cursor-IsSaved _)

new-ne-old : some new_text ≢ some old_text
new-ne-old e = cc

reads_back :
    (t : Text)
    → some new_text ≡ some t
    → two_codec.unmarshal t ≡ some (poll storing false begun).1.cursor
reads_back t written =
    let same : new_text ≡ t = cc in
    subst (λ x. two_codec.unmarshal x ≡ some (poll storing false begun).1.cursor) same
      (new_read ∙ ap some (sym poll-IsSaved.1))

poll_saved-Spared_example :
    Spared storing tool
      (poll storing true (
        after_saved storing memory_disk storing-IsSeparate allow_all [] refl storing-IsCalm false
          go_1_27_2 tool head go_1_26_0
          (λ cmd e. refl)
          []
          []
          tt
          tt
          (λ e. refl)
          (λ e. refl)
          begun)).1
poll_saved-Spared_example =
    poll_saved-Spared storing memory_disk storing-IsSeparate allow_all [] refl storing-IsCalm false
      go_1_27_2 tool head go_1_26_0 (λ cmd e. refl) [] [] tt tt (λ e. refl) (λ e. refl)
      storing-IsRecent old_text empty_cursor begun begun_stored old_read (λ e. cc) storing-IsDue
      (λ kept. new-ne-old (sym poll-IsSaved.0 ∙ kept)) reads_back true

poll-IsAtomic_example :
    IsAtomic storing memory_disk storing-IsSeparate (some old_text) (poll storing true begun).1
poll-IsAtomic_example =
    poll-IsAtomic storing memory_disk storing-IsSeparate old_text empty_cursor true begun
      begun_stored old_read
