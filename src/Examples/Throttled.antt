-- ===== src/Examples/Throttled.antt =====
-- A cycle over the disk in memory that is throttled at its second repository; and the claim of the
-- first one over a cycle.
use github_update_go_watcher.Common.{
  false, true, [], ◌∷◌, ◌≡◌, refl, ok, err, rate_limited, inl, bytes, text_dec, ◌==◌, if◌then◌else◌,
}
use github_update_go_watcher.Cursor.{empty_cursor, entry, lookup}
use github_update_go_watcher.Cursor.Store.{load_cursor}
use github_update_go_watcher.Examples.Disk.{Memory, memory_disk}
use github_update_go_watcher.Examples.Dues.{due_content, due_parsed}
use github_update_go_watcher.Examples.Storing.{
  begun, begun_stored, old_read, old_text, one_repo, over_memory,
}
use github_update_go_watcher.Examples.Samples.{
  allow_all, fresh_world, go_1_26_0, go_1_27_2, head, sample, tool,
}
use github_update_go_watcher.GitHub.{GitHubClient}
use github_update_go_watcher.Repo.{Repo, key}
use github_update_go_watcher.Version.{less}
use github_update_go_watcher.Watcher.Aborted.{poll_aborted_again, sent_task}
use github_update_go_watcher.Watcher.Commands.{commands}
use github_update_go_watcher.Watcher.Delivery.{IsDue}
use github_update_go_watcher.Watcher.Gate.{claims}
use github_update_go_watcher.Watcher.Lifecycle.{claim}
use github_update_go_watcher.Watcher.Lifecycle.Passes.{Evolves, poll-Evolves}
use github_update_go_watcher.Watcher.Poll.{poll}
use github_update_go_watcher.Watcher.Separate.{IsSeparate}
use github_update_go_watcher.Watcher.State.{Watcher}

poll-Evolves_example :
    Evolves sample false
      (key tool)
      (claim (entry (key tool) empty_cursor))
      (claim (entry (key tool) (poll sample false fresh_world).1.cursor))
poll-Evolves_example =
    poll-Evolves sample false (key tool) empty_cursor fresh_world (unfold load_cursor in refl)

abbrev library : Repo
library = record { owner = bytes "bborbe"; name = bytes "library"; default_branch = bytes "master" }

-- GitHub answers the reads of the first repository only.
abbrev two_repos : GitHubClient Memory
two_repos = record one_repo {
  list_repos = λ owner e. (ok (tool ∷ library ∷ []), e);
  get_head_sha = λ r e. (if r.name == tool.name then ok head else err rate_limited, e);
}

abbrev throttling : Watcher Memory
throttling = over_memory two_repos

throttling-IsSeparate : IsSeparate throttling memory_disk
throttling-IsSeparate = record {
  by_listing = λ o e. refl;
  by_head = λ r e. refl;
  by_go_mod = λ r e. refl;
  by_consent = λ r e. refl;
  by_merged = λ r sha e. refl;
  by_open = λ r e. refl;
  by_release = λ e. refl;
  by_create = λ cmd e. refl;
  by_complete = λ id e. refl;
  by_clock = λ e. refl;
  by_context = λ e. refl;
}

throttling-IsDue :
    IsDue throttling allow_all [] true go_1_27_2 tool head go_1_26_0 (entry (key tool) empty_cursor)
unfolding entry lookup claims less text_dec
throttling-IsDue = record {
  content = due_content;
  head_read = λ e. refl;
  go_mod_read = λ e. refl;
  consent_read = λ e. refl;
  no_open_pr = λ e. refl;
  parsed = due_parsed;
  behind = refl;
  in_scope = refl;
  unclaimed = refl;
  fresh = inl refl;
}

library_throttled : (e : Memory) → (throttling.github.get_head_sha library e).0 ≡ err rate_limited
unfolding text_dec
library_throttled e = refl

poll_aborted_again_example :
    commands (poll throttling true (poll throttling true begun).1).1.events
    ≡ sent_task throttling memory_disk throttling-IsSeparate allow_all [] refl true go_1_27_2 tool
        head go_1_26_0 library [] library_throttled
        (λ e. refl)
        (λ e. refl)
        (λ e. refl)
      ∷ sent_task throttling memory_disk throttling-IsSeparate allow_all [] refl true go_1_27_2 tool
          head go_1_26_0 library [] library_throttled
          (λ e. refl)
          (λ e. refl)
          (λ e. refl)
      ∷ []
unfolding commands
poll_aborted_again_example =
    poll_aborted_again throttling memory_disk throttling-IsSeparate allow_all [] refl true go_1_27_2
      tool head go_1_26_0 library [] library_throttled (λ e. refl) (λ e. refl) (λ e. refl) old_text
      empty_cursor begun begun_stored old_read (λ e. cc) throttling-IsDue
