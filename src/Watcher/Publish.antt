-- ===== src/Watcher/Publish.antt =====
-- pkg/taskpublisher.go, and `markPublished` of pkg/watcher.go.
use github_update_go_watcher.Candidate.{Candidate}
use github_update_go_watcher.Common.{Bool, Option, none, some, Text, [], if◌then◌else◌}
use github_update_go_watcher.Cursor.{RepoState, entry, set_entry}
use github_update_go_watcher.Repo.{Repo, key}
use github_update_go_watcher.Task.{CreateCommand, build_create_command, build_decision_command}
use github_update_go_watcher.Version.{number}
use github_update_go_watcher.Watcher.State.{
  Watcher, M, ◌>>=◌, ◌>>◌, pure, call, emit, get_cursor, put_cursor, PublishStatus, command_sent,
  published,
}

-- The completion marker of an entry, empty where there is none.
abbrev pub completed_of : Option RepoState → Text
completed_of none = []
completed_of (some s) = s.completed_head_sha

-- The entry that a successful publish at a given time leaves.
unfoldable pub published_state : Candidate → Text → Option RepoState → RepoState
published_state c since previous = record {
  last_seen_head_sha = c.head_sha;
  last_seen_go_version = number c.latest_go;
  completed_head_sha = completed_of previous;
  in_flight_target = number c.latest_go;
  in_flight_since = since;
}

module _ {E : Type 0} (d : Watcher E) where
  -- What `PublishCreate` and `PublishDecision` do with their command.
  unfoldable pub send : CreateCommand → M E Bool
  send cmd = do
    sent ← call (d.send_create cmd)
    emit (command_sent cmd sent)
    emit (published (if sent then PublishStatus.create else PublishStatus.error))
    pure sent

  unfoldable pub publish_create : Candidate → M E Bool
  publish_create c = send (build_create_command d.new_sha1 c d.task_config)

  unfoldable pub publish_decision : Candidate → M E Bool
  publish_decision c = send (build_decision_command d.new_sha1 c d.task_config)

  unfoldable pub mark_published : Repo → Candidate → M E (Unit {0})
  mark_published repo c = do
    now ← call d.now
    cursor ← get_cursor
    put_cursor (
        set_entry (key repo) (published_state c (d.format_time now) (entry (key repo) cursor))
          cursor)
