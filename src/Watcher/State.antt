-- ===== src/Watcher/State.antt =====
-- The collaborators of pkg/watcher.go and the state of one cycle. The cursor is a shared object in
-- the source and a field of the state here; what a cycle counts and sends is a list of events,
-- newest first.
use github_update_go_watcher.Common.{
  Bool, true, false, List, ◌∷◌, ℕ, Option, none, some, Text, Result,
}
use github_update_go_watcher.Cursor.{Cursor}
use github_update_go_watcher.Cursor.Store.{FileSystem, Codec}
use github_update_go_watcher.Filter.{SkipReason, TaskCreationFilter}
use github_update_go_watcher.GitHub.{GitHubClient}
use github_update_go_watcher.Task.{CreateCommand, TaskConfig}
use github_update_go_watcher.Version.{Version}

-- `PollCycleResults` of pkg/metrics.go; a cycle that was not aborted is `success`.
pub data PollResult : Type 0 where
  success rate_limited github_error go_version_error : PollResult

-- `PublishStatuses` and `CompleteStatuses`.
pub data PublishStatus : Type 0 where
  create error : PublishStatus

pub data CompleteStatus : Type 0 where
  complete error : CompleteStatus

-- The calls of the metrics and of the two command senders, the latter with their success.
pub data Event : Type 0 where
  poll_cycle : PollResult → Event
  published : PublishStatus → Event
  completed : CompleteStatus → Event
  repos_scanned : ℕ → Event
  filter_skipped : SkipReason → Event
  command_sent : CreateCommand → Bool → Event
  completion_sent : Text → Bool → Event

-- The `watcher` struct with its publisher. Times are nanoseconds.
pub record Watcher (E : Type 0) : Type 0 where
  pub github : GitHubClient E
  pub latest_stable : E → Result Version × E
  pub send_create : CreateCommand → E → Bool × E
  pub send_complete : Text → E → Bool × E
  pub task_config : TaskConfig
  pub cursor_path : Text
  pub owner : Text
  pub task_creation_filter : TaskCreationFilter
  pub now : E → ℕ × E
  pub format_time : ℕ → Text
  pub parse_time : Text → Option ℕ
  pub new_sha1 : Text → Text → Text
  pub ctx_done : E → Bool × E
  pub files : FileSystem E
  pub codec : Codec

pub record World (E : Type 0) : Type 0 where
  pub env : E
  pub cursor : Cursor
  pub events : List Event

abbrev pub M : Type 0 → Type 0 → Type 0
M E A = World E → A × World E

module _ {E : Type 0} where
  infixl 5 ◌>>=◌ ◌>>◌
  abbrev pub ◌>>=◌ : {A B : Type 0} → M E A → (A → M E B) → M E B
  ◌>>=◌ m f w = f (m w).0 (m w).1

  abbrev pub ◌>>◌ : {A B : Type 0} → M E A → M E B → M E B
  ◌>>◌ m k w = k (m w).1

  abbrev pub pure : {A : Type 0} → A → M E A
  pure a w = (a, w)

  -- A call of a collaborator.
  abbrev pub call : {A : Type 0} → (E → A × E) → M E A
  call op w = ((op w.env).0, record w { env = (op w.env).1 })

  abbrev pub emit : Event → M E (Unit {0})
  emit e w = (tt, record w { events = e ∷ w.events })

  abbrev pub get_cursor : M E Cursor
  get_cursor w = (w.cursor, w)

  abbrev pub put_cursor : Cursor → M E (Unit {0})
  put_cursor c w = (tt, record w { cursor = c })

  -- A loop that ends without an abort reason once the context is done.
  unfoldable pub unless_done : Bool → M E (Option PollResult) → M E (Option PollResult)
  unless_done true more = pure none
  unless_done false more = more

  -- An abort reason ends a loop.
  unfoldable pub unless_aborted :
      Option PollResult → M E (Option PollResult) → M E (Option PollResult)
  unless_aborted (some reason) more = pure (some reason)
  unless_aborted none more = more
