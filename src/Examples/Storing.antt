-- ===== src/Examples/Storing.antt =====
-- The sample's collaborators over the disk in memory, with a repository whose update is due.
use github_update_go_watcher.Common.{
  false, true, [], ◌∷◌, some, ◌≡◌, refl, arith, ok, inl, inr, err, failed,
}
use github_update_go_watcher.Cursor.{Cursor, empty_cursor, entry, lookup}
use github_update_go_watcher.Cursor.Store.{Codec}
use github_update_go_watcher.Examples.Dues.{due_content, due_parsed}
use github_update_go_watcher.Examples.Samples.{allow_all, go_1_26_0, go_1_27_2, head, sample, tool}
use github_update_go_watcher.Repo.{key}
use github_update_go_watcher.Version.{less, number}
use github_update_go_watcher.Version.Decimal.{itoa, atoi-itoa}
use github_update_go_watcher.Watcher.Delivery.{IsDue}
use github_update_go_watcher.Watcher.Gate.{claims}
use github_update_go_watcher.Watcher.Liveness.{IsCalm}
use github_update_go_watcher.Watcher.State.{Watcher, World}
use github_update_go_watcher.Watcher.Twice.{IsRecent}
use github_update_go_watcher.Common.{Text, bytes, text_dec, ◌==◌, if◌then◌else◌}
use github_update_go_watcher.Examples.Disk.{Memory, empty_memory, memory_disk, memory_files, put}
use github_update_go_watcher.Filter.Maintainer.{granted}
use github_update_go_watcher.GitHub.{GitHubClient}
use github_update_go_watcher.Version.Decimal.{atoi}
use github_update_go_watcher.Watcher.Separate.{IsSeparate, stored}

-- The cursor that a cycle over an empty store ends with.
abbrev pub published_cursor : Cursor
published_cursor = record {
  repos = some (
      (
        key tool,
        some (record {
          last_seen_head_sha = head;
          last_seen_go_version = number go_1_27_2;
          completed_head_sha = [];
          in_flight_target = number go_1_27_2;
          in_flight_since = itoa 1000;
        }),
      )
      ∷ []);
}

-- A codec of two cursors: this one and the empty one.
abbrev pub old_text : Text
old_text = []

abbrev pub new_text : Text
new_text = bytes "new"

abbrev pub two_codec : Codec
two_codec = record {
  marshal = λ c. some new_text;
  unmarshal = λ t. some (if t == new_text then published_cursor else empty_cursor);
}

-- The sample's collaborators over the disk in memory.
abbrev pub over_memory : GitHubClient Memory → Watcher Memory
over_memory github = record {
  github = github;
  latest_stable = λ e. (ok go_1_27_2, e);
  send_create = λ cmd e. (true, e);
  send_complete = λ id e. (true, e);
  task_config = sample.task_config;
  cursor_path = sample.cursor_path;
  owner = sample.owner;
  task_creation_filter = sample.task_creation_filter;
  now = λ e. (1000, e);
  format_time = itoa;
  parse_time = atoi;
  new_sha1 = sample.new_sha1;
  ctx_done = λ e. (false, e);
  files = memory_files;
  codec = two_codec;
}

abbrev pub one_repo : GitHubClient Memory
one_repo = record {
  list_repos = λ owner e. (ok (tool ∷ []), e);
  get_head_sha = λ r e. (ok head, e);
  get_go_mod = λ r e. (ok (some due_content), e);
  get_maintainer_config = λ r e. (ok granted, e);
  get_merged_update_pr = λ r sha e. (err failed, e);
  has_open_update_pr = λ r e. (ok false, e);
}

abbrev pub storing : Watcher Memory
storing = over_memory one_repo

abbrev pub old_memory : Memory
old_memory = put sample.cursor_path (some old_text) empty_memory

abbrev pub begun : World Memory
begun = record { env = old_memory; cursor = empty_cursor; events = [] }

pub storing-IsSeparate : IsSeparate storing memory_disk
storing-IsSeparate = record {
  by_listing = λ o e. refl;
  by_head = λ r e. refl;
  by_go_mod = λ r e. refl;
  by_consent = λ r e. refl;
  by_merged = λ r sha e. refl;
  by_open = λ r e. refl;
  by_release = λ e. refl;
  by_create = λ cmd e. refl;
  by_complete = λ id e. refl;
  by_clock = λ e. refl;
  by_context = λ e. refl;
}

pub begun_stored : stored storing memory_disk old_memory ≡ some old_text
unfolding text_dec
begun_stored = refl

pub old_read : two_codec.unmarshal old_text ≡ some empty_cursor
unfolding text_dec
old_read = refl

pub new_read : two_codec.unmarshal new_text ≡ some published_cursor
unfolding text_dec
new_read = refl

pub storing-IsRecent : IsRecent storing tool go_1_27_2
storing-IsRecent e = (1000, atoi-itoa 1000 (omega arith), λ later. omega arith)

pub storing-IsCalm : IsCalm storing
storing-IsCalm = record {
  head_unlimited = λ r e h. cc;
  go_mod_unlimited = λ r e h. cc;
  consent_unlimited = λ r e h. cc;
  open_pr_unlimited = λ r e h. cc;
  live = λ e. refl;
}

pub storing-IsDue :
    IsDue storing allow_all [] false go_1_27_2 tool head go_1_26_0 (entry (key tool) empty_cursor)
unfolding entry lookup claims less
storing-IsDue = record {
  content = due_content;
  head_read = λ e. refl;
  go_mod_read = λ e. refl;
  consent_read = λ e. refl;
  no_open_pr = λ e. refl;
  parsed = due_parsed;
  behind = refl;
  in_scope = refl;
  unclaimed = refl;
  fresh = inr (inr (inl (λ e. cc)));
}
