-- ===== src/Examples/Samples.antt =====
-- A repository that is behind, a watcher whose collaborators all answer, and a world before the
-- first cycle. The environment is the number of times that the clock was read.
use github_update_go_watcher.Candidate.{Candidate}
use github_update_go_watcher.Common.{
  ℕ, suc, Bool, true, false, List, [], ◌∷◌, ◌++◌, none, some, Text, bytes, ok,
}
use github_update_go_watcher.Cursor.{empty_cursor}
use github_update_go_watcher.Cursor.Store.{FileSystem, Codec, not_exist}
use github_update_go_watcher.Filter.{create_static_filters}
use github_update_go_watcher.Filter.Maintainer.{granted}
use github_update_go_watcher.GitHub.{GitHubClient}
use github_update_go_watcher.Repo.{Repo}
use github_update_go_watcher.Version.{Version}
use github_update_go_watcher.Version.Decimal.{itoa, atoi}
use github_update_go_watcher.Watcher.State.{Watcher, World}

abbrev pub tool : Repo
tool = record { owner = bytes "bborbe"; name = bytes "tool"; default_branch = bytes "master" }

abbrev pub head : Text
head = bytes "0123456789abcdef"

abbrev pub go_1_27_2 : Version
go_1_27_2 = record { major = 1; minor = 27; patch = 2; raw = bytes "go1.27.2" }

abbrev pub go_1_26_0 : Version
go_1_26_0 = record { major = 1; minor = 26; patch = 0; raw = bytes "1.26" }

abbrev pub tool_candidate : Candidate
tool_candidate = record {
  repo = tool;
  head_sha = head;
  go_mod_present = true;
  go_mod_parsable = true;
  current_go = go_1_26_0;
  latest_go = go_1_27_2;
  consent = granted;
}

abbrev pub sample_github : GitHubClient ℕ
sample_github = record {
  list_repos = λ owner e. (ok (tool ∷ []), e);
  get_head_sha = λ r e. (ok head, e);
  get_go_mod = λ r e. (ok (some (bytes "module x\n\ngo 1.26\n")), e);
  get_maintainer_config = λ r e. (ok granted, e);
  get_merged_update_pr = λ r sha e. (ok true, e);
  has_open_update_pr = λ r e. (ok false, e);
}

abbrev pub allow_all : List Text → Text → Bool
allow_all allowlist key = true

-- Nothing is stored, and every operation succeeds.
abbrev empty_files : FileSystem ℕ
empty_files = record {
  read_file = λ path e. (not_exist, e);
  write_file = λ path t e. (true, e);
  rename = λ from to e. (true, e);
  remove = λ path e. (true, e);
}

abbrev sample_codec : Codec
sample_codec = record { marshal = λ c. some []; unmarshal = λ t. none }

abbrev pub sample : Watcher ℕ
sample = record {
  github = sample_github;
  latest_stable = λ e. (ok go_1_27_2, e);
  send_create = λ cmd e. (true, e);
  send_complete = λ id e. (true, e);
  task_config = record { stage = bytes "dev"; update_scope = [] };
  cursor_path = bytes "/data/cursor.json";
  owner = bytes "bborbe";
  task_creation_filter = create_static_filters allow_all [];
  now = λ e. (1000, suc e);
  format_time = itoa;
  parse_time = atoi;
  new_sha1 = λ namespace name. namespace ++ name;
  ctx_done = λ e. (false, e);
  files = empty_files;
  codec = sample_codec;
}

abbrev pub fresh_world : World ℕ
fresh_world = record { env = 0; cursor = empty_cursor; events = [] }
