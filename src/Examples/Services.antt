-- ===== src/Examples/Services.antt =====
-- A service that starts, its cycles, and its counters.
use github_update_go_watcher.Auth.{
  Credentials, resolve_github_client, app_complete, app_partial, made,
}
use github_update_go_watcher.Common.{
  true, List, [], ◌∷◌, none, some, ◌≡◌, refl, bytes, Text, All, pos, length, arith, text_dec,
}
use github_update_go_watcher.Cursor.{empty_cursor}
use github_update_go_watcher.Cursor.Store.{not_exist}
use github_update_go_watcher.CycleGate.Exclusion.{Reach}
use github_update_go_watcher.Examples.GitHubApi.{alice, installation, never_done, yaml_true}
use github_update_go_watcher.Examples.Samples.{fresh_world, sample}
use github_update_go_watcher.Filter.Allowlist.{
  IsEntry, parse_repo_allowlist, parse_repo_allowlist-join,
}
use github_update_go_watcher.GoDev.{response}
use github_update_go_watcher.GitHub.Api.{answer}
use github_update_go_watcher.Metrics.{operations, published_total}
use github_update_go_watcher.Metrics.Series.{IsPreset, operations-IsPreset}
use github_update_go_watcher.Metrics.Totals.{all_operations, total}
use github_update_go_watcher.Service.Held.{system}
use github_update_go_watcher.Service.Interleaving.{drive-Reach}
use github_update_go_watcher.Service.Loop.{Signal, arrive, drive, finish, launch, tick}
use github_update_go_watcher.Service.Lifetime.{drive-SentOwn, drive-total_published}
use github_update_go_watcher.Examples.Routing.{sample_mux, forced_trigger, plain_trigger}
use github_update_go_watcher.Service.Scope.{SentOwn, StartsAs, starts_run}
use github_update_go_watcher.Service.Startup.{Application, Environment, Running, wire}
use github_update_go_watcher.Service.Wiring.{Externals}
use github_update_go_watcher.Strings.{join, space_width, trim_left, trim_right, trim_space}
use github_update_go_watcher.Version.Decimal.{itoa, atoi}
use github_update_go_watcher.Watcher.Commands.{commands}
use github_update_go_watcher.Watcher.State.{World, success, poll_cycle}

-- Two cycles of the loop, with a request that begins one between them and one that is refused.
abbrev signals : List Signal
signals = finish ∷ arrive 1 true forced_trigger ∷ arrive 2 true plain_trigger ∷ finish ∷ tick ∷ []

drive-Reach_example : Reach (
    system sample_mux sample
      (drive sample_mux sample signals (launch sample_mux sample fresh_world)))
drive-Reach_example = drive-Reach sample_mux sample signals fresh_world

abbrev entries : List Text
entries = bytes "github.com/alice/tool" ∷ bytes "github.com/alice/site" ∷ []

entries-IsEntry : All IsEntry entries
unfolding trim_space trim_left trim_right space_width text_dec
entries-IsEntry = (((λ e. cc), refl, ground arith), (((λ e. cc), refl, ground arith), tt))

parse_repo_allowlist-join_example : parse_repo_allowlist (join (bytes ",") entries) ≡ entries
parse_repo_allowlist-join_example = parse_repo_allowlist-join entries entries-IsEntry

operations-IsPreset_example : All IsPreset (operations (poll_cycle success))
operations-IsPreset_example = operations-IsPreset (poll_cycle success)

drive-total_published_example :
    total published_total (
      all_operations
        (drive sample_mux sample signals (launch sample_mux sample fresh_world)).world.events)
    ≡ length (
        commands
          (drive sample_mux sample signals (launch sample_mux sample fresh_world)).world.events)
drive-total_published_example =
    drive-total_published sample_mux sample signals fresh_world
      (unfold total all_operations commands in refl)

-- A service for the owner `alice`, over the installation without its pull requests; go.dev answers
-- one release.
abbrev sample_externals : Externals (Unit {0})
sample_externals = record {
  new_api = λ transport. record installation {
    list_pull_requests = λ owner name query e. (answer [], e);
  };
  default_transport = λ req e. (none, e);
  log = λ line e. e;
  get = λ url e. (response 200 (some []), e);
  unmarshal_releases = λ t. some (record { version = bytes "go1.27.2"; stable = true } ∷ []);
  unmarshal_yaml = yaml_true;
  now = λ e. (1000, e);
  format_time = itoa;
  parse_time = atoi;
  new_sha1 = λ namespace name. name;
  ctx_done = never_done;
  files = record {
    read_file = λ path e. (not_exist, e);
    write_file = λ path t e. (true, e);
    rename = λ from to e. (true, e);
    remove = λ path e. (true, e);
  };
  codec = record { marshal = λ c. some []; unmarshal = λ t. none };
}

abbrev sample_environment : Environment (Unit {0}) Credentials Text Text
sample_environment = record {
  parse_duration = λ t. some (pos 600);
  validate_allowlist = λ allowlist. true;
  is_allowed = λ allowlist key. true;
  new_client = λ c. some c;
  new_producer = λ brokers. some brokers;
  transport = λ c. none;
  kafka = record {
    new_command_object_sender = λ producer prefix. prefix;
    new_create_command_sender = λ sender initiator cmd e. (true, e);
    new_complete_command_sender = λ sender initiator id e. (true, e);
  };
  externals = sample_externals;
}

abbrev application : Application
application = record {
  stage = bytes "dev";
  update_scope = [];
  owner = alice;
  repo_allowlist = [];
  poll_interval = bytes "10m";
  cursor_path = bytes "/data/cursor.json";
  kafka_brokers = bytes "kafka:9092";
  topic_prefix = bytes "dev";
  app_id = pos 7;
  installation_id = pos 8;
  pem_key = bytes "key";
}

abbrev application_credentials : Credentials
application_credentials = record { app_id = pos 7; installation_id = pos 8; pem_key = bytes "key" }

abbrev service : Running (Unit {0})
service =
    wire sample_environment application (pos 600) [] application_credentials (bytes "kafka:9092")

service-StartsAs : StartsAs sample_environment application service
unfolding resolve_github_client app_complete app_partial made parse_repo_allowlist text_dec
service-StartsAs = record {
  interval = pos 600;
  http_client = application_credentials;
  producer = bytes "kafka:9092";
  is_interval = refl;
  is_allowlist = refl;
  is_client = refl;
  is_producer = refl;
  is_wired = refl;
}

abbrev idle : World (Unit {0})
idle = record { env = tt; cursor = empty_cursor; events = [] }

drive-SentOwn_example :
    SentOwn sample_environment application service
      (drive sample_mux service.watcher signals (launch sample_mux service.watcher idle)).world
drive-SentOwn_example =
    drive-SentOwn sample_environment application sample_mux service
      (starts_run sample_environment application service service-StartsAs) signals idle
      (unfold commands in refl)
