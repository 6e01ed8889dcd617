-- ===== src/Service/Wiring.antt =====
-- `CreateWatcher` and the senders of pkg/factory/factory.go, with what they construct.
use github_update_go_watcher.Common.{ℕ, Bool, List, [], Option, Text, Result}
use github_update_go_watcher.Cursor.Store.{FileSystem, Codec}
use github_update_go_watcher.Filter.{TaskCreationFilter}
use github_update_go_watcher.Filter.Maintainer.{YamlNode}
use github_update_go_watcher.GitHub.{GitHubClient}
use github_update_go_watcher.GitHub.Api.{Api}
use github_update_go_watcher.GitHub.Client.{github_client}
use github_update_go_watcher.GoDev.{GoDevRelease, Exchange, default_go_dev_url, new_go_dev_client}
use github_update_go_watcher.Task.{CreateCommand, TaskConfig}
use github_update_go_watcher.Transport.{RoundTripper, github_transport}
use github_update_go_watcher.Version.{Version}
use github_update_go_watcher.Watcher.State.{Watcher}

-- What the service takes from outside: go-github over a transport, the default transport and the log,
-- the GET requests of an HTTP client, the clock and its time format, UUID version 5, the context, the
-- file system, and the codecs.
pub record Externals (E : Type 0) : Type 0 where
  pub new_api : RoundTripper E → Api E
  pub default_transport : RoundTripper E
  pub log : Text → E → E
  pub get : Text → E → Exchange × E
  pub unmarshal_releases : Text → Option (List GoDevRelease)
  pub unmarshal_yaml : Text → Option YamlNode
  pub now : E → ℕ × E
  pub format_time : ℕ → Text
  pub parse_time : Text → Option ℕ
  pub new_sha1 : Text → Text → Text
  pub ctx_done : E → Bool × E
  pub files : FileSystem E
  pub codec : Codec

-- The senders over Kafka: `cdb.NewCommandObjectSender` with a topic prefix, and the typed senders
-- over it.
pub record Kafka (E Producer Sender : Type 0) : Type 0 where
  pub new_command_object_sender : Producer → Text → Sender
  pub new_create_command_sender : Sender → Text → CreateCommand → E → Bool × E
  pub new_complete_command_sender : Sender → Text → Text → E → Bool × E

module _ {E Producer Sender : Type 0} (k : Kafka E Producer Sender) where
  unfoldable pub create_kafka_sender : Producer → Text → CreateCommand → E → Bool × E
  create_kafka_sender producer topic_prefix =
      k.new_create_command_sender (k.new_command_object_sender producer topic_prefix) []

  unfoldable pub create_kafka_complete_sender : Producer → Text → Text → E → Bool × E
  create_kafka_complete_sender producer topic_prefix =
      k.new_complete_command_sender (k.new_command_object_sender producer topic_prefix) []

-- The fields of `taskPublisher` other than the metrics.
pub record TaskPublisher (E : Type 0) : Type 0 where
  pub sender : CreateCommand → E → Bool × E
  pub config : TaskConfig

unfoldable pub new_task_publisher :
    {E : Type 0} → (CreateCommand → E → Bool × E) → TaskConfig → TaskPublisher E
new_task_publisher sender config = record { sender = sender; config = config }

module _ {E : Type 0} (x : Externals E) where
  -- The HTTP client is given by its transport, none for the default one.
  unfoldable pub new_github_client : Option (RoundTripper E) → GitHubClient E
  new_github_client transport =
      github_client (x.new_api (github_transport x.log x.default_transport transport)) x.ctx_done
        x.unmarshal_yaml

  unfoldable pub new_watcher :
      GitHubClient E
      → (E → Result Version × E)
      → TaskPublisher E
      → (Text → E → Bool × E)
      → Text
      → Text
      → TaskCreationFilter
      → Watcher E
  new_watcher github go_dev publisher complete_sender cursor_path owner task_creation_filter =
      record {
        github = github;
        latest_stable = go_dev;
        send_create = publisher.sender;
        send_complete = complete_sender;
        task_config = publisher.config;
        cursor_path = cursor_path;
        owner = owner;
        task_creation_filter = task_creation_filter;
        now = x.now;
        format_time = x.format_time;
        parse_time = x.parse_time;
        new_sha1 = x.new_sha1;
        ctx_done = x.ctx_done;
        files = x.files;
        codec = x.codec;
      }

  unfoldable pub create_watcher :
      Option (RoundTripper E)
      → (CreateCommand → E → Bool × E)
      → (Text → E → Bool × E)
      → Text
      → Text
      → Text
      → Text
      → TaskCreationFilter
      → Watcher E
  create_watcher transport sender complete_sender cursor_path owner stage update_scope filter =
      new_watcher (new_github_client transport)
        (new_go_dev_client x.get x.unmarshal_releases default_go_dev_url)
        (new_task_publisher sender (record { stage = stage; update_scope = update_scope }))
        complete_sender cursor_path owner filter
