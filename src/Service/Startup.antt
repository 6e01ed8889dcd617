-- ===== src/Service/Startup.antt =====
-- `Run` of main.go up to the start of the poll loop and of the HTTP server. `time.ParseDuration`, the
-- checks of the allowlist, the Kafka producer and what a client brings are parameters.
use github_update_go_watcher.Auth.{
  Credentials, Resolved, Variable, client, partial, not_configured, client_error,
  resolve_github_client,
}
use github_update_go_watcher.Common.{Bool, true, false, List, Option, none, some, Text, ℤ}
use github_update_go_watcher.CycleGate.{CycleGate, new_cycle_gate}
use github_update_go_watcher.Filter.{create_static_filters}
use github_update_go_watcher.Filter.Allowlist.{parse_repo_allowlist}
use github_update_go_watcher.Service.Wiring.{
  Externals, Kafka, create_kafka_complete_sender, create_kafka_sender, create_watcher,
}
use github_update_go_watcher.Transport.{RoundTripper}
use github_update_go_watcher.Watcher.State.{Watcher}

-- The arguments that `Run` reads.
pub record Application : Type 0 where
  pub stage : Text
  pub update_scope : Text
  pub owner : Text
  pub repo_allowlist : Text
  pub poll_interval : Text
  pub cursor_path : Text
  pub kafka_brokers : Text
  pub topic_prefix : Text
  pub app_id : ℤ
  pub installation_id : ℤ
  pub pem_key : Text

-- Why `Run` fails.
pub data StartError : Type 0 where
  poll_interval_invalid allowlist_invalid : StartError
  credentials_missing : List Variable → StartError
  credentials_absent client_failed producer_failed : StartError

-- What is running after the start: the loop at its interval, and the gate.
pub record Running (E : Type 0) : Type 0 where
  pub watcher : Watcher E
  pub gate : CycleGate
  pub interval : ℤ

pub data Started (E : Type 0) : Type 0 where
  running : Running E → Started E
  refused : StartError → Started E

-- The functions outside the repository.
pub record Environment (E Client Producer Sender : Type 0) : Type 0 where
  pub parse_duration : Text → Option ℤ
  pub validate_allowlist : List Text → Bool
  pub is_allowed : List Text → Text → Bool
  pub new_client : Credentials → Option Client
  pub new_producer : Text → Option Producer
  pub transport : Client → Option (RoundTripper E)
  pub kafka : Kafka E Producer Sender
  pub externals : Externals E

module _ {E Client Producer Sender : Type 0} (env : Environment E Client Producer Sender)
    (a : Application) where
  unfoldable pub wire : ℤ → List Text → Client → Producer → Running E
  wire interval allowlist c p = record {
    watcher =
        create_watcher env.externals (env.transport c)
          (create_kafka_sender env.kafka p a.topic_prefix)
          (create_kafka_complete_sender env.kafka p a.topic_prefix) a.cursor_path a.owner a.stage
          a.update_scope (create_static_filters env.is_allowed allowlist);
    gate = new_cycle_gate;
    interval = interval;
  }

  unfoldable pub with_producer : ℤ → List Text → Client → Option Producer → Started E
  with_producer interval allowlist c none = refused producer_failed
  with_producer interval allowlist c (some p) = running (wire interval allowlist c p)

  unfoldable pub with_client : ℤ → List Text → Resolved Client → Started E
  with_client interval allowlist (client c) =
      with_producer interval allowlist c (env.new_producer a.kafka_brokers)
  with_client interval allowlist (partial names) = refused (credentials_missing names)
  with_client interval allowlist not_configured = refused credentials_absent
  with_client interval allowlist client_error = refused client_failed

  unfoldable pub with_allowlist : ℤ → List Text → Bool → Started E
  with_allowlist interval allowlist false = refused allowlist_invalid
  with_allowlist interval allowlist true = with_client interval allowlist (
      resolve_github_client env.new_client
        (record { app_id = a.app_id; installation_id = a.installation_id; pem_key = a.pem_key }))

  unfoldable pub with_interval : Option ℤ → Started E
  with_interval none = refused poll_interval_invalid
  with_interval (some interval) =
      let allowlist = parse_repo_allowlist a.repo_allowlist in
      with_allowlist interval allowlist (env.validate_allowlist allowlist)

  unfoldable pub run : Started E
  run = with_interval (env.parse_duration a.poll_interval)
