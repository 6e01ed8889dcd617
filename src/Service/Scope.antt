-- ===== src/Service/Scope.antt =====
-- The started service of main.go: what starts it, and what its cycles send.
use mathlib.Core.Path.{subst}
use github_update_go_watcher.Auth.{
  Credentials, Resolved, client, partial, not_configured, client_error, resolve_github_client,
}
use github_update_go_watcher.Common.{
  Bool, true, false, List, Option, none, some, Text, ℤ, ◌≡◌, refl, sym, ap, All, Result, ok, err,
}
use github_update_go_watcher.Filter.Allowlist.{parse_repo_allowlist}
use github_update_go_watcher.GitHub.Api.{Api}
use github_update_go_watcher.GitHub.Client.{github_client}
use github_update_go_watcher.GitHub.Owned.{IsOwned}
use github_update_go_watcher.GitHub.Listing.{ListsOwned, list_repos-ListsOwned}
use github_update_go_watcher.Repo.{Repo}
use github_update_go_watcher.Service.Startup.{
  Application, Environment, Running, running, run, wire, with_producer, with_client, with_allowlist,
  with_interval,
}
use github_update_go_watcher.Service.Wiring.{create_watcher, new_github_client, new_watcher}
use github_update_go_watcher.Transport.{github_transport}
use github_update_go_watcher.Watcher.Walk.{Lists}
use github_update_go_watcher.Watcher.Authority.{Authorised, IsWired, poll-Authorised}
use github_update_go_watcher.Watcher.Commands.{commands}
use github_update_go_watcher.Watcher.Poll.{poll}
use github_update_go_watcher.Watcher.State.{World}

module _ {E Client Producer Sender : Type 0} (env : Environment E Client Producer Sender)
    (a : Application) where
  -- The credentials among the arguments.
  abbrev pub credentials : Credentials
  credentials = record {
    app_id = a.app_id;
    installation_id = a.installation_id;
    pem_key = a.pem_key;
  }

  abbrev pub allowlist : List Text
  allowlist = parse_repo_allowlist a.repo_allowlist

  -- The interval is a duration, the allowlist is valid, and the client and the producer are made; the
  -- service is wired from these.
  pub record StartsAs (r : Running E) : Type 0 where
    pub interval : ℤ
    pub http_client : Client
    pub producer : Producer
    pub is_interval : env.parse_duration a.poll_interval ≡ some interval
    pub is_allowlist : env.validate_allowlist allowlist ≡ true
    pub is_client : resolve_github_client env.new_client credentials ≡ client http_client
    pub is_producer : env.new_producer a.kafka_brokers ≡ some producer
    pub is_wired : r ≡ wire env a interval allowlist http_client producer

  abbrev pub Listed : Running E → (E → Type 0)
  Listed r e = Lists (IsOwned a.owner) (r.watcher.github.list_repos r.watcher.owner e).0

  with_producer_running :
      (interval : ℤ) (l : List Text) (c : Client) (p : Option Producer) (r : Running E)
      → with_producer env a interval l c p ≡ running r
      → (q : Producer) × (p ≡ some q) × (r ≡ wire env a interval l c q)
  unfolding with_producer
  with_producer_running interval l c none r h = cc
  with_producer_running interval l c (some q) r h = (q, refl, cc)

  with_client_running :
      (interval : ℤ) (l : List Text) (made : Resolved Client) (r : Running E)
      → with_client env a interval l made ≡ running r
      → (c : Client) × (q : Producer) × (made ≡ client c)
        × (env.new_producer a.kafka_brokers ≡ some q)
        × (r ≡ wire env a interval l c q)
  unfolding with_client
  with_client_running interval l (client c) r h =
      let (q, made, wired) = with_producer_running interval l c _ r h in (c, q, refl, made, wired)
  with_client_running interval l (partial names) r h = cc
  with_client_running interval l not_configured r h = cc
  with_client_running interval l client_error r h = cc

  with_allowlist_running :
      (interval : ℤ) (l : List Text) (valid : Bool) (r : Running E)
      → with_allowlist env a interval l valid ≡ running r
      → (valid ≡ true)
        × ((c : Client) × (q : Producer) × (resolve_github_client env.new_client credentials
              ≡ client c)
            × (env.new_producer a.kafka_brokers ≡ some q)
            × (r ≡ wire env a interval l c q))
  unfolding with_allowlist
  with_allowlist_running interval l false r h = cc
  with_allowlist_running interval l true r h = (refl, with_client_running interval l _ r h)

  with_interval_running :
      (parsed : Option ℤ) (r : Running E)
      → with_interval env a parsed ≡ running r
      → (interval : ℤ) × (parsed ≡ some interval)
        × (with_allowlist env a interval allowlist (env.validate_allowlist allowlist) ≡ running r)
  unfolding with_interval
  with_interval_running none r h = cc
  with_interval_running (some interval) r h = (interval, refl, h)

  run_starts : (r : Running E) → run env a ≡ running r → StartsAs r
  unfolding run
  run_starts r h =
      let (interval, parsed, h₁) = with_interval_running _ r h in
      let (valid, (c, q, made, produced, wired)) =
        with_allowlist_running interval allowlist _ r h₁ in
      record {
        interval = interval;
        http_client = c;
        producer = q;
        is_interval = parsed;
        is_allowlist = valid;
        is_client = made;
        is_producer = produced;
        is_wired = wired;
      }

  -- With a duration, a valid allowlist, a client and a producer the service starts, wired from these.
  pub starts_run : (r : Running E) → StartsAs r → run env a ≡ running r
  unfolding run with_interval with_allowlist with_client with_producer
  starts_run r s =
      rw (s.is_interval)
        (rw (s.is_allowlist) (rw (s.is_client) (rw (s.is_producer) (ap running (sym s.is_wired)))))

  owned :
      (result : Result (List Repo)) (api : Api E) (ctx_done : E → Bool × E)
      → ListsOwned api ctx_done a.owner result
      → Lists (IsOwned a.owner) result
  owned (err e) api ctx_done h = tt
  owned (ok repos) api ctx_done h = h

  wired-Listed :
      (interval : ℤ) (c : Client) (q : Producer) (e : E)
      → Listed (wire env a interval allowlist c q) e
  unfolding wire create_watcher new_watcher new_github_client github_client
  wired-Listed interval c q e =
      let x = env.externals in
      let api : Api E = x.new_api (github_transport x.log x.default_transport (env.transport c)) in
      owned _ api x.ctx_done (list_repos-ListsOwned api x.ctx_done a.owner e)

  wire-IsWired :
      (interval : ℤ) (c : Client) (q : Producer)
      → IsWired (wire env a interval allowlist c q).watcher env.is_allowed allowlist
  unfolding wire create_watcher new_watcher
  wire-IsWired interval c q = refl

  -- The commands are authorised by the allowlist of the arguments, for repositories of their owner.
  abbrev pub SentOwn : Running E → World E → Type 0
  SentOwn r w =
      All (Authorised r.watcher env.is_allowed allowlist (IsOwned a.owner)) (commands w.events)

  -- A cycle of a started service keeps this.
  pub run-KeepsOwn :
      (r : Running E)
      → run env a ≡ running r
      → (force : Bool) (w : World E) → SentOwn r w
      → SentOwn r (poll r.watcher force w).1
  run-KeepsOwn r started =
      let s = run_starts r started in
      subst (λ x. (force : Bool) (w : World E) → SentOwn x w → SentOwn x (poll x.watcher force w).1)
        (sym s.is_wired)
        (let x : Running E = wire env a s.interval allowlist s.http_client s.producer in
          poll-Authorised x.watcher env.is_allowed allowlist (IsOwned a.owner)
            (wire-IsWired s.interval s.http_client s.producer)
            (wired-Listed s.interval s.http_client s.producer))
