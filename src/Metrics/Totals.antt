-- ===== src/Metrics/Totals.antt =====
-- The sums of the counters of pkg/metrics.go over their labels, after a cycle.
use github_update_go_watcher.Common.{
  ℕ, suc, ◌+◌, Bool, List, [], ◌∷◌, ◌++◌, Text, text_dec, ◌==◌, ◌≡◌, ◌∙◌, inl, inr, refl, sym, ap,
  All-intro, if◌then◌else◌, length, arith, Result, ok, err,
}
use github_update_go_watcher.Cursor.{Cursor}
use github_update_go_watcher.Cursor.Store.{load_cursor}
use github_update_go_watcher.Metrics.{
  Operation, register, add, inc_poll_cycle, inc_published, inc_completed, inc_repos_scanned,
  inc_filter_skipped, operations, poll_cycle_total, published_total,
}
use github_update_go_watcher.Repo.{Repo}
use github_update_go_watcher.Version.{Version}
use github_update_go_watcher.Watcher.Commands.{commands, poll_chain}
use github_update_go_watcher.Watcher.Complete.{
  complete_repo, complete_entry, on_merged, complete_task, awaits_merge,
}
use github_update_go_watcher.Watcher.Gate.{gate_repo, suppress_in_flight}
use github_update_go_watcher.Watcher.Observe.{gather_candidate}
use github_update_go_watcher.Watcher.Process.{
  CycleFilter, process_repo, after_filter, after_gate, after_suppress, after_gather,
}
use github_update_go_watcher.Watcher.Publish.{
  publish_create, publish_decision, send, mark_published,
}
use github_update_go_watcher.Watcher.Walk.{Lists, Looks, poll-Inv}
use github_update_go_watcher.Watcher.Outcome.{outcomes, poll-outcomes}
use github_update_go_watcher.Watcher.Poll.{poll}
use github_update_go_watcher.Watcher.State.{
  World, Watcher, Event, poll_cycle, published, completed, repos_scanned, filter_skipped,
  command_sent, completion_sent,
}

-- The sum of the additions to a counter.
unfoldable pub total : Text → List Operation → ℕ
total name [] = 0
total name (register n labels ∷ ops) = total name ops
total name (add n labels k ∷ ops) = (if n == name then k else 0) + total name ops

-- The calls that the events are.
unfoldable pub all_operations : List Event → List Operation
all_operations [] = []
all_operations (e ∷ es) = operations e ++ all_operations es

total-append :
    (name : Text) (xs ys : List Operation) → total name (xs ++ ys) ≡ total name xs + total name ys
unfolding total
total-append name [] ys = omega arith
total-append name (register n labels ∷ xs) ys = total-append name xs ys
total-append name (add n labels k ∷ xs) ys = omega (arith, total-append name xs ys)

weight_of : (Event → ℕ) → List Event → ℕ
weight_of weight [] = 0
weight_of weight (e ∷ es) = weight e + weight_of weight es

total-weight_of :
    (name : Text) (weight : Event → ℕ)
    → ((e : Event) → total name (operations e) ≡ weight e)
    → (es : List Event) → total name (all_operations es) ≡ weight_of weight es
unfolding total all_operations weight_of
total-weight_of name weight weighs [] = refl
total-weight_of name weight weighs (e ∷ es) = omega (
  arith,
  total-append name (operations e) (all_operations es),
  weighs e,
  total-weight_of name weight weighs es,
)

-- A result of a cycle adds one to the counter of cycles, and nothing else does.
poll_weight : Event → ℕ
poll_weight (poll_cycle r) = 1
poll_weight _ = 0

total-poll_weight : (e : Event) → total poll_cycle_total (operations e) ≡ poll_weight e
unfolding total operations poll_weight inc_poll_cycle inc_published inc_completed inc_repos_scanned
    inc_filter_skipped text_dec
total-poll_weight (poll_cycle r) = refl
total-poll_weight (published s) = refl
total-poll_weight (completed s) = refl
total-poll_weight (repos_scanned n) = refl
total-poll_weight (filter_skipped reason) = refl
total-poll_weight (command_sent cmd sent) = refl
total-poll_weight (completion_sent id sent) = refl

poll_weight-outcomes : (es : List Event) → weight_of poll_weight es ≡ length (outcomes es)
unfolding weight_of poll_weight outcomes
poll_weight-outcomes [] = refl
poll_weight-outcomes (poll_cycle r ∷ es) = omega (arith, poll_weight-outcomes es)
poll_weight-outcomes (e ∷ es) = omega (arith, poll_weight-outcomes es)

total-outcomes :
    (es : List Event) → total poll_cycle_total (all_operations es) ≡ length (outcomes es)
total-outcomes es =
    total-weight_of poll_cycle_total poll_weight total-poll_weight es ∙ poll_weight-outcomes es

-- The status of a publish adds one to the counter of publishes, and nothing else does.
publish_weight : Event → ℕ
publish_weight (published s) = 1
publish_weight _ = 0

total-publish_weight : (e : Event) → total published_total (operations e) ≡ publish_weight e
unfolding total operations publish_weight inc_poll_cycle inc_published inc_completed
    inc_repos_scanned inc_filter_skipped text_dec
total-publish_weight (poll_cycle r) = refl
total-publish_weight (published s) = refl
total-publish_weight (completed s) = refl
total-publish_weight (repos_scanned n) = refl
total-publish_weight (filter_skipped reason) = refl
total-publish_weight (command_sent cmd sent) = refl
total-publish_weight (completion_sent id sent) = refl

-- The statuses counted are as many as the commands sent.
abbrev Balanced : List Event → Type 0
Balanced es = weight_of publish_weight es ≡ length (commands es)

module _ {E : Type 0} (d : Watcher E) where
  process_repo-Balanced :
      (chain : CycleFilter) (latest : Version) (repo : Repo) (w : World E)
      → Balanced w.events
      → Balanced (process_repo d chain latest repo w).1.events
  unfolding process_repo after_gather after_gate after_suppress after_filter gather_candidate
      gate_repo suppress_in_flight publish_create publish_decision send mark_published commands
      weight_of publish_weight
  process_repo-Balanced chain latest repo w h = ground arith

  complete_repo-Balanced :
      (repo : Repo) (w : World E) → Balanced w.events → Balanced (complete_repo d repo w).1.events
  unfolding complete_repo complete_entry on_merged complete_task awaits_merge commands weight_of
      publish_weight
  complete_repo-Balanced repo w h = ground arith

  poll-Balanced :
      (force : Bool) (w : World E) → Balanced w.events → Balanced (poll d force w).1.events
  unfolding commands weight_of publish_weight
  poll-Balanced force w h =
      poll-Inv d (λ r. Unit {0}) (λ v. Unit {0}) Balanced force
        (record {
          by_process =
              λ latest repo v _ _ k. process_repo-Balanced (poll_chain d force) latest repo v k;
          by_complete = complete_repo-Balanced;
          by_result = λ r es k. omega (arith, k);
          by_scan = λ n es k. omega (arith, k);
        })
        (λ e. unknown _) (λ e. unlooked _) w h
    where
      unlooked : (found : Result Version) → Looks (λ v. Unit {0}) found
      unlooked (err e) = tt
      unlooked (ok v) = tt

      unknown : (repos : Result (List Repo)) → Lists (λ r. Unit {0}) repos
      unknown (err e) = tt
      unknown (ok repos) = All-intro _ (λ r. tt) repos

  -- If a cycle starts where the sum of the publish counter over its labels is the number of create
  -- commands sent, then it ends so.
  pub poll-total_published :
      (force : Bool) (w : World E)
      → total published_total (all_operations w.events) ≡ length (commands w.events)
      → total published_total (all_operations (poll d force w).1.events)
        ≡ length (commands (poll d force w).1.events)
  poll-total_published force w h =
      weighs (poll d force w).1.events ∙ poll-Balanced force w (sym (weighs w.events) ∙ h)
    where
      weighs :
          (es : List Event)
          → total published_total (all_operations es) ≡ weight_of publish_weight es
      weighs = total-weight_of published_total publish_weight total-publish_weight

  -- A cycle that loads its cursor adds exactly one to the sum of the counter of cycles over its
  -- labels.
  poll-total_cycles :
      (force : Bool) (w : World E) (c : Cursor)
      → (load_cursor d.files d.codec d.cursor_path w.env).0 ≡ ok c
      → total poll_cycle_total (all_operations (poll d force w).1.events)
        ≡ suc (total poll_cycle_total (all_operations w.events))
  unfolding outcomes
  poll-total_cycles force w c loaded = elim (poll-outcomes d force w) [
    | inl (e, unreadable, failure, same) ↦ absurd cc
    | inr (c', readable, fine, r, added) ↦
        total-outcomes (poll d force w).1.events
        ∙ (ap length added ∙ ap suc (sym (total-outcomes w.events)))
  ]
