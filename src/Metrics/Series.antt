-- ===== src/Metrics/Series.antt =====
-- The series of pkg/metrics.go: NewMetrics has created each that a cycle adds to.
use github_update_go_watcher.Common.{
  List, [], ◌∷◌, ◌++◌, Text, inl, inr, refl, ap, All, Member, Member-append_left,
  Member-append_right,
}
use github_update_go_watcher.Filter.{
  SkipReason, scope, no_gomod, gomod_unparsable, go_current, auto_update_disabled,
  auto_update_undecided, sha_unchanged, open_update_pr, emission_in_flight,
}
use github_update_go_watcher.Metrics.{
  Operation, register, add, initialise, new_metrics, poll_label, publish_label, complete_label,
  skip_label, inc_poll_cycle, inc_published, inc_completed, inc_repos_scanned, inc_filter_skipped,
  operations, poll_cycle_results, publish_statuses, complete_statuses, filter_skip_reasons,
  poll_cycle_total, published_total, completed_total, filter_skipped_total,
}
use github_update_go_watcher.Watcher.State.{
  PollResult, success, rate_limited, github_error, go_version_error, PublishStatus, create,
  CompleteStatus, complete, Event, poll_cycle, published, completed, repos_scanned, filter_skipped,
  command_sent, completion_sent,
}

initialise-Member :
    (name label : Text) (labels : List Text)
    → Member label labels
    → Member (add name (label ∷ []) 0) (initialise name labels)
unfolding initialise
initialise-Member name label [] h = elim h [ ]
initialise-Member name label (l ∷ labels) (inl here) = inl (ap (λ x. add name (x ∷ []) 0) here)
initialise-Member name label (l ∷ labels) (inr there) =
    inr (initialise-Member name label labels there)

poll_label-Member : (x : PollResult) → Member (poll_label x) poll_cycle_results
unfolding poll_label
poll_label-Member success = inl refl
poll_label-Member rate_limited = inr (inl refl)
poll_label-Member github_error = inr (inr (inl refl))
poll_label-Member go_version_error = inr (inr (inr (inl refl)))

publish_label-Member : (x : PublishStatus) → Member (publish_label x) publish_statuses
unfolding publish_label
publish_label-Member create = inl refl
publish_label-Member PublishStatus.error = inr (inl refl)

complete_label-Member : (x : CompleteStatus) → Member (complete_label x) complete_statuses
unfolding complete_label
complete_label-Member complete = inl refl
complete_label-Member CompleteStatus.error = inr (inl refl)

skip_label-Member : (x : SkipReason) → Member (skip_label x) filter_skip_reasons
unfolding skip_label
skip_label-Member scope = inl refl
skip_label-Member no_gomod = inr (inl refl)
skip_label-Member gomod_unparsable = inr (inr (inl refl))
skip_label-Member go_current = inr (inr (inr (inl refl)))
skip_label-Member auto_update_disabled = inr (inr (inr (inr (inl refl))))
skip_label-Member auto_update_undecided = inr (inr (inr (inr (inr (inl refl)))))
skip_label-Member sha_unchanged = inr (inr (inr (inr (inr (inr (inl refl))))))
skip_label-Member open_update_pr = inr (inr (inr (inr (inr (inr (inr (inl refl)))))))
skip_label-Member emission_in_flight = inr (inr (inr (inr (inr (inr (inr (inr (inl refl))))))))

-- The additions of the four loops.
abbrev polls : List Operation
polls = initialise poll_cycle_total poll_cycle_results

abbrev publishes : List Operation
publishes = initialise published_total publish_statuses

abbrev completes : List Operation
completes = initialise completed_total complete_statuses

abbrev skips : List Operation
skips = initialise filter_skipped_total filter_skip_reasons

in_loops :
    (op : Operation)
    → Member op (polls ++ (publishes ++ (completes ++ skips)))
    → Member op new_metrics
unfolding new_metrics
in_loops op h = inr (inr (inr (inr (inr h))))

-- The addition is to a series that was set to 0, or to the only one of a counter with no label.
abbrev pub IsPreset : Operation → Type 0
IsPreset (register name labels) = ⊥
IsPreset (add name [] n) = Member (register name []) new_metrics
IsPreset (add name (label ∷ labels) n) = Member (add name (label ∷ labels) 0) new_metrics

-- Whatever a cycle counts, the series is one that `NewMetrics` has created.
pub operations-IsPreset : (e : Event) → All IsPreset (operations e)
unfolding operations new_metrics inc_poll_cycle inc_published inc_completed inc_repos_scanned
    inc_filter_skipped
operations-IsPreset (poll_cycle r) =
    (in_loops _ (Member-append_left _ polls _ (initialise-Member _ _ _ (poll_label-Member r))), tt)
operations-IsPreset (published s) = (
  in_loops _ (
      Member-append_right _ polls _
        (Member-append_left _ publishes _ (initialise-Member _ _ _ (publish_label-Member s)))),
  tt,
)
operations-IsPreset (completed s) = (
  in_loops _ (
      Member-append_right _ polls _ (
        Member-append_right _ publishes _
          (Member-append_left _ completes _ (initialise-Member _ _ _ (complete_label-Member s))))),
  tt,
)
operations-IsPreset (repos_scanned n) = (inr (inr (inr (inl refl))), tt)
operations-IsPreset (filter_skipped reason) = (
  in_loops _ (
      Member-append_right _ polls _ (
        Member-append_right _ publishes _ (
          Member-append_right _ completes _ (initialise-Member _ _ _ (skip_label-Member reason))))),
  tt,
)
operations-IsPreset (command_sent cmd sent) = tt
operations-IsPreset (completion_sent id sent) = tt
