-- ===== src/Examples/Parts.antt =====
-- The smaller parts on concrete inputs.
use github_update_go_watcher.Candidate.{filter_candidate}
use github_update_go_watcher.Common.{
  Member, true, false, List, [], ◌∷◌, none, ◌≡◌, ◌⊎◌, ◌↔◌, refl, arith, bytes, All, ok, err, failed,
}
use github_update_go_watcher.CycleGate.{try_acquire}
use github_update_go_watcher.CycleGate.Exclusion.{
  IsGuarded, Reach, Reach-IsGuarded, System, begin, back_off, here, interval, next, request,
}
use github_update_go_watcher.Examples.Samples.{allow_all, head, tool_candidate}
use github_update_go_watcher.Filter.Chain.{NeedsUpdate, static, static_pass_iff}
use github_update_go_watcher.Filter.Maintainer.{granted}
use github_update_go_watcher.GoDev.{GoDevRelease, stable_of}
use github_update_go_watcher.GoDev.Maximum.{candidates, stable_of_maximum}
use github_update_go_watcher.Task.Identity.{task_seed_injective}
use github_update_go_watcher.Version.{Version, less}

abbrev releases : List GoDevRelease
releases =
    record { version = bytes "go1.28rc1"; stable = false }
    ∷ record { version = bytes "go1.27.2"; stable = true }
    ∷ record { version = bytes "go1.26.5"; stable = true }
    ∷ []

stable_of_maximum_example :
    ((candidates releases ≡ []) × (stable_of releases ≡ err failed))
    ⊎ ((v : Version) × (stable_of releases ≡ ok v)
        × Member v (candidates releases)
        × All (λ w. less v w ≡ false) (candidates releases))
stable_of_maximum_example = stable_of_maximum releases

static_pass_iff_example : (static allow_all [] (filter_candidate tool_candidate) ≡ none) ↔ (
    NeedsUpdate allow_all [] (filter_candidate tool_candidate)
    × ((filter_candidate tool_candidate).consent ≡ granted))
static_pass_iff_example = static_pass_iff allow_all [] (filter_candidate tool_candidate)

-- The interval loop begins, and a request backs off.
abbrev busy : System
busy = record { gate = record { full = true }; running = interval ∷ [] }

busy-Reach : Reach busy
unfolding try_acquire
busy-Reach =
    next (next here (begin interval (record { full = true }) refl))
      (back_off (request 1) (record { full = true }) refl)

Reach-IsGuarded_example : IsGuarded busy
Reach-IsGuarded_example = Reach-IsGuarded busy-Reach

task_seed_injective_example :
    (bytes "tool" ≡ bytes "tool") × (bytes "1.27.2" ≡ bytes "1.27.2") × (head ≡ head)
task_seed_injective_example =
    task_seed_injective (bytes "bborbe") (bytes "tool") (bytes "1.27.2") head (bytes "tool")
      (bytes "1.27.2") head (omega arith) (omega arith) (omega arith) (omega arith) refl
