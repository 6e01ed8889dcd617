-- ===== src/Task/Titles.antt =====
-- The titles of pkg/taskbuilder.go: `CreateCommand.Validate` rejects a slash, and the publish of a
-- rejected command fails.
use github_update_go_watcher.Candidate.{Candidate, short_sha}
use github_update_go_watcher.Common.{
  ℕ, zero, suc, ◌≢◌, inl, inr, refl, arith, Bool, true, false, [], ◌∷◌, ◌++◌, Text, bytes, take,
  length, ltb, All-append, Lacks, Member, if◌then◌else◌,
}
use github_update_go_watcher.Task.{
  CreateCommand, TaskConfig, build_create_command, build_decision_command,
  build_decision_frontmatter, build_frontmatter, compute_decision_task_title, compute_task_title,
}

abbrev slash : ℕ
slash = b'/'

-- The title has no slash and is not empty, and the frontmatter repeats the title and the identifier.
abbrev IsAccepted : CreateCommand → Type 0
IsAccepted cmd =
    Lacks slash cmd.title
    × (cmd.title ≢ [])
    × Member ("title", cmd.title) cmd.frontmatter
    × Member ("task_identifier", cmd.task_identifier) cmd.frontmatter

append-Lacks : (s t : Text) → Lacks slash s → Lacks slash t → Lacks slash (s ++ t)
append-Lacks s t = All-append (λ c. c ≢ slash) s t

take-Lacks : (n : ℕ) (s : Text) → Lacks slash s → Lacks slash (take n s)
take-Lacks zero s h = tt
take-Lacks (suc n) [] h = tt
take-Lacks (suc n) (c ∷ s) (hc, hs) = (hc, take-Lacks n s hs)

if-Lacks :
    (b : Bool) (s t : Text) → Lacks slash s → Lacks slash t → Lacks slash (if b then s else t)
if-Lacks true s t hs ht = hs
if-Lacks false s t hs ht = ht

short_sha-Lacks : (c : Candidate) → Lacks slash c.head_sha → Lacks slash (short_sha c)
unfolding short_sha
short_sha-Lacks c h = if-Lacks (ltb (length c.head_sha) 7) _ _ h (take-Lacks 7 c.head_sha h)

compute_task_title-Lacks :
    (c : Candidate)
    → Lacks slash c.repo.owner
    → Lacks slash c.repo.name
    → Lacks slash c.head_sha
    → Lacks slash (compute_task_title c)
unfolding compute_task_title
compute_task_title-Lacks c owner name sha = append-Lacks (bytes "Update Go ") _ (ground arith) (
    append-Lacks c.repo.owner _ owner (
      append-Lacks (bytes "-") _ (ground arith) (
        append-Lacks c.repo.name _ name
          (append-Lacks (bytes " ") _ (ground arith) (short_sha-Lacks c sha)))))

compute_decision_task_title-Lacks :
    (c : Candidate)
    → Lacks slash c.repo.owner
    → Lacks slash c.repo.name
    → Lacks slash (compute_decision_task_title c)
unfolding compute_decision_task_title
compute_decision_task_title-Lacks c owner name =
    append-Lacks (bytes "Go Update Decision ") _ (ground arith)
      (append-Lacks c.repo.owner _ owner (append-Lacks (bytes "-") _ (ground arith) name))

module _ (new_sha1 : Text → Text → Text) (cfg : TaskConfig) where
  -- Both commands for a candidate have a title that is not empty and has no slash, and repeat it and
  -- their identifier in the frontmatter, if neither the owner, the name nor the SHA has a slash.
  commands-IsAccepted :
      (c : Candidate)
      → Lacks slash c.repo.owner
      → Lacks slash c.repo.name
      → Lacks slash c.head_sha
      → IsAccepted (build_create_command new_sha1 c cfg)
        × IsAccepted (build_decision_command new_sha1 c cfg)
  unfolding build_create_command build_decision_command build_frontmatter build_decision_frontmatter
  commands-IsAccepted c owner name sha = (
    (
      compute_task_title-Lacks c owner name sha,
      unfold compute_task_title in λ e. cc,
      inr (inr (inr (inr (inr (inr (inl refl)))))),
      inr (inr (inr (inr (inr (inl refl))))),
    ),
    (
      compute_decision_task_title-Lacks c owner name,
      unfold compute_decision_task_title in λ e. cc,
      inr (inr (inr (inr (inr (inr (inl refl)))))),
      inr (inr (inr (inr (inr (inl refl))))),
    ),
  )
