-- ===== src/Task.antt =====
-- pkg/taskid.go and pkg/taskbuilder.go: the identity and the content of the tasks that are filed.
-- `uuid.NewSHA1`, printed by `String`, is the section's parameter `new_sha1`; its arguments are the
-- namespace and the name.
pub mod Identity
pub mod Titles
use github_update_go_watcher.Candidate.{Candidate, short_sha}
use github_update_go_watcher.Common.{
  Bool, List, [], ◌∷◌, ◌++◌, Text, String, bytes, ◌==◌, if◌then◌else◌,
}
use github_update_go_watcher.Repo
use github_update_go_watcher.Version.{number}

-- `taskIDNamespace`
abbrev pub task_id_namespace : Text
task_id_namespace = bytes "8a9e45ee-da1f-4939-a3b5-11201f600a1a"

-- `decisionTaskIDNamespace`
abbrev pub decision_task_id_namespace : Text
decision_task_id_namespace = bytes "8a96832c-8007-4d9a-922c-d9cdbdfeca89"

-- The seed of `DeriveTaskID`.
unfoldable pub task_seed : Text → Text → Text → Text → Text
task_seed owner repo go_version head_sha =
    bytes "update-go-"
    ++ (owner ++ (bytes "-" ++ (repo ++ (bytes "-" ++ (go_version ++ (bytes "-" ++ head_sha))))))

-- The seed of `DeriveDecisionTaskID`.
unfoldable pub decision_seed : Text → Text → Text
decision_seed owner repo = bytes "update-go-decision-" ++ (owner ++ (bytes "-" ++ repo))

pub record TaskConfig : Type 0 where
  pub stage : Text
  pub update_scope : Text

abbrev pub Frontmatter : Type 0
Frontmatter = List (String × Text)

-- `task.CreateCommand`
pub record CreateCommand : Type 0 where
  pub title : Text
  pub task_identifier : Text
  pub frontmatter : Frontmatter
  pub body : Text

unfoldable pub compute_task_title : Candidate → Text
compute_task_title c =
    bytes "Update Go "
    ++ (c.repo.owner ++ (bytes "-" ++ (c.repo.name ++ (bytes " " ++ short_sha c))))

unfoldable pub compute_decision_task_title : Candidate → Text
compute_decision_task_title c =
    bytes "Go Update Decision " ++ (c.repo.owner ++ (bytes "-" ++ c.repo.name))

unfoldable pub build_frontmatter : Candidate → Text → TaskConfig → Frontmatter
build_frontmatter c task_id cfg =
    ("task_type", bytes "github-update-go")
    ∷ ("assignee", bytes "github-update-go-agent")
    ∷ ("phase", bytes "planning")
    ∷ ("status", bytes "in_progress")
    ∷ ("stage", cfg.stage)
    ∷ ("task_identifier", task_id)
    ∷ ("title", compute_task_title c)
    ∷ ("repo", Repo.string c.repo)
    ∷ (
      "clone_url",
      bytes "git@github.com:" ++ (c.repo.owner ++ (bytes "/" ++ (c.repo.name ++ bytes ".git"))),
    )
    ∷ ("ref", c.head_sha)
    ∷ ("current_go", number c.current_go)
    ∷ ("latest_go", number c.latest_go)
    ∷ (if cfg.update_scope == [] then [] else ("update_scope", cfg.update_scope) ∷ [])

-- "[<owner>/<name>](https://github.com/<owner>/<name>)\n"
repo_link : Text → Text → Text
repo_link owner name =
    bytes "["
    ++ (owner
        ++ (bytes "/"
            ++ (name
                ++ (bytes "](https://github.com/"
                    ++ (owner ++ (bytes "/" ++ (name ++ bytes ")\n")))))))

unfoldable pub build_task_body : Candidate → Text
unfolding repo_link
build_task_body c =
    bytes "# Update Go: "
    ++ (c.repo.owner
        ++ (bytes "/"
            ++ (c.repo.name
                ++ (bytes "\n\n**Current Go:** "
                    ++ (number c.current_go
                        ++ (bytes "  ·  **Latest Go:** "
                            ++ (number c.latest_go
                                ++ (bytes "\n**HEAD:** "
                                    ++ (short_sha c
                                        ++ (bytes "\n**Repo:** "
                                            ++ repo_link c.repo.owner c.repo.name))))))))))

unfoldable pub build_decision_frontmatter : Candidate → Text → TaskConfig → Frontmatter
build_decision_frontmatter c task_id cfg =
    ("task_type", bytes "github-update-go-decision")
    ∷ ("assignee", bytes "bborbe")
    ∷ ("phase", bytes "planning")
    ∷ ("status", bytes "in_progress")
    ∷ ("stage", cfg.stage)
    ∷ ("task_identifier", task_id)
    ∷ ("title", compute_decision_task_title c)
    ∷ ("repo", Repo.string c.repo)
    ∷ ("current_go", number c.current_go)
    ∷ ("latest_go", number c.latest_go)
    ∷ []

unfoldable pub build_decision_task_body : Candidate → Text
unfolding repo_link
build_decision_task_body c =
    bytes "# Go Update Decision Needed: "
    ++ (c.repo.owner
        ++ (bytes "/"
            ++ (c.repo.name
                ++ (bytes
                      "\n\nThis repo's declared Go version is behind the latest stable release, and nobody has recorded whether it should be updated automatically.\n\n**Current Go:** "
                    ++ (number c.current_go
                        ++ (bytes "  ·  **Latest Go:** "
                            ++ (number c.latest_go
                                ++ (bytes "\n**Repo:** "
                                    ++ (repo_link c.repo.owner c.repo.name
                                        ++ bytes
                                            "\nAdd one of the following to `.maintainer.yaml` to answer:\n\n```yaml\ngoUpdate:\n  autoUpdate: true   # opt in — this repo starts receiving automatic Go bump PRs\n```\n\nor\n\n```yaml\ngoUpdate:\n  autoUpdate: false  # opt out — this repo stays silent going forward\n```\n\nEither answer makes this repo silent again; only an unanswered decision re-files this task on the next scan.\n")))))))))

module _ (new_sha1 : Text → Text → Text) where
  unfoldable pub derive_task_id : Text → Text → Text → Text → Text
  derive_task_id owner repo go_version head_sha =
      new_sha1 task_id_namespace (task_seed owner repo go_version head_sha)

  unfoldable pub derive_decision_task_id : Text → Text → Text
  derive_decision_task_id owner repo =
      new_sha1 decision_task_id_namespace (decision_seed owner repo)

  unfoldable pub build_create_command : Candidate → TaskConfig → CreateCommand
  build_create_command c cfg =
      let id = derive_task_id c.repo.owner c.repo.name (number c.latest_go) c.head_sha in
      record {
        title = compute_task_title c;
        task_identifier = id;
        frontmatter = build_frontmatter c id cfg;
        body = build_task_body c;
      }

  unfoldable pub build_decision_command : Candidate → TaskConfig → CreateCommand
  build_decision_command c cfg =
      let id = derive_decision_task_id c.repo.owner c.repo.name in
      record {
        title = compute_decision_task_title c;
        task_identifier = id;
        frontmatter = build_decision_frontmatter c id cfg;
        body = build_decision_task_body c;
      }
