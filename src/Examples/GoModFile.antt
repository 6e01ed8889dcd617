-- ===== src/Examples/GoModFile.antt =====
-- A go.mod file with a comment, a module line and an empty line in front of a `go` directive that a comment
-- follows.
use github_update_go_watcher.Common.{[], ◌∷◌, List, Text, bytes}

abbrev lines_before : List Text
lines_before = bytes "// pinned" ∷ bytes "module x" ∷ [] ∷ []

abbrev pinned_line : Text
pinned_line = bytes "go 1.27 // pinned"
