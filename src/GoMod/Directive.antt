-- ===== src/GoMod/Directive.antt =====
-- `ParseGoModVersion` of pkg/gomod.go: the first `go` directive decides.
use github_update_go_watcher.Common.{◌<◌, List, [], ◌∷◌, ◌++◌, Text, length}
use github_update_go_watcher.GoMod.{max_line, newline}
use github_update_go_watcher.GoMod.Lines.{Passes}

-- A line that the scan passes over.
abbrev pub IsPlain : Text → Type 0
IsPlain line = Passes line × (length line < max_line)

-- The lines, each with its newline, in front of a text.
abbrev pub unlines : List Text → Text → Text
unlines [] text = text
unlines (line ∷ lines) text = line ++ newline ∷ unlines lines text
