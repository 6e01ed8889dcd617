-- ===== src/GoMod.antt =====
-- pkg/gomod.go: the `go` directive of a go.mod file, with what it uses of Go's library:
-- `bufio.Scanner` by lines with its limit, `strings.TrimSpace` and `strings.Fields`.
pub mod Words
pub mod Lines
pub mod Directive
use github_update_go_watcher.Common.{
  ℕ, ◌-◌, ◌*◌, ◌&&◌, ◌||◌, List, [], ◌∷◌, ◌++◌, Option, none, some, Text, Result, ok, err, failed,
  bytes, ◌==◌, ◌=?◌, leb, length, has_prefix, if◌then◌else◌, zero, suc,
}
use github_update_go_watcher.Strings.{trim_space, fields}
use github_update_go_watcher.Version.{Version, parse_go_directive}

-- `scanner.Buffer(buf, 1024*1024)`: a line of this many bytes is too long.
abbrev pub max_line : ℕ
max_line = 1024 * 1024

abbrev pub newline : ℕ
newline = b'\n'

-- `bufio.ScanLines`: the lines between newlines; text behind the last newline is a line unless it is
-- empty.
unfoldable pub split_lines : Text → Text → List Text
split_lines [] [] = []
split_lines (c ∷ cur) [] = (c ∷ cur) ∷ []
split_lines cur (c ∷ s) =
    let cut = cur ∷ split_lines [] s in
    let more = split_lines (cur ++ c ∷ []) s in if c =? newline then cut else more

-- One carriage return at the end of a line is dropped.
unfoldable pub drop_cr : Text → Text
drop_cr [] = []
drop_cr (c ∷ []) = if c =? b'\r' then [] else c ∷ []
drop_cr (c ∷ d ∷ s) = c ∷ drop_cr (d ∷ s)

-- The value of a `go` directive, if the fields of a line are one.
unfoldable pub directive_value : List Text → Option Text
directive_value (word ∷ val ∷ more) = if word == bytes "go" then some val else none
directive_value _ = none

-- One round of the loop: the directive's value if the line is the directive.
unfoldable pub line_directive : Text → Option Text
line_directive raw =
    let line = trim_space (drop_cr raw) in
    if line == []
    then none
    else if has_prefix line (bytes "//")
    then none
    else directive_value (fields line)

-- The first directive decides; the scan goes on behind any other line.
unfoldable pub after_line : Option Text → Result Version → Result Version
after_line (some val) rest = parse_go_directive val
after_line none rest = rest

-- The loop over the lines. A line that is too long ends the scan with an error.
unfoldable pub scan_lines : List Text → Result Version
scan_lines [] = err failed
scan_lines (line ∷ more) =
    if leb max_line (length line)
    then err failed
    else after_line (line_directive line) (scan_lines more)

unfoldable pub parse_go_mod_version : Text → Result Version
parse_go_mod_version content = scan_lines (split_lines [] content)

pub parse_go_mod_version_default : Text → Version → Version
parse_go_mod_version_default content d = elim (parse_go_mod_version content) [
  | ok v ↦ v
  | err e ↦ d
]
