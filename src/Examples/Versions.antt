-- ===== src/Examples/Versions.antt =====
-- pkg/version.go and pkg/gomod.go on concrete texts.
use github_update_go_watcher.Common.{
  [], some, ◌≡◌, ◌↔◌, refl, arith, Text, bytes, ok, err, failed, text_dec,
}
use github_update_go_watcher.Examples.Samples.{go_1_27_2, go_1_26_0}
use github_update_go_watcher.GoMod.{
  parse_go_mod_version, after_line, scan_lines, split_lines, line_directive, drop_cr,
  directive_value,
}
use github_update_go_watcher.Strings.{
  trim_space, trim_left, trim_right, fields, fields_from, space_width,
}
use github_update_go_watcher.Version.{
  Version, directive_groups, number, parse_go_directive, parse_go_release, parse_groups,
  parse_version, patch_group, release_groups, at_end, atoi_patch,
}
use github_update_go_watcher.Version.Decimal.{itoa, atoi, digits1}
use github_update_go_watcher.Version.Order.{IsBounded}
use github_update_go_watcher.Version.Pattern.{Spelling, directive_groups_iff}
use github_update_go_watcher.Version.RoundTrip.{parse_go_directive-number}
use github_update_go_watcher.Version.Sound.{Reads, parse_go_directive_sound}

-- Reads a directive: names what it computes with.
ReadsAs : Text → Version → Type 0
unfolding parse_go_directive directive_groups parse_version parse_groups patch_group at_end
    atoi_patch atoi digits1
ReadsAs s v = parse_go_directive s ≡ ok v

two_parts : parse_go_directive (bytes "1.26") ≡ ok go_1_26_0
unfolding ReadsAs
two_parts = refl

number_two_parts : number go_1_26_0 ≡ bytes "1.26.0"
unfolding number itoa
number_two_parts = refl

release_candidate : parse_go_release (bytes "go1.28rc1") ≡ err failed
unfolding parse_go_release release_groups ReadsAs
release_candidate = refl

go_mod_file :
    parse_go_mod_version (bytes "module x\n\n// go 1.2\ngo 1.26 // pinned\r\n") ≡ ok go_1_26_0
unfolding parse_go_mod_version after_line scan_lines split_lines line_directive drop_cr trim_space
    trim_left trim_right fields fields_from space_width directive_value ReadsAs text_dec
go_mod_file = refl

go_1_27_2-IsBounded : IsBounded go_1_27_2
go_1_27_2-IsBounded = omega arith

parse_go_directive-number_example :
    parse_go_directive (number go_1_27_2) ≡ ok (record go_1_27_2 { raw = number go_1_27_2 })
parse_go_directive-number_example = parse_go_directive-number go_1_27_2 go_1_27_2-IsBounded

parse_go_directive_sound_example :
    (a b c : Text) × Spelling (bytes "1.26") a b c × Reads (bytes "1.26") a b c go_1_26_0
parse_go_directive_sound_example = parse_go_directive_sound (bytes "1.26") two_parts

directive_groups_iff_example :
    (directive_groups (bytes "1.26") ≡ some (bytes "1", bytes "26", []))
    ↔ Spelling (bytes "1.26") (bytes "1") (bytes "26") []
directive_groups_iff_example = directive_groups_iff (bytes "1.26") (bytes "1") (bytes "26") []
