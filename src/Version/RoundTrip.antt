-- ===== src/Version/RoundTrip.antt =====
-- What pkg/version.go prints it reads back, and what it reads fits in an `int`.
use github_update_go_watcher.Common.{[], ◌∷◌, some, ◌≡◌, ◌≢◌, refl, Text, ok}
use github_update_go_watcher.Version.Decimal.{itoa, atoi, atoi-itoa, itoa-Spells}
use github_update_go_watcher.Version.Order.{IsBounded}
use github_update_go_watcher.Version.Pattern.{
  Spelling, patch_suffix_filled, directive_groups_complete,
}
use github_update_go_watcher.Version.{
  Version, number, string, parse_go_release, parse_go_directive, parse_version, parse_groups,
  atoi_patch, release_groups,
}

number-Spelling : (v : Version) → Spelling (number v) (itoa v.major) (itoa v.minor) (itoa v.patch)
unfolding number
number-Spelling v =
    let (major_digits, _, major_filled) = itoa-Spells v.major in
    let (minor_digits, _, minor_filled) = itoa-Spells v.minor in
    let (patch_digits, _, patch_filled) = itoa-Spells v.patch in
    record {
      whole = rw (patch_suffix_filled (itoa v.patch) patch_filled) refl;
      major_digits = major_digits;
      major_filled = major_filled;
      minor_digits = minor_digits;
      minor_filled = minor_filled;
      patch_digits = patch_digits;
    }

atoi_patch_filled : (s : Text) → s ≢ [] → atoi_patch s ≡ atoi s
unfolding atoi_patch
atoi_patch_filled [] filled = absurd (filled refl)
atoi_patch_filled (c ∷ s) filled = refl

parse_version-number :
    (v : Version) (s : Text)
    → IsBounded v
    → parse_version (some (itoa v.major, itoa v.minor, itoa v.patch)) s ≡ ok (record v { raw = s })
unfolding parse_version parse_groups
parse_version-number v s h = rw (atoi_patch_filled (itoa v.patch) (itoa-Spells v.patch).2) (
    rw
      (
        atoi-itoa v.major h.major_fits,
        atoi-itoa v.minor h.minor_fits,
        atoi-itoa v.patch h.patch_fits,
      )
      refl)

-- A bounded version is read back from its number, with this text as its raw form.
pub parse_go_directive-number :
    (v : Version) → IsBounded v → parse_go_directive (number v) ≡ ok (record v { raw = number v })
unfolding parse_go_directive
parse_go_directive-number v h =
    rw (directive_groups_complete (number-Spelling v)) (parse_version-number v (number v) h)

-- A bounded version is read back from its string form, with this text as its raw form.
pub parse_go_release-string :
    (v : Version) → IsBounded v → parse_go_release (string v) ≡ ok (record v { raw = string v })
unfolding parse_go_release string release_groups
parse_go_release-string v h =
    rw (directive_groups_complete (number-Spelling v)) (parse_version-number v _ h)
