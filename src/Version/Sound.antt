-- ===== src/Version/Sound.antt =====
-- What pkg/version.go reads is what the text spells, and it fits in an `int`.
use mathlib.Core.Option.{some-injective}
use mathlib.Core.Path.{subst}
use github_update_go_watcher.Common.{
  ℕ, ◌≤◌, [], ◌∷◌, ◌++◌, Option, none, some, ◌≡◌, refl, arith, Text, bytes, ok, strip_prefix,
  strip_prefix_sound, >>=-eq-some,
}
use github_update_go_watcher.Version.Decimal.{atoi, value, max_int}
use github_update_go_watcher.Version.Order.{IsBounded}
use github_update_go_watcher.Version.Pattern.{Spelling, directive_groups_iff}
use github_update_go_watcher.Version.{
  Version, parse_go_release, parse_go_directive, parse_version, parse_groups, atoi_patch,
  release_groups, directive_groups, or_failed,
}

atoi_sound : (s : Text) {n : ℕ} → atoi s ≡ some n → (n ≡ value 0 s) × (n ≤ max_int)
unfolding atoi
atoi_sound [] h = cc
atoi_sound (c ∷ s) h = ground arith

atoi_patch_sound : (s : Text) {n : ℕ} → atoi_patch s ≡ some n → (n ≡ value 0 s) × (n ≤ max_int)
unfolding atoi_patch
atoi_patch_sound [] h = ground arith
atoi_patch_sound (c ∷ s) h = atoi_sound (c ∷ s) h

-- The version is what the groups `a`, `b` and `c` of the text spell.
pub record Reads (s a b c : Text) (v : Version) : Type 0 where
  pub major_value : v.major ≡ value 0 a
  pub minor_value : v.minor ≡ value 0 b
  pub patch_value : v.patch ≡ value 0 c
  pub raw_text : v.raw ≡ s
  pub bounded : IsBounded v

parse_groups_sound :
    (s a b c : Text) {v : Version} → parse_groups s (a, b, c) ≡ some v → Reads s a b c v
unfolding parse_groups
parse_groups_sound s a b c {v} h =
    let (major, e1, h1) = >>=-eq-some (atoi a) _ h in
    let (minor, e2, h2) = >>=-eq-some (atoi b) _ h1 in
    let (patch, e3, h3) = >>=-eq-some (atoi_patch c) _ h2 in
    let (major_value, major_fits) = atoi_sound a e1 in
    let (minor_value, minor_fits) = atoi_sound b e2 in
    let (patch_value, patch_fits) = atoi_patch_sound c e3 in
    let read : Version = record { major = major; minor = minor; patch = patch; raw = s } in
    let found : Reads s a b c read = record {
      major_value = major_value;
      minor_value = minor_value;
      patch_value = patch_value;
      raw_text = refl;
      bounded = record {
        major_fits = major_fits;
        minor_fits = minor_fits;
        patch_fits = patch_fits;
      };
    } in
    subst (Reads s a b c) (some-injective _ _ h3) found

or_failed-ok {ℓ} : {A : Type ℓ} (o : Option A) {a : A} → or_failed o ≡ ok a → o ≡ some a
or_failed-ok none h = cc
or_failed-ok (some a) h = cc

parse_version_sound :
    (groups : Option (Text × Text × Text)) (s : Text) {v : Version}
    → parse_version groups s ≡ ok v
    → (a b c : Text) × (groups ≡ some (a, b, c)) × Reads s a b c v
unfolding parse_version
parse_version_sound groups s h =
    let (g, e, parsed) = >>=-eq-some groups (parse_groups s) (or_failed-ok _ h) in
    (g.0, g.1, g.2, e, parse_groups_sound s g.0 g.1 g.2 parsed)

-- A directive that is read spells a version: digits, a dot and digits, perhaps with a dot and digits
-- behind. The fields are the numbers that these digits spell, 0 for a missing patch; they fit in an
-- `int`, and the raw form is the text.
pub parse_go_directive_sound :
    (s : Text) {v : Version}
    → parse_go_directive s ≡ ok v
    → (a b c : Text) × Spelling s a b c × Reads s a b c v
unfolding parse_go_directive
parse_go_directive_sound s h =
    let (a, b, c, found, reads) = parse_version_sound (directive_groups s) s h in
    (a, b, c, (directive_groups_iff s a b c).0 found, reads)

-- The same of a release, behind its "go".
pub parse_go_release_sound :
    (s : Text) {v : Version}
    → parse_go_release s ≡ ok v
    → (rest a b c : Text) × (s ≡ bytes "go" ++ rest) × Spelling rest a b c × Reads s a b c v
unfolding parse_go_release release_groups
parse_go_release_sound s h =
    let (a, b, c, found, reads) = parse_version_sound _ s h in
    let (rest, cut, groups) = >>=-eq-some (strip_prefix (bytes "go") s) directive_groups found in
    (
      rest,
      a,
      b,
      c,
      strip_prefix_sound (bytes "go") s cut,
      (directive_groups_iff rest a b c).0 groups,
      reads,
    )
