-- ===== src/Version.antt =====
-- pkg/version.go: Go versions, the two patterns that they are read by, and their order.
-- An `int` field is a natural number, since the parser is the only source of versions and captures
-- digits only; `parse_version` refuses what exceeds `max_int`, as `strconv.Atoi` does.
pub mod Decimal
pub mod Pattern
pub mod Order
pub mod RoundTrip
pub mod Sound
use github_update_go_watcher.Common.{
  ℕ, Bool, [], ◌∷◌, ◌++◌, Option, none, some, Text, Result, ok, err, failed, bytes, strip_prefix,
  ◌>>=◌, if◌then◌else◌, ℤ, sub_ℕ, is_neg, is_nonzero,
}
use github_update_go_watcher.Version.Decimal.{itoa, atoi, digits1}

pub record Version : Type 0 where
  pub major : ℕ
  pub minor : ℕ
  pub patch : ℕ
  pub raw : Text

-- `Version{}`
abbrev pub zero_version : Version
zero_version = record { major = 0; minor = 0; patch = 0; raw = [] }

-- `$`: nothing is left.
unfoldable pub at_end : Text × Text → Option Text
at_end (s, []) = some s
at_end (s, _ ∷ _) = none

-- `(?:\.(\d+))?$`: the patch group, empty where the text ends before it.
unfoldable pub patch_group : Text → Option Text
patch_group [] = some []
patch_group (c ∷ s) = do r ← strip_prefix (bytes ".") (c ∷ s); run ← digits1 r; at_end run

-- `^(\d+)\.(\d+)(?:\.(\d+))?$`: the three groups.
unfoldable pub directive_groups : Text → Option (Text × Text × Text)
directive_groups s = do
  (major, r) ← digits1 s
  r' ← strip_prefix (bytes ".") r
  (minor, r'') ← digits1 r'
  patch ← patch_group r''
  some (major, minor, patch)

-- `^go(\d+)\.(\d+)(?:\.(\d+))?$`
unfoldable pub release_groups : Text → Option (Text × Text × Text)
release_groups s = do r ← strip_prefix (bytes "go") s; directive_groups r

-- The patch is 0 where its group is empty.
unfoldable pub atoi_patch : Text → Option ℕ
atoi_patch [] = some 0
atoi_patch (c ∷ s) = atoi (c ∷ s)

abbrev pub or_failed {ℓ} : {A : Type ℓ} → Option A → Result A
or_failed none = err failed
or_failed (some a) = ok a

unfoldable pub parse_groups : Text → Text × Text × Text → Option Version
parse_groups s (a, b, c) = do
  major ← atoi a
  minor ← atoi b
  patch ← atoi_patch c
  some (record { major = major; minor = minor; patch = patch; raw = s })

-- `parseVersion`, given the groups that its pattern finds in `s`.
unfoldable pub parse_version : Option (Text × Text × Text) → Text → Result Version
parse_version groups s = or_failed (do g ← groups; parse_groups s g)

unfoldable pub parse_go_release : Text → Result Version
parse_go_release s = parse_version (release_groups s) s

unfoldable pub parse_go_directive : Text → Result Version
parse_go_directive s = parse_version (directive_groups s) s

or_default : Result Version → Version → Version
or_default (ok v) d = v
or_default (err e) d = d

pub parse_go_release_default : Text → Version → Version
unfolding or_default
parse_go_release_default s d = or_default (parse_go_release s) d

pub parse_go_directive_default : Text → Version → Version
unfolding or_default
parse_go_directive_default s d = or_default (parse_go_directive s) d

-- `v.Compare(other)`: the first difference of the fields that is not 0.
unfoldable pub compare : Version → Version → ℤ
compare v w =
    if is_nonzero (sub_ℕ v.major w.major)
    then sub_ℕ v.major w.major
    else if is_nonzero (sub_ℕ v.minor w.minor)
    then sub_ℕ v.minor w.minor
    else sub_ℕ v.patch w.patch

unfoldable pub less : Version → Version → Bool
unfolding compare
less v w = is_neg (compare v w)

-- `v.Number()`: the form of the message fields, such as "1.26.0".
unfoldable pub number : Version → Text
number v = itoa v.major ++ (bytes "." ++ (itoa v.minor ++ (bytes "." ++ itoa v.patch)))

-- `v.String()`
unfoldable pub string : Version → Text
string v = bytes "go" ++ number v
