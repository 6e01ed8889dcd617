-- ===== src/Filter/Maintainer.antt =====
-- pkg/filter/consent.go: the verdict that `.maintainer.yaml` records. As in the source it is a
-- string, of which three values are named and the empty one is what a failed parse returns.
use text.Mathlib.Text.{◌==◌ as str_eq}
use github_update_go_watcher.Common.{
  ℕ, Bool, false, ◌||◌, not, List, [], ◌∷◌, Option, none, some, Text, String, Result, ok, err,
  failed, ◌=?◌, if◌then◌else◌, length,
}

abbrev pub Consent : Type 0
Consent = String

abbrev pub granted : Consent
granted = "granted"

abbrev pub refused : Consent
refused = "refused"

abbrev pub undecided : Consent
undecided = "undecided"

abbrev pub available_consents : List Consent
available_consents = granted ∷ refused ∷ undecided ∷ []

-- `collection.Contains` on this type.
unfoldable pub contains : List Consent → Consent → Bool
contains [] c = false
contains (a ∷ more) c = str_eq a c || contains more c

-- `c.Validate`
unfoldable pub validate : Consent → Result (Unit {0})
unfolding contains
validate c = if not (contains available_consents c) then err failed else ok tt

-- The fields of `yaml.Node` that the parser reads. `kind` is 0 where the key never appeared.
pub record YamlNode : Type 0 where
  pub kind : ℕ
  pub tag : String
  pub value : String

-- `yaml.ScalarNode`
abbrev pub scalar_node : ℕ
scalar_node = 8

-- The spellings of the two booleans, and the test for a boolean.
abbrev pub spells_true : YamlNode → Bool
spells_true node = str_eq node.value "true" || str_eq node.value "True" || str_eq node.value "TRUE"

abbrev pub spells_false : YamlNode → Bool
spells_false node =
    str_eq node.value "false" || str_eq node.value "False" || str_eq node.value "FALSE"

abbrev pub is_not_boolean : YamlNode → Bool
is_not_boolean node = not (node.kind =? scalar_node) || not (str_eq node.tag "!!bool")

-- The verdict of a node.
unfoldable pub node_consent : YamlNode → Consent
node_consent node =
    if node.kind =? 0
    then undecided
    else if is_not_boolean node
    then undecided
    else if spells_true node
    then granted
    else if spells_false node
    then refused
    else undecided

-- What the parser makes of the document.
unfoldable pub verdict_of : Option YamlNode → Result Consent
verdict_of none = err failed
verdict_of (some node) = ok (node_consent node)

-- `ParseConsent`. The argument is `yaml.Unmarshal` into the document, of which only the node of
-- `goUpdate.autoUpdate` is read; `none` is its error.
unfoldable pub parse_consent : (Text → Option YamlNode) → Text → Result Consent
parse_consent unmarshal content =
    if length content =? 0 then ok undecided else verdict_of (unmarshal content)
