-- ===== src/GitHub/Contents.antt =====
-- The file reads of pkg/githubclient.go: their size, and what counts as consent.
use text.Mathlib.TextEquality.{eq_iff}
use github_update_go_watcher.Common.{
  ap, bytes, ℕ, ◌≤◌, ◌≡◌, ◌≢◌, ◌⊎◌, refl, arith, Bool, true, false, ◌=?◌, Option, none, some, Text,
  length, Result, ok, err, if◌then◌else◌,
}
use github_update_go_watcher.Filter.Maintainer.{
  Consent, granted, refused, undecided, is_not_boolean, spells_true, spells_false, verdict_of,
  parse_consent, node_consent, YamlNode, scalar_node,
}
use github_update_go_watcher.GitHub.Api.{Api, Reply, FileContent, answer, fault}
use github_update_go_watcher.GitHub.Client.{
  content_of, consent_of, get_go_mod, get_maintainer_config, max_content_bytes,
}
use github_update_go_watcher.Repo.{Repo}

content_of_bounded :
    (reply : Reply (Option FileContent)) {content : Text}
    → content_of reply ≡ ok (some content)
    → length content ≤ max_content_bytes
unfolding content_of
content_of_bounded reply h = ground arith

file_of-answer :
    (size : ℕ) (decoded : Option Text) {content : Text}
    → content_of (answer (some (record { size = size; content = decoded }))) ≡ ok (some content)
    → (decoded ≡ some content) × (size ≤ max_content_bytes) × (length content ≤ max_content_bytes)
unfolding content_of
file_of-answer size decoded h = ground arith

-- Content that was read is that of the file that GitHub answered.
content_of-answer :
    (reply : Reply (Option FileContent)) {content : Text}
    → content_of reply ≡ ok (some content)
    → (size : ℕ) × (reply ≡ answer (some (record { size = size; content = some content })))
      × (size ≤ max_content_bytes)
      × (length content ≤ max_content_bytes)
unfolding content_of
content_of-answer (fault e) h = ground (arith, h)
content_of-answer (answer none) h = ground (arith, h)
content_of-answer (answer (some file)) h =
    let (there, small, fits) = file_of-answer file.size file.content h in
    (
      file.size,
      ap (λ x. answer (some (record { size = file.size; content = x }))) there,
      small,
      fits,
    )

-- A node that spells the boolean true.
abbrev pub IsTrue : YamlNode → Type 0
IsTrue node =
    (node.kind ≡ scalar_node)
    × (node.tag ≡ "!!bool")
    × ((node.value ≡ "true") ⊎ (node.value ≡ "True") ⊎ (node.value ≡ "TRUE"))

if_not_then {ℓ} :
    {A : Type ℓ} (b : Bool) {x y v : A} → (if b then x else y) ≡ v → x ≢ v → (b ≡ false) × (y ≡ v)
if_not_then true h differ = absurd (differ h)
if_not_then false h differ = (refl, h)

undecided-ne-granted : undecided ≢ granted
undecided-ne-granted = ground (arith, eq_iff undecided granted)

refused-ne-granted : refused ≢ granted
refused-ne-granted = ground (arith, eq_iff refused granted)

spelled_true :
    (yes_spelled no_spelled : Bool)
    → (if yes_spelled then granted else if no_spelled then refused else undecided) ≡ granted
    → yes_spelled ≡ true
spelled_true true no_spelled h = refl
spelled_true false true h = absurd (refused-ne-granted h)
spelled_true false false h = absurd (undecided-ne-granted h)

node_consent-granted : (node : YamlNode) → node_consent node ≡ granted → IsTrue node
unfolding node_consent
node_consent-granted node h =
    let (_, known) = if_not_then (node.kind =? 0) h undecided-ne-granted in
    let (boolean, spelled) = if_not_then (is_not_boolean node) known undecided-ne-granted in
    let is_true = spelled_true (spells_true node) (spells_false node) spelled in
    ground (
      arith,
      boolean,
      is_true,
      eq_iff node.tag "!!bool",
      eq_iff node.value "true",
      eq_iff node.value "True",
      eq_iff node.value "TRUE",
    )

ok-injective : {a b : Consent} → ok a ≡ ok b → a ≡ b
ok-injective h = cc

verdict_of-granted :
    (read : Option YamlNode)
    → verdict_of read ≡ ok granted
    → (node : YamlNode) × (read ≡ some node) × IsTrue node
unfolding verdict_of
verdict_of-granted none h = ground arith
verdict_of-granted (some node) h = (node, refl, node_consent-granted node (ok-injective h))

-- The file was read, its YAML was read, and its node spells the boolean true.
abbrev pub ReadsTrue : (Text → Option YamlNode) → Result (Option Text) → Type 0
ReadsTrue unmarshal read =
    (content : Text) × (node : YamlNode) × (read ≡ ok (some content))
    × (unmarshal content ≡ some node)
    × IsTrue node

consent_of-granted :
    (unmarshal : Text → Option YamlNode) (read : Result (Option Text))
    → consent_of unmarshal read ≡ ok granted
    → ReadsTrue unmarshal read
unfolding consent_of parse_consent
consent_of-granted unmarshal (err e) h = ground arith
consent_of-granted unmarshal (ok none) h = absurd (undecided-ne-granted (ok-injective h))
consent_of-granted unmarshal (ok (some content)) h =
    let (_, verdict) = if_not_then _ h (λ e. undecided-ne-granted (ok-injective e)) in
    let (node, parsed, true_node) = verdict_of-granted _ verdict in
    (content, node, refl, parsed, true_node)

module _ {E : Type 0} (api : Api E) (ctx_done : E → Bool × E) where
  -- A go.mod that is read is at most the maximum in size.
  pub get_go_mod_bounded :
      (repo : Repo) (env : E) {content : Text}
      → (get_go_mod api ctx_done repo env).0 ≡ ok (some content)
      → length content ≤ max_content_bytes
  unfolding get_go_mod
  get_go_mod_bounded repo env h = content_of_bounded _ h

  -- An owner counts as having granted updates only if GitHub answered the read of the repository's
  -- .maintainer.yaml on its default branch with a file, its content was decoded, both its size and
  -- that of the content are at most the maximum, and the node of its key is a scalar with the boolean
  -- tag that spells true.
  pub get_maintainer_config-granted :
      (unmarshal : Text → Option YamlNode) (repo : Repo) (env : E)
      → (get_maintainer_config api ctx_done unmarshal repo env).0 ≡ ok granted
      → (size : ℕ) × (content : Text) × (node : YamlNode) × ((api.get_contents repo.owner repo.name
            (bytes ".maintainer.yaml")
            repo.default_branch
            env).0
          ≡ answer (some (record { size = size; content = some content })))
        × (size ≤ max_content_bytes)
        × (length content ≤ max_content_bytes)
        × (unmarshal content ≡ some node)
        × IsTrue node
  unfolding get_maintainer_config
  get_maintainer_config-granted unmarshal repo env h =
      let (content, node, read, parsed, true_node) = consent_of-granted unmarshal _ h in
      let (size, answered, small, fits) = content_of-answer _ read in
      (size, content, node, answered, small, fits, parsed, true_node)
