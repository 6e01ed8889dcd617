-- ===== src/Version/Pattern.antt =====
-- The patterns of pkg/version.go against what they describe: digits, a dot, digits, and perhaps a
-- dot and digits.
use mathlib.Core.List.{cons-ne-nil}
use mathlib.Core.Option.{some-injective}
use mathlib.Core.Path.{subst}
use github_update_go_watcher.Common.{
  [], ◌∷◌, ◌++◌, append-nil, some, ◌≡◌, ◌≢◌, ◌↔◌, refl, ap, sym, ◌∙◌, Text, All, bytes,
  strip_prefix, strip_prefix_sound, >>=-eq-some,
}
use github_update_go_watcher.Version.Decimal.{
  IsDigit, digits1, digits1-append, digits1_sound, StopsDigits, is_digit, digits1_whole,
}
use github_update_go_watcher.Version.{directive_groups, patch_group, at_end}

-- The text behind the minor number.
abbrev pub patch_suffix : Text → Text
patch_suffix [] = []
patch_suffix (c ∷ s) = bytes "." ++ c ∷ s

abbrev pub dotted : Text → Text → Text → Text
dotted a b c = a ++ (bytes "." ++ (b ++ patch_suffix c))

-- The three groups of a text: digits each, and only the patch may be missing.
pub record Spelling (s a b c : Text) : Type 0 where
  pub whole : s ≡ dotted a b c
  pub major_digits : All IsDigit a
  pub major_filled : a ≢ []
  pub minor_digits : All IsDigit b
  pub minor_filled : b ≢ []
  pub patch_digits : All IsDigit c

patch_suffix-StopsDigits : (c : Text) → StopsDigits (patch_suffix c)
unfolding is_digit
patch_suffix-StopsDigits [] = tt
patch_suffix-StopsDigits (c ∷ s) = refl

dot-StopsDigits : (s : Text) → StopsDigits (bytes "." ++ s)
unfolding is_digit
dot-StopsDigits s = refl

patch_group_complete : (c : Text) → All IsDigit c → patch_group (patch_suffix c) ≡ some c
unfolding patch_group at_end
patch_group_complete [] h = refl
patch_group_complete (c ∷ s) h = rw (digits1_whole (c ∷ s) h (cons-ne-nil c s)) refl

pub directive_groups_complete :
    {s a b c : Text} → Spelling s a b c → directive_groups s ≡ some (a, b, c)
unfolding directive_groups
directive_groups_complete {s} {a} {b} {c} h =
    rw
      (
        h.whole,
        digits1-append a _ h.major_digits h.major_filled (dot-StopsDigits (b ++ patch_suffix c)),
      )
      (rw (digits1-append b _ h.minor_digits h.minor_filled (patch_suffix-StopsDigits c))
        (rw (patch_group_complete c h.patch_digits) refl))

at_end_sound : (r : Text × Text) {c : Text} → at_end r ≡ some c → r ≡ (c, [])
unfolding at_end
at_end_sound (s, []) h = cc
at_end_sound (s, x ∷ t) h = cc

pub patch_suffix_filled : (c : Text) → c ≢ [] → patch_suffix c ≡ bytes "." ++ c
patch_suffix_filled [] filled = absurd (filled refl)
patch_suffix_filled (c ∷ s) filled = refl

patch_group_sound :
    (r : Text) {c : Text} → patch_group r ≡ some c → (r ≡ patch_suffix c) × All IsDigit c
unfolding patch_group
patch_group_sound [] {c} h =
    let e : [] ≡ c = some-injective _ _ h in
    subst (λ t. ([] ≡ patch_suffix t) × All IsDigit t) e (refl, tt)
patch_group_sound (x ∷ s) {c} h =
    let (r, e1, h1) = >>=-eq-some (strip_prefix (bytes ".") (x ∷ s)) _ h in
    let (run, e2, h2) = >>=-eq-some (digits1 r) _ h1 in
    let (whole, digits, filled, _) = digits1_sound r (e2 ∙ ap some (at_end_sound run h2)) in
    (
      strip_prefix_sound (bytes ".") (x ∷ s) e1
          ∙ ap (λ t. bytes "." ++ t) (whole ∙ append-nil c)
          ∙ sym (patch_suffix_filled c filled),
      digits,
    )

directive_groups_sound :
    (s : Text) {a b c : Text} → directive_groups s ≡ some (a, b, c) → Spelling s a b c
unfolding directive_groups
directive_groups_sound s {a} {b} {c} h =
    let (run, e1, h1) = >>=-eq-some (digits1 s) _ h in
    let (r', e2, h2) = >>=-eq-some (strip_prefix (bytes ".") run.1) _ h1 in
    let (run', e3, h3) = >>=-eq-some (digits1 r') _ h2 in
    let (p, e4, h4) = >>=-eq-some (patch_group run'.1) _ h3 in
    let (whole, digits, filled, _) = digits1_sound s e1 in
    let (whole', digits', filled', _) = digits1_sound r' e3 in
    let (suffix, digits'') = patch_group_sound run'.1 e4 in
    let found : Spelling s run.0 run'.0 p = record {
      whole =
          whole
          ∙ ap (λ t. run.0 ++ t)
              (strip_prefix_sound (bytes ".") run.1 e2
                ∙ ap (λ t. bytes "." ++ t) (whole' ∙ ap (λ t. run'.0 ++ t) suffix));
      major_digits = digits;
      major_filled = filled;
      minor_digits = digits';
      minor_filled = filled';
      patch_digits = digits'';
    } in
    let e : (run.0, run'.0, p) ≡ (a, b, c) = some-injective _ _ h4 in
    subst (λ (g : Text × Text × Text). Spelling s g.0 g.1 g.2) e found

-- A directive is matched exactly when it is digits, a dot and digits, perhaps with a dot and digits
-- behind them, and the groups are these runs of digits.
pub directive_groups_iff :
    (s a b c : Text) → (directive_groups s ≡ some (a, b, c)) ↔ Spelling s a b c
directive_groups_iff s a b c = (directive_groups_sound s, directive_groups_complete)
