-- ===== src/GoDev/Maximum.antt =====
-- The release that pkg/godevclient.go finds is the greatest stable one, and it finds one if there is
-- one.
use mathlib.Core.Path.{subst, subst₂}
use github_update_go_watcher.Common.{
  Member, false, List, [], ◌∷◌, Option, none, some, ◌≡◌, ◌≢◌, ◌⊎◌, inl, inr, refl, ◌∙◌, sym, arith,
  Text, ok, err, failed, ◌==◌, ◌||◌, All, Option-cases, Bool-cases, if◌then◌else◌,
}
use github_update_go_watcher.GoDev.{GoDevRelease, pick, max_release, stable_of}
use github_update_go_watcher.Version.{Version, zero_version, parse_go_release, less}
use github_update_go_watcher.Version.Order.{less_irrefl, less-false_left, less-false_trans}
use github_update_go_watcher.Version.Sound.{parse_go_release_sound}

-- The version of a release that is stable and can be read.
unfoldable pub readable : GoDevRelease → Option Version
readable r =
    if r.stable then elim (parse_go_release r.version) [ ok v ↦ some v | err e ↦ none ] else none

add : Option Version → List Version → List Version
add none vs = vs
add (some v) vs = v ∷ vs

unfoldable pub candidates : List GoDevRelease → List Version
unfolding add
candidates [] = []
candidates (r ∷ rs) = add (readable r) (candidates rs)

parse_go_release-raw : (s : Text) {v : Version} → parse_go_release s ≡ ok v → v.raw ≢ []
parse_go_release-raw s h =
    let (rest, a, b, c, whole, _, reads) = parse_go_release_sound s h in
    let raw = reads.raw_text ∙ whole in λ e. cc

readable-raw : (r : GoDevRelease) {v : Version} → readable r ≡ some v → v.raw ≢ []
unfolding readable
readable-raw r {v} h = parse_go_release-raw r.version {v = v} (ground arith)

-- The choice between what was found so far and one more version.
choose : Version → Option Version → Version
choose max none = max
choose max (some v) = if max.raw == [] || less max v then v else max

pick-choose : (max : Version) (r : GoDevRelease) → pick max r ≡ choose max (readable r)
unfolding pick readable choose
pick-choose max r = ground arith

-- `x` is among the versions, or is what the search began with, and nothing is greater.
record Greatest (max : Version) (vs : List Version) (x : Version) : Type 0 where
  found : (x ≡ max) ⊎ Member x vs
  over_first : less x max ≡ false
  over_all : All (λ v. less x v ≡ false) vs

Greatest-add :
    (max : Version) (o : Option Version) (vs : List Version) (x : Version)
    → max.raw ≢ []
    → Greatest (choose max o) vs x
    → Greatest max (add o vs) x
unfolding add choose
Greatest-add max none vs x filled g = g
Greatest-add max (some v) vs x filled g = elim (Bool-cases (less max v)) [
  | inl greater ↦
      let chosen : choose max (some v) ≡ v = ground arith in
      let g' = subst (λ m. Greatest m vs x) chosen g in
      record {
        found = inr g'.found;
        over_first = less-false_left x v max greater g'.over_first;
        over_all = (g'.over_first, g'.over_all);
      }
  | inr kept ↦
      let chosen : choose max (some v) ≡ max = ground arith in
      let g' = subst (λ m. Greatest m vs x) chosen g in
      record {
        found = elim g'.found [ inl e ↦ inl e | inr m ↦ inr (inr m) ];
        over_first = g'.over_first;
        over_all = (less-false_trans x v max kept g'.over_first, g'.over_all);
      }
]

choose-raw :
    (max : Version) (o : Option Version)
    → max.raw ≢ []
    → ((v : Version) → o ≡ some v → v.raw ≢ [])
    → (choose max o).raw ≢ []
unfolding choose
choose-raw max none filled _ = filled
choose-raw max (some v) filled named = let h = named v refl in ground arith

pick-raw : (max : Version) (r : GoDevRelease) → max.raw ≢ [] → (pick max r).raw ≢ []
pick-raw max r filled =
    rw pick-choose (choose-raw max (readable r) filled (λ v e. readable-raw r {v = v} e))

max_release-Greatest :
    (rs : List GoDevRelease) (max : Version)
    → max.raw ≢ []
    → Greatest max (candidates rs) (max_release max rs) × ((max_release max rs).raw ≢ [])
unfolding max_release candidates
max_release-Greatest [] max filled =
    (record { found = inl refl; over_first = less_irrefl max; over_all = tt }, filled)
max_release-Greatest (r ∷ rs) max filled =
    let (greatest, named) = max_release-Greatest rs (pick max r) (pick-raw max r filled) in
    let chosen =
      subst (λ m. Greatest m (candidates rs) (max_release (pick max r) rs)) (pick-choose max r)
        greatest in
    (Greatest-add max (readable r) (candidates rs) _ filled chosen, named)

-- What the search finds from nothing: nothing if there are no candidates, or the greatest of them.
abbrev IsMaximum : List Version → Version → Type 0
IsMaximum vs x =
    ((vs ≡ []) × (x.raw ≡ [])) ⊎ (Member x vs × All (λ v. less x v ≡ false) vs × (x.raw ≢ []))

choose-none : (max : Version) (o : Option Version) → o ≡ none → choose max o ≡ max
unfolding choose
choose-none max o e = ground arith

choose_first :
    (max : Version) (o : Option Version) (v : Version)
    → o ≡ some v
    → max.raw ≡ []
    → choose max o ≡ v
unfolding choose
choose_first max o v e unset = ground arith

max_release-IsMaximum :
    (rs : List GoDevRelease) (start : Version)
    → start.raw ≡ []
    → IsMaximum (candidates rs) (max_release start rs)
unfolding max_release candidates add
max_release-IsMaximum [] start unset = inl (refl, unset)
max_release-IsMaximum (r ∷ rs) start unset = elim (Option-cases (readable r)) [
  | inl skipped ↦
      let kept : pick start r ≡ start =
        pick-choose start r ∙ choose-none start (readable r) skipped in
      subst₂ (λ o m. IsMaximum (add o (candidates rs)) (max_release m rs)) (sym skipped) (sym kept)
        (max_release-IsMaximum rs start unset)
  | inr (v, read) ↦
      let first : pick start r ≡ v =
        pick-choose start r ∙ choose_first start (readable r) v read unset in
      let (greatest, named) = max_release-Greatest rs v (readable-raw r {v = v} read) in
      subst₂ (λ o m. IsMaximum (add o (candidates rs)) (max_release m rs)) (sym read) (sym first)
        (inr (greatest.found, (greatest.over_first, greatest.over_all), named))
]

-- If no stable release can be read, the lookup fails; otherwise it returns one of those that can,
-- and none of them is greater.
pub stable_of_maximum :
    (releases : List GoDevRelease)
    → ((candidates releases ≡ []) × (stable_of releases ≡ err failed))
      ⊎ ((v : Version) × (stable_of releases ≡ ok v)
          × Member v (candidates releases)
          × All (λ w. less v w ≡ false) (candidates releases))
unfolding stable_of
stable_of_maximum releases = elim (max_release-IsMaximum releases zero_version refl) [
  | inl (empty, unset) ↦ inl (empty, ground arith)
  | inr (member, greatest, named) ↦
      inr (max_release zero_version releases, ground arith, member, greatest)
]
