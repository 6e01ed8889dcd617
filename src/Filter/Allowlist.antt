-- ===== src/Filter/Allowlist.antt =====
-- `ParseRepoAllowlist` of pkg/filter/repo_allowlist_filter.go.
use mathlib.Core.Logic.{if_neg, if_pos}
use github_update_go_watcher.Common.{
  text_dec, true, false, ℕ, List, [], ◌∷◌, ◌++◌, append-nil, append_assoc, ◌≡◌, ◌≢◌, ◌∙◌, refl, sym,
  ap, arith, Text, bytes, ◌==◌, ◌=?◌, All, Lacks, if◌then◌else◌,
}
use github_update_go_watcher.Strings.{split_from, trim_space, join}

abbrev pub comma : ℕ
comma = b','

-- The loop over the parts: each is trimmed, and dropped if nothing is left of it.
unfoldable pub keep_entries : List Text → List Text
keep_entries [] = []
keep_entries (raw ∷ more) =
    let rest = keep_entries more in
    let trimmed = trim_space raw in if trimmed == [] then rest else trimmed ∷ rest

unfoldable pub parse_repo_allowlist : Text → List Text
parse_repo_allowlist raw = if raw == [] then [] else keep_entries (split_from comma [] raw)

-- No empty entry, and none with a comma or white space at its ends.
abbrev pub IsEntry : Text → Type 0
IsEntry s = (s ≢ []) × (trim_space s ≡ s) × Lacks comma s

no_comma : (c : ℕ) → c ≢ comma → (c =? comma) ≡ false
no_comma c h = ground arith

split_from-end : (cur s : Text) → Lacks comma s → split_from comma cur s ≡ (cur ++ s) ∷ []
unfolding split_from
split_from-end cur [] h = ap (λ t. t ∷ []) (sym (append-nil cur))
split_from-end cur (c ∷ s) (hc, hs) =
    rw (no_comma c hc)
      (split_from-end (cur ++ c ∷ []) s hs ∙ ap (λ t. t ∷ []) (append_assoc cur (c ∷ []) s))

split_from-cut :
    (cur s rest : Text)
    → Lacks comma s
    → split_from comma cur (s ++ comma ∷ rest) ≡ (cur ++ s) ∷ split_from comma [] rest
unfolding split_from
split_from-cut cur [] rest h = ap (λ t. t ∷ split_from comma [] rest) (sym (append-nil cur))
split_from-cut cur (c ∷ s) rest (hc, hs) = rw (no_comma c hc) (
    split_from-cut (cur ++ c ∷ []) s rest hs
    ∙ ap (λ t. t ∷ split_from comma [] rest) (append_assoc cur (c ∷ []) s))

split_from-join :
    (s : Text) (ss : List Text)
    → All IsEntry (s ∷ ss)
    → split_from comma [] (join (bytes ",") (s ∷ ss)) ≡ s ∷ ss
unfolding join
split_from-join s [] ((_, _, lacks), _) = split_from-end [] s lacks
split_from-join s (t ∷ ss) ((_, _, lacks), more) =
    split_from-cut [] s (join (bytes ",") (t ∷ ss)) lacks
    ∙ ap (λ ts. s ∷ ts) (split_from-join t ss more)

keep_entries-All : (ss : List Text) → All IsEntry ss → keep_entries ss ≡ ss
unfolding keep_entries
keep_entries-All [] h = refl
keep_entries-All (s ∷ ss) ((filled, trimmed, _), more) =
    rw (trimmed)
      (rw (if_neg (text_dec s []) filled true false) (ap (λ ts. s ∷ ts) (keep_entries-All ss more)))

append-ne-nil : (s t : Text) → s ≢ [] → s ++ t ≢ []
append-ne-nil [] t h e = h refl
append-ne-nil (c ∷ s) t h e = cc

join-ne-nil : (s : Text) (ss : List Text) → s ≢ [] → join (bytes ",") (s ∷ ss) ≢ []
unfolding join
join-ne-nil s [] h = h
join-ne-nil s (t ∷ ss) h = append-ne-nil s _ h

-- The allowlist is read back from its entries joined by commas, if no entry is empty, holds a comma,
-- or has white space at its ends.
pub parse_repo_allowlist-join :
    (entries : List Text)
    → All IsEntry entries
    → parse_repo_allowlist (join (bytes ",") entries) ≡ entries
unfolding parse_repo_allowlist join
parse_repo_allowlist-join [] h = rw (if_pos (text_dec [] []) refl true false) refl
parse_repo_allowlist-join (s ∷ ss) h =
    rw (if_neg (text_dec (join (bytes ",") (s ∷ ss)) []) (join-ne-nil s ss h.0.0) true false)
      (rw (split_from-join s ss h) (keep_entries-All (s ∷ ss) h))
