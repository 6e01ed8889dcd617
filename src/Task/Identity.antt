-- ===== src/Task/Identity.antt =====
-- The seeds of pkg/taskid.go: within one owner they tell the tasks apart; between owners they may
-- not.
use mathlib.Core.List.{append_cancel_left}
use mathlib.Core.Path.{subst}
use github_update_go_watcher.Common.{
  ℕ, [], ◌∷◌, ◌++◌, append_assoc, ◌≡◌, refl, sym, ◌∙◌, Text, bytes, Lacks,
}
use github_update_go_watcher.Task.{task_seed}

abbrev dash : ℕ
dash = b'-'

holds_sep : (sep : ℕ) (a s : Text) → ¬ Lacks sep (a ++ sep ∷ s)
holds_sep sep [] s (differs, _) = differs refl
holds_sep sep (x ∷ a) s (_, h) = holds_sep sep a s h

-- A text without a separator behind the last separator is determined, and so is what stands in front.
split_last :
    (sep : ℕ) (a b s t : Text)
    → Lacks sep s
    → Lacks sep t
    → a ++ sep ∷ s ≡ b ++ sep ∷ t
    → (a ≡ b) × (s ≡ t)
split_last sep [] [] s t ls lt e = (refl, cc)
split_last sep [] (y ∷ b) s t ls lt e =
    let same : s ≡ b ++ sep ∷ t = cc in absurd (holds_sep sep b t (subst (Lacks sep) same ls))
split_last sep (x ∷ a) [] s t ls lt e =
    let same : a ++ sep ∷ s ≡ t = cc in absurd (holds_sep sep a s (subst (Lacks sep) (sym same) lt))
split_last sep (x ∷ a) (y ∷ b) s t ls lt e =
    let (front, back) = split_last sep a b s t ls lt (cc) in (cc, back)

abbrev lead : Text → Text
lead owner = bytes "update-go-" ++ (owner ++ bytes "-")

-- The seed with its parts bracketed to the left.
task_seed_left :
    (owner repo version sha : Text)
    → task_seed owner repo version sha ≡ ((lead owner ++ repo) ++ dash ∷ version) ++ dash ∷ sha
unfolding task_seed
task_seed_left owner repo version sha = simp append_assoc

-- For one owner, versions and SHAs without a dash, the seed determines the repository, the version
-- and the SHA.
pub task_seed_injective :
    (owner repo version sha repo' version' sha' : Text)
    → Lacks b'-' version
    → Lacks b'-' version'
    → Lacks b'-' sha
    → Lacks b'-' sha'
    → task_seed owner repo version sha ≡ task_seed owner repo' version' sha'
    → (repo ≡ repo') × (version ≡ version') × (sha ≡ sha')
task_seed_injective owner repo version sha repo' version' sha' lv lv' ls ls' e =
    let (front, same_sha) =
      split_last dash ((lead owner ++ repo) ++ dash ∷ version)
        ((lead owner ++ repo') ++ dash ∷ version') sha sha' ls ls'
        (sym (task_seed_left owner repo version sha)
          ∙ e
          ∙ task_seed_left owner repo' version' sha') in
    let (named, same_version) =
      split_last dash (lead owner ++ repo) (lead owner ++ repo') version version' lv lv' front in
    (append_cancel_left (lead owner) repo repo' named, same_version, same_sha)
