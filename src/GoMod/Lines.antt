-- ===== src/GoMod/Lines.antt =====
-- The lines of a go.mod that `ParseGoModVersion` of pkg/gomod.go takes for a `go` directive, and those that
-- it passes over.
use github_update_go_watcher.Common.{
  ℕ, ◌≡◌, ◌≢◌, ◌∙◌, refl, ap, arith, true, false, Bool, List, [], ◌∷◌, ◌++◌, none, some, Option,
  Text, bytes, All, Lacks, ◌==◌, text_dec, has_prefix, if◌then◌else◌,
}
use mathlib.Core.Logic.{if_neg}
use github_update_go_watcher.GoMod.{directive_value, drop_cr, line_directive, newline}
use github_update_go_watcher.GoMod.Words.{
  Blank, IsTail, Printable, drop_cr-Blank, drop_cr-IsTail, drop_cr-append, drop_cr-word, empty-==,
  fields-word, fields_from-Blank, fields_from-gap, fields_from-tail, filled-==, same-==,
  trim_left-Blank, trim_left-Printable, trim_left-blanks, trim_right-IsTail, trim_right-blanks,
  trim_right-gap, trim_right-word,
}
use github_update_go_watcher.Strings.{fields, fields_from, trim_right, trim_space}

-- A line that begins, behind white space, with a word.
abbrev pub word_line : Text → Text → Text → Text
word_line lead word tail = lead ++ (word ++ tail)

-- What stands behind the first word of a directive.
abbrev pub value_tail : Text → Text → Text → Text
value_tail gap val tail = gap ++ (val ++ tail)

-- A line, without its newline, that is a `go` directive with its value: `go`, white space, the value, and
-- behind it nothing, or white space and anything, a comment for one.
pub data Declares : Text → Text → Type 0 where
  declares :
      (lead : Text) (g : ℕ) (gap : Text) (c : ℕ) (s tail : Text)
      → All Blank lead
      → All Blank (g ∷ gap)
      → All Printable (c ∷ s)
      → IsTail tail
      → Lacks newline tail
      → Declares (word_line lead (bytes "go") (value_tail (g ∷ gap) (c ∷ s) tail)) (c ∷ s)

-- A line, without its newline, that is no directive: white space only, another first word, or `go` with
-- nothing behind it.
pub data Passes : Text → Type 0 where
  blank : (gap : Text) → All Blank gap → Passes gap
  other :
      (lead : Text) (c : ℕ) (s tail : Text)
      → All Blank lead
      → All Printable (c ∷ s)
      → (c ∷ s) ≢ bytes "go"
      → IsTail tail
      → Lacks newline tail
      → Passes (word_line lead (c ∷ s) tail)
  bare :
      (lead gap : Text) → All Blank lead → All Blank gap → Passes (word_line lead (bytes "go") gap)

go_All : All Printable (bytes "go")
go_All = ((omega arith, omega arith), ((omega arith, omega arith), tt))

trim_space-word_line :
    (lead : Text) (c : ℕ) (s tail : Text)
    → All Blank lead
    → All Printable (c ∷ s)
    → trim_space (drop_cr (word_line lead (c ∷ s) tail)) ≡ (c ∷ s) ++ trim_right (drop_cr tail)
unfolding trim_space
trim_space-word_line lead c s tail hl (hc, hs) =
    ap trim_space
      (drop_cr-append lead c (s ++ tail) ∙ ap (λ t. lead ++ t) (drop_cr-word c s tail hc hs))
    ∙ ap trim_right (
        trim_left-Blank lead ((c ∷ s) ++ drop_cr tail) hl
        ∙ trim_left-Printable c (s ++ drop_cr tail) hc)
    ∙ trim_right-word (c ∷ s) (drop_cr tail) (hc, hs)

trim_right-value_tail :
    (gap : Text) (c : ℕ) (s tail : Text)
    → All Blank gap
    → All Printable (c ∷ s)
    → trim_right (drop_cr (value_tail gap (c ∷ s) tail))
      ≡ value_tail gap (c ∷ s) (trim_right (drop_cr tail))
trim_right-value_tail gap c s tail hg (hc, hs) =
    ap trim_right
      (drop_cr-append gap c (s ++ tail) ∙ ap (λ t. gap ++ t) (drop_cr-word c s tail hc hs))
    ∙ trim_right-gap gap c (s ++ drop_cr tail) hg hc
    ∙ ap (λ t. gap ++ t) (trim_right-word (c ∷ s) (drop_cr tail) (hc, hs))

-- The fields of a directive's line.
fields-Declares :
    (g : ℕ) (gap : Text) (c : ℕ) (s tail : Text)
    → All Blank (g ∷ gap)
    → All Printable (c ∷ s)
    → IsTail tail
    → (more : List Text) × (fields (bytes "go" ++ value_tail (g ∷ gap) (c ∷ s) tail)
        ≡ bytes "go" ∷ (c ∷ s) ∷ more)
unfolding fields
fields-Declares g gap c s tail (hg, hgap) hw ht =
    let behind = fields_from-tail c s tail ht in
    (
      behind.0,
      fields-word 103 (111 ∷ []) (value_tail (g ∷ gap) (c ∷ s) tail) go_All
          ∙ fields_from-Blank 103 (111 ∷ []) g (value_tail gap (c ∷ s) tail) hg
          ∙ ap (λ t. bytes "go" ∷ t)
              (fields_from-gap gap ((c ∷ s) ++ tail) hgap ∙ fields-word c s tail hw ∙ behind.1),
    )

-- What the round makes of a trimmed line.
abbrev trimmed_directive : Text → Option Text
trimmed_directive line =
    if line == []
    then none
    else if has_prefix line (bytes "//")
    then none
    else directive_value (fields line)

line_directive-trimmed :
    (raw line : Text)
    → trim_space (drop_cr raw) ≡ line
    → line_directive raw ≡ trimmed_directive line
unfolding line_directive
line_directive-trimmed raw line e = ap trimmed_directive e

pub line_directive-Declares : (line val : Text) → Declares line val → line_directive line ≡ some val
unfolding directive_value
line_directive-Declares _ _ (declares lead g gap c s tail hl hg hw ht _) =
    line_directive-trimmed _
      (bytes "go" ++ value_tail (g ∷ gap) (c ∷ s) (trim_right (drop_cr tail)))
      (trim_space-word_line lead 103 (111 ∷ []) (value_tail (g ∷ gap) (c ∷ s) tail) hl go_All
        ∙ ap (λ t. bytes "go" ++ t) (trim_right-value_tail (g ∷ gap) c s tail hg hw))
    ∙ rw (filled-== 103 (111 ∷ value_tail (g ∷ gap) (c ∷ s) (trim_right (drop_cr tail)))) (
        rw ((fields-Declares g gap c s _ hg hw (trim_right-IsTail _ (drop_cr-IsTail tail ht))).1)
          (rw (same-== (bytes "go")) refl))

directive_value-other :
    (word : Text) (more : List Text) → word ≢ bytes "go" → directive_value (word ∷ more) ≡ none
unfolding directive_value
directive_value-other word [] h = refl
directive_value-other word (val ∷ more) h =
    rw (if_neg (text_dec word (bytes "go")) h true false) refl

none-either : (b : Bool) → ◌≡◌ {A = Option Text} (if b then none else none) none
none-either true = refl
none-either false = refl

fields-head :
    (c : ℕ) (s tail : Text)
    → All Printable (c ∷ s)
    → IsTail tail
    → (more : List Text) × (fields ((c ∷ s) ++ tail) ≡ (c ∷ s) ∷ more)
unfolding fields
fields-head c s tail hw ht =
    let behind = fields_from-tail c s tail ht in (behind.0, fields-word c s tail hw ∙ behind.1)

pub line_directive-Passes : (line : Text) → Passes line → line_directive line ≡ none
unfolding trim_space fields fields_from directive_value
line_directive-Passes gap (blank _ h) =
    line_directive-trimmed gap [] (
      ap trim_right (trim_left-blanks (drop_cr gap) (drop_cr-Blank gap h))
      ∙ trim_right-blanks [] tt)
    ∙ rw (empty-== [] refl) refl
line_directive-Passes _ (other lead c s tail hl hw differ ht _) =
    let behind = trim_right (drop_cr tail) in
    let head = fields-head c s behind hw (trim_right-IsTail _ (drop_cr-IsTail tail ht)) in
    line_directive-trimmed _ ((c ∷ s) ++ behind) (trim_space-word_line lead c s tail hl hw)
    ∙ rw (filled-== c (s ++ behind)) (
        rw (head.1) (
          rw (directive_value-other (c ∷ s) (head.0) differ)
            (none-either (has_prefix (c ∷ (s ++ behind)) (bytes "//")))))
line_directive-Passes _ (bare lead gap hl hg) =
    line_directive-trimmed _ (bytes "go") (
      trim_space-word_line lead 103 (111 ∷ []) gap hl go_All
      ∙ ap (λ t. bytes "go" ++ t) (trim_right-blanks (drop_cr gap) (drop_cr-Blank gap hg)))
    ∙ rw (filled-== 103 (111 ∷ [])) (rw (fields-word 103 (111 ∷ []) [] go_All) refl)

Printable-Lacks : (s : Text) → All Printable s → Lacks newline s
Printable-Lacks [] h = tt
Printable-Lacks (c ∷ s) (hc, hs) = (λ e. omega (arith, hc, e), Printable-Lacks s hs)

Blank-Lacks : (s : Text) → All Blank s → Lacks newline s
Blank-Lacks [] h = tt
Blank-Lacks (c ∷ s) (hc, hs) = (hc.0, Blank-Lacks s hs)

Lacks-append : (s t : Text) → Lacks newline s → Lacks newline t → Lacks newline (s ++ t)
Lacks-append [] t hs ht = ht
Lacks-append (c ∷ s) t (hc, hs) ht = (hc, Lacks-append s t hs ht)

word_line-Lacks :
    (lead word tail : Text)
    → All Blank lead
    → All Printable word
    → Lacks newline tail
    → Lacks newline (word_line lead word tail)
word_line-Lacks lead word tail hl hw ht =
    Lacks-append lead (word ++ tail) (Blank-Lacks lead hl)
      (Lacks-append word tail (Printable-Lacks word hw) ht)

pub Declares-Lacks : (line val : Text) → Declares line val → Lacks newline line
Declares-Lacks _ _ (declares lead g gap c s tail hl hg hw ht lacks) =
    word_line-Lacks lead (bytes "go") (value_tail (g ∷ gap) (c ∷ s) tail) hl go_All
      (word_line-Lacks (g ∷ gap) (c ∷ s) tail hg hw lacks)

pub Passes-Lacks : (line : Text) → Passes line → Lacks newline line
Passes-Lacks gap (blank _ h) = Blank-Lacks gap h
Passes-Lacks _ (other lead c s tail hl hw differ ht lacks) =
    word_line-Lacks lead (c ∷ s) tail hl hw lacks
Passes-Lacks _ (bare lead gap hl hg) =
    word_line-Lacks lead (bytes "go") gap hl go_All (Blank-Lacks gap hg)
