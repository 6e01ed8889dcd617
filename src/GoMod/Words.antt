-- ===== src/GoMod/Words.antt =====
-- The lines of a go.mod as `ParseGoModVersion` of pkg/gomod.go reads them, byte by byte: white space,
-- words, and what stands behind them.
use mathlib.Core.Logic.{if_neg, if_pos}
use github_update_go_watcher.Common.{
  ℕ, ◌≤◌, ◌≡◌, ◌≢◌, ◌∙◌, refl, sym, ap, arith, true, false, List, [], ◌∷◌, ◌++◌, append-nil,
  append_assoc, inl, inr, ◌⊎◌, Bool-cases, Text, All, ◌=?◌, ◌==◌, text_dec,
}
use github_update_go_watcher.GoMod.{drop_cr, newline}
use github_update_go_watcher.Strings.{fields_from, space_width, trim_left, trim_right}

-- Printable ASCII characters other than the space.
abbrev pub Printable : ℕ → Type 0
Printable c = (33 ≤ c) × (c ≤ 126)

pub space_width-Printable : (c : ℕ) (s : Text) → Printable c → space_width (c ∷ s) ≡ 0
unfolding space_width
space_width-Printable c [] h = ground arith
space_width-Printable c (d ∷ []) h = ground arith
space_width-Printable c (d ∷ e ∷ s) h = ground arith

pub trim_left-Printable : (c : ℕ) (s : Text) → Printable c → trim_left 0 (c ∷ s) ≡ c ∷ s
unfolding trim_left
trim_left-Printable c s h = rw (space_width-Printable c s h) refl

pub filled-== : (c : ℕ) (s : Text) → ((c ∷ s) == []) ≡ false
filled-== c s = if_neg (text_dec (c ∷ s) []) (λ h. ground (arith, h)) true false

pub same-== : (s : Text) → (s == s) ≡ true
same-== s = if_pos (text_dec s s) refl true false

pub trim_right-Printable : (c : ℕ) (s : Text) → Printable c → trim_right (c ∷ s) ≡ c ∷ trim_right s
unfolding trim_right
trim_right-Printable c s h = rw (trim_left-Printable c s h) (rw (filled-== c s) refl)

-- ASCII white space within a line.
abbrev pub Blank : ℕ → Type 0
Blank c = (c ≢ newline) × ((c ≡ 32) ⊎ ((9 ≤ c) × (c ≤ 13)))

-- What may stand behind a word: nothing, or white space and then anything.
abbrev pub IsTail : Text → Type 0
IsTail [] = Unit
IsTail (b ∷ t) = Blank b

pub space_width-Blank : (c : ℕ) (s : Text) → Blank c → space_width (c ∷ s) ≡ 1
unfolding space_width
space_width-Blank c [] h = ground arith
space_width-Blank c (d ∷ []) h = ground arith
space_width-Blank c (d ∷ e ∷ s) h = ground arith

-- `bufio.ScanLines` drops a carriage return at the end only.
pub drop_cr-append : (p : Text) (x : ℕ) (q : Text) → drop_cr (p ++ (x ∷ q)) ≡ p ++ drop_cr (x ∷ q)
unfolding drop_cr
drop_cr-append [] x q = refl
drop_cr-append (a ∷ []) x q = refl
drop_cr-append (a ∷ b ∷ p) x q = ap (λ t. a ∷ t) (drop_cr-append (b ∷ p) x q)

pub drop_cr-word :
    (c : ℕ) (s tail : Text)
    → Printable c
    → All Printable s
    → drop_cr ((c ∷ s) ++ tail) ≡ (c ∷ s) ++ drop_cr tail
unfolding drop_cr
drop_cr-word c [] [] h hs = ground arith
drop_cr-word c [] (b ∷ t) h hs = refl
drop_cr-word c (d ∷ s) tail h (hd, hs) = ap (λ t. c ∷ t) (drop_cr-word d s tail hd hs)

pub drop_cr-IsTail : (t : Text) → IsTail t → IsTail (drop_cr t)
unfolding drop_cr
drop_cr-IsTail [] h = tt
drop_cr-IsTail (b ∷ []) h = elim (Bool-cases (b =? b'\r')) [
  | inl cr ↦ rw (cr) tt
  | inr other ↦ rw (other) h
]
drop_cr-IsTail (b ∷ c ∷ t) h = h

pub drop_cr-Blank : (t : Text) → All Blank t → All Blank (drop_cr t)
unfolding drop_cr
drop_cr-Blank [] h = tt
drop_cr-Blank (b ∷ []) h = elim (Bool-cases (b =? b'\r')) [
  | inl cr ↦ rw (cr) tt
  | inr other ↦ rw (other) h
]
drop_cr-Blank (b ∷ c ∷ t) (h, hs) = (h, drop_cr-Blank (c ∷ t) hs)

-- `strings.TrimSpace`
pub trim_left-Blank : (gap s : Text) → All Blank gap → trim_left 0 (gap ++ s) ≡ trim_left 0 s
unfolding trim_left
trim_left-Blank [] s h = refl
trim_left-Blank (b ∷ gap) s (h, hs) =
    rw (space_width-Blank b (gap ++ s) h) (trim_left-Blank gap s hs)

pub trim_left-blanks : (gap : Text) → All Blank gap → trim_left 0 gap ≡ []
unfolding trim_left
trim_left-blanks [] h = refl
trim_left-blanks (b ∷ gap) (h, hs) = rw (space_width-Blank b gap h) (trim_left-blanks gap hs)

pub empty-== : (s : Text) → s ≡ [] → (s == []) ≡ true
empty-== s e = if_pos (text_dec s []) e true false

pub trim_right-blanks : (gap : Text) → All Blank gap → trim_right gap ≡ []
unfolding trim_right
trim_right-blanks [] h = refl
trim_right-blanks (b ∷ gap) h =
    rw (empty-== (trim_left 0 (b ∷ gap)) (trim_left-blanks (b ∷ gap) h)) refl

pub trim_right-word :
    (word t : Text) → All Printable word → trim_right (word ++ t) ≡ word ++ trim_right t
trim_right-word [] t h = refl
trim_right-word (c ∷ s) t (h, hs) =
    trim_right-Printable c (s ++ t) h ∙ ap (λ x. c ∷ x) (trim_right-word s t hs)

trim_right-filled :
    (b : ℕ) (s : Text) → (trim_left 0 (b ∷ s) == []) ≡ false → trim_right (b ∷ s) ≡ b ∷ trim_right s
unfolding trim_right
trim_right-filled b s filled = rw (filled) refl

trim_left-gap :
    (gap : Text) (c : ℕ) (s : Text)
    → All Blank gap
    → Printable c
    → trim_left 0 (gap ++ (c ∷ s)) ≡ c ∷ s
trim_left-gap gap c s h hc = trim_left-Blank gap (c ∷ s) h ∙ trim_left-Printable c s hc

pub trim_right-gap :
    (gap : Text) (c : ℕ) (s : Text)
    → All Blank gap
    → Printable c
    → trim_right (gap ++ (c ∷ s)) ≡ gap ++ trim_right (c ∷ s)
trim_right-gap [] c s h hc = refl
trim_right-gap (b ∷ gap) c s (h, hs) hc =
    trim_right-filled b (gap ++ (c ∷ s))
      (ap (λ t. t == []) (trim_left-gap (b ∷ gap) c s (h, hs) hc) ∙ filled-== c s)
    ∙ ap (λ x. b ∷ x) (trim_right-gap gap c s hs hc)

pub trim_right-IsTail : (t : Text) → IsTail t → IsTail (trim_right t)
unfolding trim_right
trim_right-IsTail [] h = tt
trim_right-IsTail (b ∷ t) h = elim (Bool-cases (trim_left 0 (b ∷ t) == [])) [
  | inl blank ↦ rw (blank) tt
  | inr filled ↦ rw (filled) h
]

-- `strings.Fields`
fields_from-Printable :
    (cur : Text) (c : ℕ) (s : Text)
    → Printable c
    → fields_from 0 cur (c ∷ s) ≡ fields_from 0 (cur ++ c ∷ []) s
unfolding fields_from
fields_from-Printable cur c s h = rw (space_width-Printable c s h) refl

pub fields_from-gap :
    (gap s : Text) → All Blank gap → fields_from 0 [] (gap ++ s) ≡ fields_from 0 [] s
unfolding fields_from
fields_from-gap [] s h = refl
fields_from-gap (b ∷ gap) s (h, hs) =
    rw (space_width-Blank b (gap ++ s) h) (fields_from-gap gap s hs)

pub fields_from-Blank :
    (a : ℕ) (cur : Text) (b : ℕ) (s : Text)
    → Blank b
    → fields_from 0 (a ∷ cur) (b ∷ s) ≡ (a ∷ cur) ∷ fields_from 0 [] s
unfolding fields_from
fields_from-Blank a cur b s h = rw (space_width-Blank b s h) refl

pub fields_from-tail :
    (a : ℕ) (cur t : Text)
    → IsTail t
    → (more : List Text) × (fields_from 0 (a ∷ cur) t ≡ (a ∷ cur) ∷ more)
fields_from-tail a cur [] h = ([], unfold fields_from in refl)
fields_from-tail a cur (b ∷ t) h = (fields_from 0 [] t, fields_from-Blank a cur b t h)

pub fields_from-word :
    (a : ℕ) (cur s t : Text)
    → All Printable s
    → fields_from 0 (a ∷ cur) (s ++ t) ≡ fields_from 0 (a ∷ (cur ++ s)) t
fields_from-word a cur [] t h = ap (λ x. fields_from 0 (a ∷ x) t) (sym (append-nil cur))
fields_from-word a cur (c ∷ s) t (h, hs) =
    fields_from-Printable (a ∷ cur) c (s ++ t) h
    ∙ fields_from-word a (cur ++ c ∷ []) s t hs
    ∙ ap (λ x. fields_from 0 (a ∷ x) t) (append_assoc cur (c ∷ []) s)

-- A word and its tail make the word the first field.
pub fields-word :
    (c : ℕ) (s t : Text)
    → All Printable (c ∷ s)
    → fields_from 0 [] ((c ∷ s) ++ t) ≡ fields_from 0 (c ∷ s) t
fields-word c s t (h, hs) = fields_from-Printable [] c (s ++ t) h ∙ fields_from-word c [] s t hs
