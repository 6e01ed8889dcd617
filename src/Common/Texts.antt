-- ===== src/Common/Texts.antt =====
-- Go strings as lists of bytes: literals, comparison, length, prefixes, slices; predicates on
-- lists.
use Prim.Native.Nat.{ℕ, zero, suc, ◌+◌, ◌/◌, ◌%◌, ◌≤◌}
use Prim.Native.Char.{code}
use Prim.Native.String.{String}
use mathlib.Core.Path.{◌≡◌, refl}
use mathlib.Core.Logic.{◌≢◌, ◌↔◌, ◌⊎◌, inl, inr, ite, dite}
use mathlib.Core.Bool.{Bool, true, false, ◌&&◌, Bool-discrete}
use mathlib.Core.Option.{Option, none, some}
use mathlib.Core.List.{List, [], ◌∷◌, ◌++◌}
use native.Mathlib.Omega.{arith}
use github_update_go_watcher.Common.Tests.{ltb, ◌=?◌, if◌then◌else◌}

abbrev pub Text : Type 0
Text = List ℕ

-- The UTF-8 bytes of a code point up to U+FFFF, which covers every literal of the program.
abbrev utf8 : ℕ → Text → Text
utf8 c rest =
    if ltb c 0x80
    then c ∷ rest
    else if ltb c 0x800
    then (0xC0 + c / 0x40) ∷ (0x80 + c % 0x40) ∷ rest
    else (0xE0 + c / 0x1000) ∷ (0x80 + c / 0x40 % 0x40) ∷ (0x80 + c % 0x40) ∷ rest

-- The bytes of a literal.
abbrev pub bytes : String → Text
bytes String.[] = []
bytes (String.◌∷◌ c s) = utf8 (code c) (bytes s)

unfoldable pub text_beq : Text → Text → Bool
text_beq [] [] = true
text_beq [] (_ ∷ _) = false
text_beq (_ ∷ _) [] = false
text_beq (a ∷ s) (b ∷ t) = (a =? b) && text_beq s t

pub text_beq_iff : (s t : Text) → (text_beq s t ≡ true) ↔ (s ≡ t)
unfolding text_beq
text_beq_iff [] [] = ground arith
text_beq_iff [] (_ ∷ _) = ground arith
text_beq_iff (_ ∷ _) [] = ground arith
text_beq_iff (a ∷ s) (b ∷ t) = ground (arith, text_beq_iff s t)

unfoldable pub text_dec : Discrete Text
unfolding text_beq
text_dec s t =
    dite (Bool-discrete (text_beq s t) true) (λ same. yes ((text_beq_iff s t).0 same))
      (λ differ. no (λ p. differ ((text_beq_iff s t).1 p)))

-- Go's `==` on strings. The decision stays shut in proofs, where a split on it yields the equation
-- or its negation.
infix 50 ◌==◌
abbrev pub ◌==◌ : Text → Text → Bool
s == t = ite (text_dec s t) true false

abbrev pub length {ℓ} : {A : Type ℓ} → List A → ℕ
length [] = 0
length (x ∷ xs) = suc (length xs)

pub length-append {ℓ} : {A : Type ℓ} (xs ys : List A) → length (xs ++ ys) ≡ length xs + length ys
length-append [] ys = omega arith
length-append (x ∷ xs) ys = omega (arith, length-append xs ys)

-- `s[:n]`, for `n` at most the length.
abbrev pub take {ℓ} : {A : Type ℓ} → ℕ → List A → List A
take zero xs = []
take (suc n) [] = []
take (suc n) (x ∷ xs) = x ∷ take n xs

pub length-take-le {ℓ} : {A : Type ℓ} (n : ℕ) (xs : List A) → length (take n xs) ≤ n
length-take-le zero xs = omega arith
length-take-le (suc n) [] = omega arith
length-take-le (suc n) (x ∷ xs) = omega (arith, length-take-le n xs)

-- `strings.CutPrefix`: the rest behind a prefix.
abbrev pub strip_prefix : Text → Text → Option Text
strip_prefix [] s = some s
strip_prefix (a ∷ p) [] = none
strip_prefix (a ∷ p) (b ∷ s) = if a =? b then strip_prefix p s else none

-- `strings.HasPrefix(s, p)`
abbrev pub has_prefix : Text → Text → Bool
has_prefix s p = elim (strip_prefix p s) [ none ↦ false | some _ ↦ true ]

pub strip_prefix-append : (p s : Text) → strip_prefix p (p ++ s) ≡ some s
strip_prefix-append [] s = refl
strip_prefix-append (a ∷ p) s = ground (arith, strip_prefix-append p s)

pub strip_prefix_sound : (p s : Text) {rest : Text} → strip_prefix p s ≡ some rest → s ≡ p ++ rest
strip_prefix_sound [] s h = ground arith
strip_prefix_sound (a ∷ p) [] h = ground arith
strip_prefix_sound (a ∷ p) (b ∷ s) {rest} h = ground (arith, strip_prefix_sound p s {rest = rest})

module _ {ℓ κ} {A : Type ℓ} (P : A → Type κ) where
  abbrev pub All : List A → Type κ
  All [] = Unit
  All (x ∷ xs) = P x × All xs

  pub All-intro : ((x : A) → P x) → (xs : List A) → All xs
  All-intro h [] = tt
  All-intro h (x ∷ xs) = (h x, All-intro h xs)

  pub All-append : (xs ys : List A) → All xs → All ys → All (xs ++ ys)
  All-append [] ys _ hy = hy
  All-append (x ∷ xs) ys (px, hx) hy = (px, All-append xs ys hx hy)

-- No byte of the text is `b`.
abbrev pub Lacks : ℕ → Text → Type 0
Lacks b = All (λ c. c ≢ b)

module _ {A : Type 0} where
  -- The element stands in the list.
  abbrev pub Member : A → List A → Type 0
  Member a [] = ⊥
  Member a (x ∷ xs) = (a ≡ x) ⊎ Member a xs

  pub Member-append_left : (a : A) (xs ys : List A) → Member a xs → Member a (xs ++ ys)
  Member-append_left a [] ys h = elim h [ ]
  Member-append_left a (x ∷ xs) ys (inl here) = inl here
  Member-append_left a (x ∷ xs) ys (inr there) = inr (Member-append_left a xs ys there)

  pub Member-append_right : (a : A) (xs ys : List A) → Member a ys → Member a (xs ++ ys)
  Member-append_right a [] ys h = h
  Member-append_right a (x ∷ xs) ys h = inr (Member-append_right a xs ys h)
