-- ===== src/Version/Decimal.antt =====
-- What pkg/version.go uses of Go's library: `strconv.Itoa` and `strconv.Atoi` on digits, and the
-- pattern `\d+`.
use Prim.Native.Nat.{zero, suc, ◌+◌, ◌-◌, ◌*◌, ◌/◌, ◌%◌, ◌^◌, ◌≤◌, ◌<◌}
use mathlib.Core.List.{concat-ne-nil, cons-ne-nil}
use mathlib.Core.Logic.{ite, dite, if_pos, if_neg}
use mathlib.Core.Path.{subst}
use mathlib.Core.WellFounded.{Acc, Acc-prop, WellFounded, induction}
use github_update_go_watcher.Common.{
  ℕ, Bool, true, false, ◌&&◌, ◌↔◌, inl, inr, Bool-cases, ap, [], ◌∷◌, ◌++◌, append-nil, Option,
  none, some, ◌≡◌, ◌≢◌, refl, arith, Text, All, All-append, leb, if◌then◌else◌, dec_lt,
}

-- The largest value of a 64-bit `int`.
abbrev pub max_int : ℕ
max_int = 2 ^ 63 - 1

abbrev pub IsDigit : ℕ → Type 0
IsDigit c = (b'0' ≤ c) × (c ≤ b'9')

unfoldable pub is_digit : ℕ → Bool
is_digit c = leb b'0' c && leb c b'9'

is_digit_iff : (c : ℕ) → (is_digit c ≡ true) ↔ IsDigit c
unfolding is_digit
is_digit_iff c = ground arith

accessible : (bound n : ℕ) → n < bound → Acc ◌<◌ n
accessible zero n h = absurd (omega arith)
accessible (suc bound) n h = Acc.intro n (λ m below. accessible bound m (omega arith))

unfoldable pub lt_wf : WellFounded ◌<◌
unfolding accessible
lt_wf = record { apply = λ n. accessible (suc n) n (omega arith) }

quotient_lt : {n : ℕ} → ¬ (n < 10) → n / 10 < n
quotient_lt h = omega arith

-- The digits of the quotient, then the last digit.
spell : (n : ℕ) → Acc ◌<◌ n → Text
spell n (Acc.intro _ smaller) =
    dite (dec_lt n 10) (λ _. (b'0' + n) ∷ [])
      (λ h. spell (n / 10) (smaller (n / 10) (quotient_lt h)) ++ (b'0' + n % 10) ∷ [])

-- `strconv.Itoa`
unfoldable pub itoa : ℕ → Text
unfolding spell lt_wf dec_lt quotient_lt
itoa n = spell n (lt_wf.apply n)

-- The number that digits spell behind `n`.
abbrev pub value : ℕ → Text → ℕ
value n [] = n
value n (c ∷ s) = value (n * 10 + (c - b'0')) s

abbrev pub all_digits : Text → Bool
all_digits [] = true
all_digits (c ∷ s) = is_digit c && all_digits s

-- `strconv.Atoi` on a text without a sign, which is all that `\d+` captures: an error on empty
-- text, on a byte that is no digit, and out of range.
unfoldable pub atoi : Text → Option ℕ
atoi [] = none
atoi (c ∷ s) =
    if all_digits (c ∷ s) && leb (value 0 (c ∷ s)) max_int then some (value 0 (c ∷ s)) else none

span_digits : Text → Text × Text
span_digits [] = ([], [])
span_digits (c ∷ s) =
    let (ds, rest) = span_digits s in if is_digit c then (c ∷ ds, rest) else ([], c ∷ s)

nonempty_run : Text × Text → Option (Text × Text)
nonempty_run ([], rest) = none
nonempty_run (c ∷ ds, rest) = some (c ∷ ds, rest)

-- `(\d+)` at the front of a text: the longest run of digits, and the rest.
unfoldable pub digits1 : Text → Option (Text × Text)
unfolding span_digits nonempty_run is_digit
digits1 s = nonempty_run (span_digits s)

spell_lem :
    (n : ℕ) (w : Acc ◌<◌ n) (w' : Acc ◌<◌ (n / 10))
    → spell n w ≡ ite (dec_lt n 10) ((b'0' + n) ∷ []) (spell (n / 10) w' ++ (b'0' + n % 10) ∷ [])
unfolding spell
spell_lem n (Acc.intro _ smaller) w' = λ i.
    dite (dec_lt n 10) (λ _. (b'0' + n) ∷ [])
      (λ h.
        spell (n / 10) (Acc-prop (smaller (n / 10) (quotient_lt h)) w' i) ++ (b'0' + n % 10) ∷ [])

itoa_lem :
    (n : ℕ) → itoa n ≡ ite (dec_lt n 10) ((b'0' + n) ∷ []) (itoa (n / 10) ++ (b'0' + n % 10) ∷ [])
unfolding itoa
itoa_lem n = spell_lem n (lt_wf.apply n) (lt_wf.apply (n / 10))

value-append : (n : ℕ) (s t : Text) → value n (s ++ t) ≡ value (value n s) t
value-append n [] t = refl
value-append n (c ∷ s) t = value-append (n * 10 + (c - b'0')) s t

-- What `Itoa` writes are digits, at least one, that spell the number.
abbrev pub Spells : ℕ → Text → Type 0
Spells n s = All IsDigit s × (value 0 s ≡ n) × (s ≢ [])

Spells-snoc : (n : ℕ) (s : Text) → Spells (n / 10) s → Spells n (s ++ (b'0' + n % 10) ∷ [])
Spells-snoc n s (digits, exact, filled) = (
  All-append IsDigit s _ digits (omega arith),
  rw (value-append 0 s) (rw exact (omega arith)),
  concat-ne-nil _ s,
)

pub itoa-Spells : (n : ℕ) → Spells n (itoa n)
itoa-Spells n = induction lt_wf {C = λ m. Spells m (itoa m)} n λ m ih.
    rw (itoa_lem m) (elim (dec_lt m 10) [
      | yes small ↦ rw (if_pos _ small) (omega arith, omega arith, cons-ne-nil _ _)
      | no large ↦ rw (if_neg _ large) (Spells-snoc m _ (ih (m / 10) (quotient_lt large)))
    ])

pub all_digits_complete : (s : Text) → All IsDigit s → all_digits s ≡ true
all_digits_complete [] h = refl
all_digits_complete (c ∷ s) (hc, hs) = rw ((is_digit_iff c).1 hc, all_digits_complete s hs) refl

pub all_digits_sound : (s : Text) → all_digits s ≡ true → All IsDigit s
all_digits_sound [] h = tt
all_digits_sound (c ∷ s) h = ground (arith, is_digit_iff c, all_digits_sound s)

-- `Atoi` on digits fails exactly out of range.
pub atoi_digits :
    (s : Text)
    → All IsDigit s
    → s ≢ []
    → atoi s ≡ (if leb (value 0 s) max_int then some (value 0 s) else none)
unfolding atoi
atoi_digits [] h filled = absurd (filled refl)
atoi_digits (c ∷ s) h filled = rw (all_digits_complete (c ∷ s) h) refl

pub atoi-itoa : (n : ℕ) → n ≤ max_int → atoi (itoa n) ≡ some n
atoi-itoa n h =
    let (digits, exact, filled) = itoa-Spells n in
    rw (atoi_digits (itoa n) digits filled, exact) (ground arith)

-- A run of digits in front of what is no digit is captured whole.
abbrev pub StopsDigits : Text → Type 0
StopsDigits [] = Unit
StopsDigits (c ∷ s) = is_digit c ≡ false

span_digits-append :
    (ds rest : Text) → All IsDigit ds → StopsDigits rest → span_digits (ds ++ rest) ≡ (ds, rest)
unfolding span_digits
span_digits-append [] [] _ _ = refl
span_digits-append [] (c ∷ rest) _ stop = rw stop refl
span_digits-append (c ∷ ds) rest (hc, hs) stop =
    rw ((is_digit_iff c).1 hc, span_digits-append ds rest hs stop) refl

pub digits1-append :
    (ds rest : Text)
    → All IsDigit ds
    → ds ≢ []
    → StopsDigits rest
    → digits1 (ds ++ rest) ≡ some (ds, rest)
unfolding digits1
digits1-append [] rest _ filled _ = absurd (filled refl)
digits1-append (c ∷ ds) rest h filled stop = rw (span_digits-append (c ∷ ds) rest h stop) refl

pub digits1_whole : (ds : Text) → All IsDigit ds → ds ≢ [] → digits1 ds ≡ some (ds, [])
digits1_whole ds h filled = (rw append-nil at (digits1-append ds [] h filled tt))

span_digits_sound :
    (s : Text)
    → (s ≡ (span_digits s).0 ++ (span_digits s).1)
      × All IsDigit (span_digits s).0
      × StopsDigits (span_digits s).1
unfolding span_digits
span_digits_sound [] = (refl, tt, tt)
span_digits_sound (c ∷ s) =
    let (whole, digits, stop) = span_digits_sound s in
    elim (Bool-cases (is_digit c)) [
      | inl d ↦ rw d (ap (λ t. c ∷ t) whole, ((is_digit_iff c).0 d, digits), stop)
      | inr other ↦ rw other (refl, tt, other)
    ]

nonempty_run_sound :
    (r : Text × Text) {ds rest : Text}
    → nonempty_run r ≡ some (ds, rest)
    → (r ≡ (ds, rest)) × (ds ≢ [])
unfolding nonempty_run
nonempty_run_sound ([], t) h = cc
nonempty_run_sound (c ∷ s, t) h = (cc, λ e. cc)

pub digits1_sound :
    (s : Text) {ds rest : Text}
    → digits1 s ≡ some (ds, rest)
    → (s ≡ ds ++ rest) × All IsDigit ds × (ds ≢ []) × StopsDigits rest
unfolding digits1
digits1_sound s h =
    let (same, filled) = nonempty_run_sound (span_digits s) h in
    let (whole, digits, stop) =
      subst (λ r. (s ≡ r.0 ++ r.1) × All IsDigit r.0 × StopsDigits r.1) same
        (span_digits_sound s) in
    (whole, digits, filled, stop)
