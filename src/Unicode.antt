-- ===== src/Unicode.antt =====
-- What pkg/non2xx_log.go uses of Go's `utf8` and `strings` on characters. A scan counts the bytes that
-- are left of the character it is in.
use github_update_go_watcher.Common.{
  ℕ, zero, suc, ◌+◌, ◌-◌, ◌*◌, ◌≤◌, Bool, true, false, not, ◌&&◌, [], ◌∷◌, ◌++◌, Text, ltb, leb,
  ◌=?◌, length, if◌then◌else◌, arith,
}

-- The bytes of a character by its first byte, 0 if no character begins with it.
unfoldable pub lead_width : ℕ → ℕ
lead_width a =
    if ltb a 0x80
    then 1
    else if leb 0xC2 a && leb a 0xDF
    then 2
    else if leb 0xE0 a && leb a 0xEF
    then 3
    else if leb 0xF0 a && leb a 0xF4
    then 4
    else 0

-- Whether a text begins with so many continuation bytes.
unfoldable pub continues : ℕ → Text → Bool
continues zero s = true
continues (suc n) [] = false
continues (suc n) (c ∷ s) = leb 0x80 c && leb c 0xBF && continues n s

-- The narrower range of a second byte: no overlong form, no surrogate, none above U+10FFFF.
unfoldable pub second_in_range : ℕ → Text → Bool
second_in_range a [] = true
second_in_range a (b ∷ s) =
    if a =? 0xE0
    then leb 0xA0 b
    else if a =? 0xED
    then leb b 0x9F
    else if a =? 0xF0
    then leb 0x90 b
    else if a =? 0xF4
    then leb b 0x8F
    else true

-- The bytes of the character at the front of a text, 0 if it begins with no valid one.
unfoldable pub rune_width : Text → ℕ
rune_width [] = 0
rune_width (a ∷ s) =
    if continues (lead_width a - 1) s && second_in_range a s then lead_width a else 0

-- `utf8.ValidString`
unfoldable pub is_valid : ℕ → Text → Bool
is_valid k [] = true
is_valid (suc k) (c ∷ s) = is_valid k s
is_valid zero (c ∷ s) = not (rune_width (c ∷ s) =? 0) && is_valid (rune_width (c ∷ s) - 1) s

-- `strings.ToValidUTF8`: each run of invalid bytes is replaced. The second argument tells whether the
-- byte in front was invalid.
unfoldable pub to_valid : Text → ℕ → Bool → Text → Text
to_valid replacement k inside [] = []
to_valid replacement (suc k) inside (c ∷ s) = c ∷ to_valid replacement k false s
to_valid replacement zero inside (c ∷ s) =
    let invalid = to_valid replacement zero true s in
    let valid = c ∷ to_valid replacement (rune_width (c ∷ s) - 1) false s in
    if not (rune_width (c ∷ s) =? 0)
    then valid
    else if inside
    then invalid
    else replacement ++ invalid

-- `utf8.RuneCountInString`; an invalid byte counts as one.
unfoldable pub rune_count : ℕ → Text → ℕ
rune_count k [] = 0
rune_count (suc k) (c ∷ s) = rune_count k s
rune_count zero (c ∷ s) = suc (rune_count (rune_width (c ∷ s) - 1) s)

-- The first characters, `string([]rune(s)[:n])` of a valid text.
unfoldable pub take_runes : ℕ → ℕ → Text → Text
take_runes n k [] = []
take_runes n (suc k) (c ∷ s) = c ∷ take_runes n k s
take_runes zero zero (c ∷ s) = []
take_runes (suc n) zero (c ∷ s) = c ∷ take_runes n (rune_width (c ∷ s) - 1) s

-- A character has at most four bytes.
rune_width_bounded : (s : Text) → rune_width s ≤ 4
unfolding rune_width lead_width
rune_width_bounded [] = omega arith
rune_width_bounded (a ∷ s) = ground arith

pub take_runes_bounded : (n k : ℕ) (s : Text) → length (take_runes n k s) ≤ 4 * n + k
unfolding take_runes
take_runes_bounded n k [] = omega arith
take_runes_bounded n (suc k) (c ∷ s) = omega (arith, take_runes_bounded n k s)
take_runes_bounded zero zero (c ∷ s) = omega arith
take_runes_bounded (suc n) zero (c ∷ s) =
    omega (arith, take_runes_bounded n (rune_width (c ∷ s) - 1) s, rune_width_bounded (c ∷ s))

pub rune_count_bounds : (k : ℕ) (s : Text) → length s ≤ 4 * rune_count k s + k
unfolding rune_count
rune_count_bounds k [] = omega arith
rune_count_bounds (suc k) (c ∷ s) = omega (arith, rune_count_bounds k s)
rune_count_bounds zero (c ∷ s) =
    omega (arith, rune_count_bounds (rune_width (c ∷ s) - 1) s, rune_width_bounded (c ∷ s))
