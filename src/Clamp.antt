-- ===== src/Clamp.antt =====
-- pkg/mathutil/clamp.go.
use github_update_go_watcher.Common.{
  ◌+◌, ◌≡◌, ◌≤◌, ◌⊎◌, arith, Bool, true, ltb, ℤ, pos_part, neg_part, if◌then◌else◌,
}

-- `a < b`
abbrev pub is_less : ℤ → ℤ → Bool
is_less a b = ltb (pos_part a + neg_part b) (pos_part b + neg_part a)

-- The body once the bounds are in order.
unfoldable pub clamp_between : ℤ → ℤ → ℤ → ℤ
clamp_between value low high =
    if is_less value low then low else if is_less high value then high else value

unfoldable pub clamp : ℤ → ℤ → ℤ → ℤ
clamp value low high =
    if is_less high low then clamp_between value high low else clamp_between value low high

abbrev pub AtMost : ℤ → ℤ → Type 0
AtMost a b = pos_part a + neg_part b ≤ pos_part b + neg_part a

-- Within the bounds the value is returned, and beyond one of them this bound.
abbrev pub Nearest : ℤ → ℤ → ℤ → ℤ → Type 0
Nearest value low high result =
    (AtMost low value × AtMost value high × (result ≡ value))
    ⊎ ((is_less value low ≡ true) × (result ≡ low))
    ⊎ ((is_less high value ≡ true) × (result ≡ high))

-- The smaller and the larger of the two bounds.
abbrev pub lower : ℤ → ℤ → ℤ
lower low high = if is_less high low then high else low

abbrev pub upper : ℤ → ℤ → ℤ
upper low high = if is_less high low then low else high

-- The result lies between the smaller and the larger bound, in whichever order they are given; it is
-- the value if that does, else the bound that the value passes.
pub clamp-Nearest :
    (value low high : ℤ)
    → AtMost (lower low high) (clamp value low high)
      × AtMost (clamp value low high) (upper low high)
      × Nearest value (lower low high) (upper low high) (clamp value low high)
unfolding clamp clamp_between
clamp-Nearest value low high = ground arith
