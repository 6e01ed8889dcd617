-- ===== src/Version/Order.antt =====
-- The order of pkg/version.go is the lexicographic order of major, minor and patch.
use github_update_go_watcher.Common.{
  ◌<◌, ◌≤◌, ◌≡◌, ◌↔◌, ◌⊎◌, inl, inr, Bool-cases, arith, true, false, pos_part, neg_part,
}
use github_update_go_watcher.Version.{Version, less, compare}
use github_update_go_watcher.Version.Decimal.{max_int}

-- Every field fits in an `int`.
pub record IsBounded (v : Version) : Type 0 where
  pub major_fits : v.major ≤ max_int
  pub minor_fits : v.minor ≤ max_int
  pub patch_fits : v.patch ≤ max_int

abbrev pub SameNumber : Version → Version → Type 0
SameNumber v w = (v.major ≡ w.major) × (v.minor ≡ w.minor) × (v.patch ≡ w.patch)

-- By major, then minor, then patch.
abbrev pub Precedes : Version → Version → Type 0
Precedes v w =
    (v.major < w.major)
    ⊎ ((v.major ≡ w.major) × (v.minor < w.minor))
    ⊎ ((v.major ≡ w.major) × (v.minor ≡ w.minor) × (v.patch < w.patch))

-- `Less` holds exactly when the first version precedes the second, by major, then minor, then patch.
pub less-Precedes : (v w : Version) → (less v w ≡ true) ↔ Precedes v w
unfolding less
less-Precedes v w = ground arith

pub less_irrefl : (v : Version) → less v v ≡ false
unfolding less
less_irrefl v = ground arith

pub less_trans : (u v w : Version) → less u v ≡ true → less v w ≡ true → less u w ≡ true
less_trans u v w p q =
    (less-Precedes u w).1
      (let a = (less-Precedes u v).0 p in let b = (less-Precedes v w).0 q in omega arith)

Precedes-total : (v w : Version) → Precedes v w ⊎ Precedes w v ⊎ SameNumber v w
Precedes-total v w = omega arith

-- Of two versions one is less, or they have the same number.
pub less_total : (v w : Version) → (less v w ≡ true) ⊎ (less w v ≡ true) ⊎ SameNumber v w
less_total v w = elim (Precedes-total v w) [
  | inl p ↦ inl ((less-Precedes v w).1 p)
  | inr (inl q) ↦ inr (inl ((less-Precedes w v).1 q))
  | inr (inr e) ↦ inr (inr e)
]

-- For fields that fit in an `int` the difference fits too, so the subtraction never wraps.
compare_bounds :
    (v w : Version)
    → IsBounded v
    → IsBounded w
    → (pos_part (compare v w) ≤ max_int) × (neg_part (compare v w) ≤ max_int)
unfolding compare
compare_bounds v w hv hw = ground arith

-- What is not before a version is not before what stands behind it.
pub less-false_left : (x v w : Version) → less w v ≡ true → less x v ≡ false → less x w ≡ false
less-false_left x v w p q = elim (Bool-cases (less x w)) [
  | inr no_less ↦ no_less
  | inl h ↦ let k = less_trans x w v h p in cc
]

pub less-false_trans : (x v w : Version) → less w v ≡ false → less x w ≡ false → less x v ≡ false
less-false_trans x v w p q = elim (Bool-cases (less x v)) [
  | inr no_less ↦ no_less
  | inl h ↦ elim (Precedes-total w v) [
    | inl before ↦ let k = (less-Precedes w v).1 before in cc
    | inr (inl behind) ↦ let k = less_trans x v w h ((less-Precedes v w).1 behind) in cc
    | inr (inr same) ↦
        let k : less x w ≡ true =
          (less-Precedes x w).1 (let a = (less-Precedes x v).0 h in omega arith) in
        cc
  ]
]
