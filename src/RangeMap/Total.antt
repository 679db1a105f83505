-- ===== src/RangeMap/Total.antt =====
-- `RangeMap::locate_end` (src/common/range_map.cpp) on any list of ends and any key.
use plin_cloud_edge_device_l.Common.{
  ℕ, zero, suc, ◌+◌, ◌-◌, ◌/◌, ◌≤◌, ◌<◌, ◌≡◌, refl, inl, inr, List, [], ◌∷◌, some, true, arith,
  length, get_elem?, Bool-cases, ◌==◌, le→leb, get_elem?-of_lt,
}
use plin_cloud_edge_device_l.Common.Int.{ℤ, negsuc}
use plin_cloud_edge_device_l.Double.{Double, is_nan, double_lt, nan-double_lt, double_lt-nan}
use plin_cloud_edge_device_l.RangeMap.Step.{step_empty}
use plin_cloud_edge_device_l.RangeMap.{EndInfo, locate_loop, locate, locate_end}
use native.Mathlib.Decide.{dec_le, dec_lt}

-- One round of the loop returns, if its two recursive calls do.
round_total :
    (ends : List EndInfo) (k : Double) (fuel lo hi : ℕ) (e : EndInfo) (l r : ℤ)
    → lo ≤ hi
    → get_elem? ends ((lo + hi) / 2) ≡ some e
    → (0 < (lo + hi) / 2 → locate_loop fuel ends k lo ((lo + hi) / 2 - 1) ≡ some l)
    → locate_loop fuel ends k ((lo + hi) / 2 + 1) hi ≡ some r
    → (v : ℤ) × (locate_loop (suc fuel) ends k lo hi ≡ some v)
unfolding locate_loop
round_total ends k fuel lo hi e l r h at left right = elim (Bool-cases (double_lt k e.key_lo)) [
  | inl p ↦ elim (Bool-cases ((lo + hi) / 2 == 0)) [
    | inl z ↦ (negsuc 0, rw (le→leb lo hi h, at, p, z))
    | inr z ↦ (l, rw (le→leb lo hi h, at, p, z) (left (ground arith)))
  ]
  | inr p ↦ elim (Bool-cases (double_lt e.key_hi k)) [
    | inl q ↦ (r, rw (le→leb lo hi h, at, p, q) right)
    | inr q ↦ (e.id, rw (le→leb lo hi h, at, p, q))
  ]
]

locate_loop_total :
    (ends : List EndInfo) (k : Double) (fuel lo hi : ℕ)
    → hi + 1 < lo + fuel
    → lo ≤ hi + 1
    → hi < length ends
    → (r : ℤ) × (locate_loop fuel ends k lo hi ≡ some r)
locate_loop_total ends k zero lo hi m w b = absurd (omega arith)
locate_loop_total ends k (suc fuel) lo hi m w b = elim (dec_le lo hi) [
  | no h ↦ (negsuc 0, step_empty ends k fuel lo hi (omega arith))
  | yes h ↦
      let (e, at) = get_elem?-of_lt ends ((lo + hi) / 2) (omega arith) in
      let (r, right) =
        locate_loop_total ends k fuel ((lo + hi) / 2 + 1) hi (omega arith) (omega arith) b in
      elim (dec_lt 0 ((lo + hi) / 2)) [
        | no z ↦ round_total ends k fuel lo hi e r r h at (λ q. absurd (z q)) right
        | yes z ↦
            let (l, left) =
              locate_loop_total ends k fuel lo ((lo + hi) / 2 - 1) (omega arith) (omega arith)
                (omega arith) in
            round_total ends k fuel lo hi e l r h at (λ _. left) right
      ]
]

-- On every list of ends, in order or not, and on every key, a NaN among them, the search ends within
-- its fuel and reads the vector in range only.
pub locate_total : (ends : List EndInfo) (k : Double) → (r : ℤ) × (locate ends k ≡ some r)
unfolding locate
locate_total [] k = (negsuc 0, refl)
locate_total (e ∷ ends) k =
    locate_loop_total (e ∷ ends) k (suc (suc (length ends))) 0 (length ends) (omega arith)
      (omega arith) (omega arith)

-- A NaN is taken for a key of the end in the middle of a list that is not empty.
pub locate_end-nan :
    (ends : List EndInfo) (k : Double) (m : EndInfo)
    → is_nan k ≡ true
    → get_elem? ends ((length ends - 1) / 2) ≡ some m
    → locate_end ends k ≡ m.id
unfolding locate_end locate locate_loop
locate_end-nan [] k m nan at = cc
locate_end-nan (e ∷ ends) k m nan at =
    let at' : get_elem? (e ∷ ends) ((0 + length ends) / 2) ≡ some m = ground arith in
    rw
      (
        le→leb 0 (length ends) (omega arith),
        at',
        nan-double_lt k m.key_lo nan,
        double_lt-nan m.key_hi k nan,
      )
      refl
