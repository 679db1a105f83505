-- ===== src/Plin/Bounds.antt =====
-- Where a predicted slot lies.
use plin_cloud_edge_device_l.Common.{
  All, ℕ, ◌+◌, ◌*◌, ◌%◌, ◌^◌, ◌≤◌, ◌<◌, ◌≡◌, refl, List, [], ◌∷◌, some, arith, length, get_elem?,
  get_elem?-of_lt,
}
use plin_cloud_edge_device_l.Common.Int.{ℤ, pos}
use plin_cloud_edge_device_l.Double.{Double}
use plin_cloud_edge_device_l.Plin.{Param, Params}
use plin_cloud_edge_device_l.Plin.Predict.{
  Arith, predict_block, segment, predict_level, predict_levels, predict_pos,
}

-- With at least four blocks in 32 bits the prediction names a block before the last one.
pub predict_block-lt :
    (a : Arith) (key slope intercept : Double) (n : ℕ)
    → 4 ≤ n
    → n < 2 ^ 32
    → predict_block a key slope intercept n + 1 < n
unfolding predict_block
predict_block-lt a key slope intercept n h w = ground arith

segment-lt : (value : Double) (ps : List Param) → 0 < length ps → segment value ps < length ps
unfolding segment
segment-lt value ps h = ground arith

-- A level that a node can have: some inner node, each of at least four blocks and of less than 2 ^ 28,
-- so that a slot is an `int`.
abbrev pub IsServable : List Param → Type 0
IsServable ps =
    (0 < length ps)
    × ((i : ℕ) (p : Param) → get_elem? ps i ≡ some p → (4 ≤ p.block_num) × (p.block_num < 2 ^ 28))

-- The first slot of a block of an inner node on the level, and not of its last block.
abbrev pub IsSlotOf : List Param → ℤ → Type 0
IsSlotOf ps r =
    (i : ℕ) × (p : Param) × (b : ℕ) × (get_elem? ps i ≡ some p)
    × (b + 1 < p.block_num)
    × (r ≡ pos (b * 8))

predict_level-slot :
    (a : Arith) (value : Double) (ps : List Param)
    → ((n : ℕ) → n < 2 ^ 31 → a.to_int (a.of_u64 n) ≡ pos n)
    → IsServable ps
    → (v : Double) × (predict_level a value ps ≡ some v) × IsSlotOf ps (a.to_int v)
unfolding predict_level
predict_level-slot a value ps exact (some_node, wide) =
    let (p, at) = get_elem?-of_lt ps (segment value ps) (segment-lt value ps some_node) in
    let (lo, hi) = wide _ p at in
    let narrow : p.block_num % 2 ^ 32 ≡ p.block_num = omega arith in
    let b = predict_block a value p.slope p.intercept (p.block_num % 2 ^ 32) in
    let inside : b + 1 < p.block_num % 2 ^ 32 =
      predict_block-lt a value p.slope p.intercept (p.block_num % 2 ^ 32) (omega arith)
        (omega arith) in
    (
      a.of_u64 (b * 8),
      rw (at, predict_level) refl,
      (segment value ps, p, b, at, omega arith, exact (b * 8) (omega arith)),
    )

predict_levels_total :
    (a : Arith) (levels : Params) (key : Double)
    → ((n : ℕ) → n < 2 ^ 31 → a.to_int (a.of_u64 n) ≡ pos n)
    → All IsServable levels
    → (v : Double) × (predict_levels a levels key ≡ some v)
unfolding predict_levels
predict_levels_total a [] key exact h = (key, refl)
predict_levels_total a (ps ∷ above) key exact (h, hs) =
    let (v, e) = predict_levels_total a above key exact hs in
    let (w, e', _) = predict_level-slot a v ps exact h in (w, rw (e, predict_levels) e')

predict_pos-cons :
    (a : Arith) (ps : List Param) (above : Params) (key v w : Double)
    → predict_levels a above key ≡ some v
    → predict_level a v ps ≡ some w
    → predict_pos a (ps ∷ above) key ≡ some (a.to_int w)
unfolding predict_pos predict_levels
predict_pos-cons a ps above key v w e e' = ground arith

-- On parameters of which each level has a node and each node at least four blocks, the prediction is
-- defined for every key, and is the first slot of a block of a node of the lowest level, and not of the
-- last block of that node. Slots below 2 ^ 31 are taken to survive the conversion to a double and back.
pub predict_pos-slot :
    (a : Arith) (ps : List Param) (above : Params) (key : Double)
    → ((n : ℕ) → n < 2 ^ 31 → a.to_int (a.of_u64 n) ≡ pos n)
    → IsServable ps
    → All IsServable above
    → (r : ℤ) × (predict_pos a (ps ∷ above) key ≡ some r) × IsSlotOf ps r
predict_pos-slot a ps above key exact h hs =
    let (v, e) = predict_levels_total a above key exact hs in
    let (w, e', slot) = predict_level-slot a v ps exact h in
    (a.to_int w, predict_pos-cons a ps above key v w e e', slot)
