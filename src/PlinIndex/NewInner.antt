-- ===== src/PlinIndex/NewInner.antt =====
-- The constructor of src/core/index/inner_node.h: the search finds what it puts into the node.
use plin_cloud_edge_device_l.Common.{
  ℕ, zero, suc, ◌%◌, ◌^◌, ◌<◌, ◌≤◌, ◌≡◌, refl, sym, ap, ◌∙◌, inl, inr, true, List, [], ◌∷◌, some,
  length-replicate, length, get_elem?, replicate, arith, Bool-cases, Option-cases,
}
use mathlib.Core.Path.{subst}
use mathlib.Core.Option.{some-injective}
use plin_cloud_edge_device_l.Double.{
  is_nan, double_eq_refl, Double, double_le, double_lt, not_lt→double_le, le→not_gt, double_lt→lt,
  double_le_numbers,
}
use plin_cloud_edge_device_l.Plin.Predict.{Arith}
use plin_cloud_edge_device_l.PlinIndex.Slot
use plin_cloud_edge_device_l.PlinIndex.Slot.{InnerSlot, describe_lem}
use plin_cloud_edge_device_l.PlinIndex.Inner.{
  InnerNode, place_all, search, last_key, new_inner, empty_node, build_accelerator,
}
use plin_cloud_edge_device_l.PlinIndex.{free_flag}
use plin_cloud_edge_device_l.PlinIndex.Model.{Line, inner_line}
use plin_cloud_edge_device_l.PlinIndex.Search.{IsRising, search_lem, Used, IsPlaced, IsModel}
use plin_cloud_edge_device_l.PlinIndex.Placement.{IsDescribed}
use plin_cloud_edge_device_l.PlinIndex.Filling.{IsFilled, IsRows, place_all_lem}

get_elem?-replicate : (n i : ℕ) (s t : InnerSlot) → get_elem? (replicate n s) i ≡ some t → t ≡ s
get_elem?-replicate zero i s t h = cc
get_elem?-replicate (suc n) zero s t h = sym (some-injective _ _ h)
get_elem?-replicate (suc n) (suc i) s t h = get_elem?-replicate n i s t h

none-Used :
    (n i : ℕ) (garbage t : InnerSlot)
    → Used (replicate n (record garbage { min_key = free_flag })) i t
    → ⊥
none-Used n i garbage t (e, used) =
    let same = get_elem?-replicate n i (record garbage { min_key = free_flag }) t e in
    ground (arith, rw same at used, double_eq_refl free_flag (unfold is_nan in refl))

module _ (a : Arith) (accelerator garbage : InnerSlot) (line : Line)
    (block_number number level ptr : ℕ) (first_key : Double) (four : 4 ≤ block_number)
    (small : block_number < 2 ^ 29) where
  abbrev empty : InnerNode
  empty = empty_node garbage line block_number number first_key level

  abbrev built : InnerSlot
  built = build_accelerator accelerator line block_number first_key ptr

  block_number_kept : Slot.block_number built ≡ block_number % 2 ^ 32
  block_number_kept = (describe_lem (block_number % 2 ^ 32) true _ (omega arith)).0.0

  empty-IsDescribed : IsDescribed built empty
  unfolding Slot.describe Slot.init_lock Slot.set_type Slot.set_block_number
  empty-IsDescribed = record {
    slope = refl;
    intercept = refl;
    block_number = sym block_number_kept;
  }

  empty-IsModel : IsRising a built → IsModel a built empty.slots
  empty-IsModel rising = record {
    rising = rising;
    four = omega (arith, block_number_kept);
    blocks = length-replicate _ _ ∙ omega (arith, block_number_kept);
  }

  empty-IsPlaced : IsPlaced a built empty.slots
  empty-IsPlaced = record {
    sorted = λ i j s t lt u v. absurd (none-Used _ i garbage s u);
    placed = λ i s u. absurd (none-Used _ i garbage s u);
  }

  filled_lem :
      (n : InnerNode) (rows : List (Double × InnerSlot))
      → IsRows rows
      → IsRising a built
      → place_all a empty rows ≡ some n
      → IsModel a built n.slots × IsFilled a built empty.slots n.slots rows
  filled_lem n rows r rising e =
      let model = empty-IsModel rising in
      let f =
        place_all_lem a built empty n rows model empty-IsDescribed empty-IsPlaced r
          (λ i j k s t u q. absurd (none-Used _ i garbage s u)) e in
      (record { rising = rising; four = model.four; blocks = f.size ∙ model.blocks }, f)

new_inner_lem :
    (a : Arith) (accelerator garbage acc s : InnerSlot) (ptr block_number start_pos level : ℕ)
    (k : Double) (rows : List (Double × InnerSlot)) (line : Line) (n : InnerNode)
    → new_inner a accelerator garbage ptr block_number ((k, s) ∷ rows) start_pos line level
      ≡ some (n, acc)
    → let corrected = inner_line a line block_number start_pos k (last_key k rows) in
      (place_all a
          (empty_node garbage corrected block_number (suc (length rows)) k level)
          ((k, s) ∷ rows)
        ≡ some n)
      × (build_accelerator accelerator corrected block_number k ptr ≡ acc)
unfolding new_inner
new_inner_lem a accelerator garbage acc s ptr block_number start_pos level k rows line n h =
    let corrected = inner_line a line block_number start_pos k (last_key k rows) in
    let node = empty_node garbage corrected block_number (suc (length rows)) k level in
    elim (Option-cases (place_all a node ((k, s) ∷ rows))) [
      | inl e ↦ cc (rw (e, new_inner) at h)
      | inr (n', e) ↦
          let both : (n', build_accelerator accelerator corrected block_number k ptr) ≡ (n, acc) =
            some-injective _ _ (rw (e, new_inner) at h) in
          (e ∙ ap (λ x. some x.0) both, ap (λ x. x.1) both)
    ]

row_key :
    (rows : List (Double × InnerSlot)) (i : ℕ) (k : Double) (s : InnerSlot)
    → IsRows rows
    → get_elem? rows i ≡ some (k, s)
    → k ≡ s.min_key
row_key [] i k s r e = cc
row_key ((k', s') ∷ rows) zero k s r e =
    let same : (k', s') ≡ (k, s) = some-injective _ _ e in
    cc (r.0, ap (λ x. x.0) same, ap (λ x. x.1) same)
row_key ((k', s') ∷ rows) (suc i) k s r e = row_key rows i k s (r.3) e

-- A key above the last one not above the key is above the key.
double_lt_last :
    (key k j : Double)
    → double_le k key ≡ true
    → (double_le j key ≡ true → double_le j k ≡ true)
    → double_lt k j ≡ true
    → double_lt key j ≡ true
double_lt_last key k j le last gt = elim (Bool-cases (double_lt key j)) [
  | inl t ↦ t
  | inr f ↦
      let (number, number') = double_le_numbers k key le in
      let below = not_lt→double_le key j number' (double_lt→lt k j gt).1 f in
      absurd (ground (arith, le→not_gt j k (last below), gt))
]

-- In a node that the constructor has made of rows with rising keys, the search for a key comes to the slot
-- of the last row with a key not above it, if there is one. Each row's key is that of its slot, and none
-- marks a free slot; the node has four blocks or more, in 29 bits, and the constructor fails no assertion;
-- and the line of the accelerator is one on which the arithmetic keeps the order of keys.
pub search-new_inner :
    (a : Arith) (accelerator garbage acc : InnerSlot) (ptr block_number start_pos level : ℕ)
    (rows : List (Double × InnerSlot)) (line : Line) (n : InnerNode) (key k : Double) (i : ℕ)
    (s : InnerSlot)
    → IsRows rows
    → 4 ≤ block_number
    → block_number < 2 ^ 29
    → new_inner a accelerator garbage ptr block_number rows start_pos line level ≡ some (n, acc)
    → IsRising a acc
    → get_elem? rows i ≡ some (k, s)
    → double_le k key ≡ true
    → ((j : ℕ) (k' : Double) (s' : InnerSlot)
        → get_elem? rows j ≡ some (k', s')
        → double_le k' key ≡ true
        → double_le k' k ≡ true)
    → (slot : ℕ) × (search a n.slots acc key ≡ some slot) × (get_elem? n.slots slot ≡ some s)
search-new_inner a accelerator garbage acc ptr block_number start_pos level [] line n key k i s r
      four small h rising e le last =
    cc
search-new_inner a accelerator garbage acc ptr block_number start_pos level ((k0, s0) ∷ rest) line n
      key k i s r four small h rising e le last =
    let rows = (k0, s0) ∷ rest in
    let corrected = inner_line a line block_number start_pos k0 (last_key k0 rest) in
    let (filled, to_acc) =
      new_inner_lem a accelerator garbage acc s0 ptr block_number start_pos level k0 rest line n
        h in
    let (model, f) =
      filled_lem a accelerator garbage corrected block_number (suc (length rest)) level ptr k0 four
        small n rows r (subst (IsRising a) (sym to_acc) rising) filled in
    let (slot, u) = f.rows_in i k s e in
    let same = row_key rows i k s r e in
    let after = λ (j : ℕ) (t : InnerSlot) (lt : slot < j) (v : Used n.slots j t).
      elim (f.from j t v) as (λ x. double_lt key t.min_key ≡ true) [
        | inl v' ↦ absurd (none-Used _ j garbage t v')
        | inr (j', k', e') ↦
            double_lt_last key s.min_key t.min_key (rw (← same) le)
              (rw (← same, ← row_key rows j' k' t r e') (last j' k' t e'))
              (f.placed.sorted slot j s t lt u v)
      ] in
    (
      slot,
      ap (λ x. search a n.slots x key) (sym to_acc)
          ∙ search_lem a _ n.slots model f.placed key slot s u (rw (← same) le) after,
      u.0,
    )
