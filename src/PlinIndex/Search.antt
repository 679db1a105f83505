-- ===== src/PlinIndex/Search.antt =====
-- The search in one inner node: `find_leaf_node` and `upsert_node` of src/core/index/inner_node.h.
use plin_cloud_edge_device_l.Common.{
  ℕ, zero, suc, ◌+◌, ◌-◌, ◌*◌, ◌%◌, ◌^◌, ◌<◌, ◌≤◌, ◌≡◌, refl, sym, ap, ◌∙◌, inl, inr, true, false,
  not, ◌&&◌, ◌||◌, List, some, ltb, if◌then◌else◌, length, get_elem?, arith, Bool-cases, ◌==◌,
  lt-of_get_elem?, get_elem?-of_lt,
}
use mathlib.Core.Option.{some-injective}
use plin_cloud_edge_device_l.Common.Int.{ltb_ℤ}
use plin_cloud_edge_device_l.Double.{
  Double, double_le, double_lt, double_le_trans, lt→le, lt→not_le, le→not_gt,
}
use plin_cloud_edge_device_l.Plin.Predict.{Arith, predict_block}
use plin_cloud_edge_device_l.Plin.Bounds.{predict_block-lt}
use plin_cloud_edge_device_l.PlinIndex.Slot
use plin_cloud_edge_device_l.PlinIndex.Slot.{InnerSlot}
use plin_cloud_edge_device_l.PlinIndex.Inner.{
  is_free, search_left, search_right, start_slot, search, before,
}

-- A used slot, by its place.
abbrev pub Used : List InnerSlot → ℕ → InnerSlot → Type 0
Used slots i s = (get_elem? slots i ≡ some s) × (is_free s ≡ false)

-- All the slots from one place up to another are used.
abbrev pub Filled : List InnerSlot → ℕ → ℕ → Type 0
Filled slots i j = (r : ℕ) → i ≤ r → r ≤ j → (s : InnerSlot) × Used slots r s

-- The keys of the used slots go up, and each slot lies in the block that the model predicts for it or,
-- behind it, after used slots only.
pub record IsPlaced (a : Arith) (accelerator : InnerSlot) (slots : List InnerSlot) : Type 0 where
  pub sorted :
      (i j : ℕ) (s t : InnerSlot)
      → i < j
      → Used slots i s
      → Used slots j t
      → double_lt s.min_key t.min_key ≡ true
  pub placed :
      (i : ℕ) (s : InnerSlot)
      → Used slots i s
      → (start_slot a accelerator s.min_key ≤ i)
        × Filled slots (start_slot a accelerator s.min_key) i

search_left_step :
    (slots : List InnerSlot) (slot : ℕ) (s : InnerSlot)
    → get_elem? slots slot ≡ some s
    → search_left slots (suc slot) ≡ (if is_free s then search_left slots slot else some slot)
search_left_step slots slot s e = unfold search_left in rw (e, search_left) refl

search_right_step :
    (rounds : ℕ) (slots : List InnerSlot) (key : Double) (slot : ℕ) (s : InnerSlot)
    → get_elem? slots slot ≡ some s
    → search_right (suc rounds) slots key slot ≡ (
        if not (is_free s) && double_le s.min_key key
        then search_right rounds slots key (suc slot)
        else before slot)
search_right_step rounds slots key slot s e = unfold search_right in rw (e, search_right) refl

search_left_lem :
    (slots : List InnerSlot) (slot target : ℕ) (t : InnerSlot)
    → target < slot
    → slot ≤ length slots
    → Used slots target t
    → ((r : ℕ) (s : InnerSlot) → target < r → r < slot → Used slots r s → ⊥)
    → search_left slots slot ≡ some target
unfolding search_left
search_left_lem slots zero target t lt bound u none_between = absurd (omega arith)
search_left_lem slots (suc slot) target t lt bound (e, used) none_between =
    elim (Bool-cases (target == slot)) [
      | inl same ↦
          let q : slot ≡ target = ground (arith, same) in
          rw q (search_left_step slots target t e ∙ rw used refl)
      | inr other ↦
          let further : target < slot = ground (arith, other) in
          let (s, here) = get_elem?-of_lt slots slot (omega arith) in
          let ih =
            search_left_lem slots slot target t further (omega arith) (e, used)
              (λ r s' p q. none_between r s' p (omega (arith, q))) in
          elim (Bool-cases (is_free s)) [
            | inl free ↦ search_left_step slots slot s here ∙ rw free ih
            | inr full ↦ absurd (none_between slot s further (omega arith) (here, full))
          ]
    ]

search_right_lem :
    (rounds : ℕ) (slots : List InnerSlot) (key : Double) (slot target : ℕ)
    → slot ≤ suc target
    → suc target ≤ slot + rounds
    → ((r : ℕ)
        → slot ≤ r
        → r ≤ target
        → (s : InnerSlot) × Used slots r s × (double_le s.min_key key ≡ true))
    → (suc target < slot + rounds → suc target < length slots)
    → ((s : InnerSlot) → Used slots (suc target) s → double_le s.min_key key ≡ false)
    → search_right rounds slots key slot ≡ some target
unfolding search_right
search_right_lem zero slots key slot target low high filled bound stop =
    let q : slot ≡ suc target = omega (arith, low, high) in rw q refl
search_right_lem (suc rounds) slots key slot target low high filled bound stop =
    elim (Bool-cases (slot == suc target)) [
      | inl same ↦
          let q : slot ≡ suc target = ground (arith, same) in
          let (s, here) = get_elem?-of_lt slots (suc target) (bound (omega (arith, q))) in
          elim (Bool-cases (is_free s)) [
            | inl free ↦
                rw q (search_right_step rounds slots key (suc target) s here ∙ rw free refl)
            | inr full ↦ rw q (
                search_right_step rounds slots key (suc target) s here
                ∙ rw (full, stop s (here, full)) refl)
          ]
      | inr other ↦
          let lt : slot ≤ target = ground (arith, other, low) in
          let (s, u, le) = filled slot (omega arith) lt in
          search_right_step rounds slots key slot s u.0
          ∙ rw (u.1, le)
              (search_right_lem rounds slots key (suc slot) target (omega (arith, lt))
                (omega (arith, high)) (λ r p q. filled r (omega (arith, p)) q)
                (λ p. bound (omega (arith, p))) stop)
    ]

-- The processor's arithmetic keeps the order of keys on the accelerator's line, as it does on one that
-- does not fall.
abbrev pub IsRising : Arith → InnerSlot → Type 0
IsRising a s =
    (x y : Double)
    → double_le x y ≡ true
    → ltb_ℤ (a.block_at y s.slope s.intercept) (a.block_at x s.slope s.intercept) ≡ false

-- A model of a node with its blocks: at least four of them.
pub record IsModel (a : Arith) (accelerator : InnerSlot) (slots : List InnerSlot) : Type 0 where
  pub rising : IsRising a accelerator
  pub four : 4 ≤ Slot.block_number accelerator
  pub blocks : length slots ≡ Slot.block_number accelerator * 8

block_number-lt : (s : InnerSlot) → Slot.block_number s < 2 ^ 29
block_number-lt s = unfold Slot.block_number in omega arith

pub start_slot_le :
    (a : Arith) (s : InnerSlot) (x y : Double)
    → IsRising a s
    → 4 ≤ Slot.block_number s
    → double_le x y ≡ true
    → start_slot a s x ≤ start_slot a s y
unfolding predict_block
start_slot_le a s x y rising four le = ground (arith, rising x y le, block_number-lt s)

pub start_slot-lt :
    (a : Arith) (s : InnerSlot) (x : Double)
    → 4 ≤ Slot.block_number s
    → start_slot a s x + 8 < Slot.block_number s * 8
start_slot-lt a s x four = omega (
  arith,
  predict_block-lt a x s.slope s.intercept (Slot.block_number s) four
      (omega (arith, block_number-lt s)),
)

module _ (a : Arith) (acc : InnerSlot) (slots : List InnerSlot) (m : IsModel a acc slots)
    (w : IsPlaced a acc slots) (key : Double) (target : ℕ) (t : InnerSlot) (u : Used slots target t)
    (le : double_le t.min_key key ≡ true)
    (last : (j : ℕ) (s : InnerSlot)
      → target < j
      → Used slots j s
      → double_lt key s.min_key ≡ true) where
  -- From the predicted slot up to the target all slots are used, with keys not above the key.
  between :
      (r : ℕ)
      → start_slot a acc key ≤ r
      → r ≤ target
      → (s : InnerSlot) × Used slots r s × (double_le s.min_key key ≡ true)
  between r low high =
      let (s, used) =
        (w.placed target t u).1 r
          (omega (arith, low, start_slot_le a acc t.min_key key m.rising m.four le)) high in
      (
        s,
        used,
        elim (Bool-cases (r == target)) [
          | inl same ↦
              let q : t ≡ s =
                some-injective _ _
                  (sym u.0 ∙ ap (get_elem? slots) (sym (ground (arith, same))) ∙ used.0) in
              rw (← q) le
          | inr other ↦
              double_le_trans s.min_key t.min_key key
                (lt→le _ _ (w.sorted r target s t (ground (arith, other)) used u)) le
        ],
      )

  none_between :
      (r : ℕ) (s : InnerSlot) → target < r → r < start_slot a acc key → Used slots r s → ⊥
  none_between r s low high used =
      let gt = last r s low used in
      let p = (w.placed r s used).0 in
      let q = start_slot_le a acc key s.min_key m.rising m.four (lt→le _ _ gt) in
      omega (arith, high, p, q)

  goes_left :
      (s : InnerSlot)
      → get_elem? slots (start_slot a acc key) ≡ some s
      → (is_free s || double_lt key s.min_key) ≡ true
      → target < start_slot a acc key
  goes_left s here h = elim (Bool-cases (ltb target (start_slot a acc key))) [
    | inl t1 ↦ ground (arith, t1)
    | inr f1 ↦
        let (s', used, below) = between (start_slot a acc key) (omega arith) (ground (arith, f1)) in
        let e = some-injective _ _ (sym used.0 ∙ here) in
        absurd (ground (arith, h, rw e at used.1, le→not_gt s.min_key key (rw e at below)))
  ]

  goes_right :
      (s : InnerSlot)
      → get_elem? slots (start_slot a acc key) ≡ some s
      → (is_free s || double_lt key s.min_key) ≡ false
      → start_slot a acc key ≤ target
  goes_right s here h = elim (Bool-cases (ltb target (start_slot a acc key))) [
    | inl t1 ↦ absurd (
        ground
          (arith, h, last (start_slot a acc key) s (ground (arith, t1)) (here, ground (arith, h))))
    | inr f1 ↦ ground (arith, f1)
  ]

  found_right :
      (s : InnerSlot)
      → get_elem? slots (start_slot a acc key) ≡ some s
      → (is_free s || double_lt key s.min_key) ≡ false
      → search_right
          (Slot.block_number acc * 8 % 2 ^ 32 - start_slot a acc key)
          slots
          key
          (start_slot a acc key)
        ≡ some target
  found_right s here h =
      let low = goes_right s here h in
      let inside = lt-of_get_elem? slots target u.0 in
      let small = block_number-lt acc in
      search_right_lem (Slot.block_number acc * 8 % 2 ^ 32 - start_slot a acc key) slots key
        (start_slot a acc key) target (omega (arith, low))
        (omega (arith, low, inside, small, m.blocks)) between
        (λ p. omega (arith, p, low, inside, small, m.blocks))
        (λ s' u'. lt→not_le key s'.min_key (last (suc target) s' (omega arith) u'))

  -- In a node whose slots are placed by its model, the search for a key comes to the last slot with a key
  -- not above it, if there is one.
  pub search_lem : search a slots acc key ≡ some target
  unfolding search
  search_lem =
      let inside = start_slot-lt a acc key m.four in
      let (s, here) =
        get_elem?-of_lt slots (start_slot a acc key) (omega (arith, inside, m.blocks)) in
      elim (Bool-cases (is_free s || double_lt key s.min_key)) [
        | inl h ↦
            rw (here, search)
              (rw h (
                search_left_lem slots (start_slot a acc key) target t (goes_left s here h)
                  (omega (arith, inside, m.blocks)) u none_between))
        | inr h ↦ rw (here, search) (rw h (found_right s here h))
      ]
