-- ===== src/PlinIndex/Placement.antt =====
-- The constructor of src/core/index/inner_node.h: where it puts the slots, and that the search finds them.
use plin_cloud_edge_device_l.Common.{
  ℕ, zero, suc, ◌+◌, ◌-◌, ◌*◌, ◌<◌, ◌≤◌, ◌≡◌, refl, sym, ap, ◌∙◌, inl, inr, true, List, none, some,
  ltb, ◌==◌, if◌then◌else◌, length, get_elem?, set, arith, Bool-cases, Option-cases,
  get_elem?-of_lt,
}
use mathlib.Core.Option.{some-injective}
use plin_cloud_edge_device_l.Double.{Double}
use plin_cloud_edge_device_l.Plin.Predict.{Arith, predict_block}
use plin_cloud_edge_device_l.PlinIndex.Slot
use plin_cloud_edge_device_l.PlinIndex.Slot.{InnerSlot}
use plin_cloud_edge_device_l.PlinIndex.Inner.{
  InnerNode, is_free, first_free, free_place, data_placement, start_slot,
}
use plin_cloud_edge_device_l.PlinIndex.Search.{Used}

-- All the slots from one place up to another, that one left out, are used.
abbrev pub UsedUpTo : List InnerSlot → ℕ → ℕ → Type 0
UsedUpTo slots i j = (r : ℕ) → i ≤ r → r < j → (s : InnerSlot) × Used slots r s

first_free_step :
    (rounds : ℕ) (slots : List InnerSlot) (slot : ℕ) (s : InnerSlot)
    → get_elem? slots slot ≡ some s
    → first_free (suc rounds) slots slot
      ≡ (if is_free s then some slot else first_free rounds slots (suc slot))
first_free_step rounds slots slot s e = unfold first_free in rw (e, first_free) refl

UsedUpTo-suc :
    (slots : List InnerSlot) (i j : ℕ) (s : InnerSlot)
    → Used slots i s
    → UsedUpTo slots (suc i) j
    → UsedUpTo slots i j
UsedUpTo-suc slots i j s u h r low high = elim (Bool-cases (r == i)) [
  | inl same ↦ let q : r ≡ i = ground (arith, same) in rw q (s, u)
  | inr other ↦ h r (ground (arith, other, low)) high
]

first_free-some :
    (rounds : ℕ) (slots : List InnerSlot) (slot target : ℕ)
    → first_free rounds slots slot ≡ some target
    → (slot ≤ target)
      × ((s : InnerSlot) × (get_elem? slots target ≡ some s) × (is_free s ≡ true))
      × UsedUpTo slots slot target
first_free-some zero slots slot target h = unfold first_free in cc h
first_free-some (suc rounds) slots slot target h = elim (Option-cases (get_elem? slots slot)) [
  | inl n ↦ unfold first_free in cc (rw (n, first_free) at h)
  | inr (s, n) ↦
      let h' = sym (first_free_step rounds slots slot s n) ∙ h in
      elim (Bool-cases (is_free s)) [
        | inl free ↦
            let q : slot ≡ target = some-injective _ _ (rw free at h') in
            rw (← q) (omega arith, (s, n, free), λ r low high. absurd (omega (arith, low, high)))
        | inr full ↦
            let (low, there, used) =
              first_free-some rounds slots (suc slot) target (rw full at h') in
            (omega (arith, low), there, UsedUpTo-suc slots slot target s (n, full) used)
      ]
]

first_free-none :
    (rounds : ℕ) (slots : List InnerSlot) (slot : ℕ)
    → slot + rounds ≤ length slots
    → first_free rounds slots slot ≡ none
    → UsedUpTo slots slot (slot + rounds)
first_free-none zero slots slot bound h r low high = absurd (omega (arith, low, high))
first_free-none (suc rounds) slots slot bound h r low high =
    let (s, e) = get_elem?-of_lt slots slot (omega arith) in
    let h' = sym (first_free_step rounds slots slot s e) ∙ h in
    elim (Bool-cases (is_free s)) [
      | inl free ↦ cc (rw free at h')
      | inr full ↦
          UsedUpTo-suc slots slot (suc slot + rounds) s (e, full)
            (first_free-none rounds slots (suc slot) (omega arith) (rw full at h')) r low
            (omega (arith, high))
    ]

-- The node's line and number of blocks are those of the accelerator.
pub record IsDescribed (accelerator : InnerSlot) (n : InnerNode) : Type 0 where
  pub slope : n.slope ≡ accelerator.slope
  pub intercept : n.intercept ≡ accelerator.intercept
  pub block_number : n.block_number ≡ Slot.block_number accelerator

abbrev pub Target : List InnerSlot → ℕ → ℕ → Type 0
Target slots slot target =
    (slot ≤ target)
    × ((s : InnerSlot) × (get_elem? slots target ≡ some s) × (is_free s ≡ true))
    × UsedUpTo slots slot target

free_place-some :
    (block_number : ℕ) (slots : List InnerSlot) (slot target : ℕ)
    → slot + 8 ≤ length slots
    → free_place block_number slots slot ≡ some target
    → Target slots slot target
free_place-some block_number slots slot target bound h =
    elim (Option-cases (first_free 8 slots slot)) [
      | inr (t, e) ↦
          let q : t ≡ target = some-injective _ _ (unfold free_place in rw (e, free_place) at h) in
          rw (← q) (first_free-some 8 slots slot t e)
      | inl e ↦
          let (low, there, used) =
            first_free-some (block_number * 8 - (slot + 8)) slots (slot + 8) target
              (unfold free_place in rw (e, free_place) at h) in
          (
            omega (arith, low),
            there,
            λ r p q. elim (Bool-cases (ltb r (slot + 8))) [
              | inl t ↦ first_free-none 8 slots slot bound e r p (ground (arith, t))
              | inr f ↦ used r (ground (arith, f)) q
            ],
          )
    ]

pub data_placement-some :
    (a : Arith) (n n' : InnerNode) (acc : InnerSlot) (key : Double) (node : InnerSlot)
    → IsDescribed acc n
    → start_slot a acc key + 8 ≤ length n.slots
    → data_placement a n key node ≡ some n'
    → (target : ℕ) × Target n.slots (start_slot a acc key) target
      × (n' ≡ record n { slots = set n.slots target node })
unfolding data_placement
data_placement-some a n n' acc key node d bound h =
    let slot = predict_block a key n.slope n.intercept n.block_number * 8 in
    let same : slot ≡ start_slot a acc key = rw (d.slope, d.intercept, d.block_number) refl in
    elim (Option-cases (free_place n.block_number n.slots slot)) [
      | inl e ↦ cc (rw (e, data_placement) at h)
      | inr (target, e) ↦ (
        target,
        free_place-some n.block_number n.slots (start_slot a acc key) target bound
            (sym (ap (free_place n.block_number n.slots) same) ∙ e),
        sym (some-injective _ _ (rw (e, data_placement) at h)),
      )
    ]
