-- ===== src/PlinIndex/Constructed.antt =====
-- A node of src/core/index/inner_node.h with one slot more, after `data_placement`.
use plin_cloud_edge_device_l.Common.{
  ℕ, ◌<◌, ◌≡◌, ◌≢◌, refl, sym, ap, ◌∙◌, ◌⊎◌, inl, inr, true, false, List, ltb, ◌==◌, get_elem?, set,
  arith, Bool-cases, lt-of_get_elem?, get_elem?-set_self, get_elem?-set_ne, length-set,
}
use mathlib.Core.Option.{some-injective}
use plin_cloud_edge_device_l.Double.{double_lt, lt→le}
use plin_cloud_edge_device_l.Plin.Predict.{Arith}
use plin_cloud_edge_device_l.PlinIndex.Slot.{InnerSlot}
use plin_cloud_edge_device_l.PlinIndex.Inner.{is_free, start_slot}
use plin_cloud_edge_device_l.PlinIndex.Search.{Used, IsPlaced, IsModel, start_slot_le}
use plin_cloud_edge_device_l.PlinIndex.Placement.{Target}

module _ (a : Arith) (acc : InnerSlot) (slots : List InnerSlot) (m : IsModel a acc slots)
    (w : IsPlaced a acc slots) (target : ℕ) (node : InnerSlot) (used_key : is_free node ≡ false)
    (at_target : Target slots (start_slot a acc node.min_key) target)
    (above : (i : ℕ) (s : InnerSlot)
      → Used slots i s
      → double_lt s.min_key node.min_key ≡ true) where
  abbrev with_node : List InnerSlot
  with_node = set slots target node

  pub target-Used : Used with_node target node
  target-Used =
      (get_elem?-set_self slots target node (lt-of_get_elem? slots target at_target.1.1), used_key)

  other_place : (i : ℕ) → i ≢ target → get_elem? with_node i ≡ get_elem? slots i
  other_place i ne = get_elem?-set_ne slots node (λ e. ne (sym e))

  -- A used slot is not the target, which is free.
  ne_target : (i : ℕ) (s : InnerSlot) → Used slots i s → i ≢ target
  ne_target i s u e =
      let (f, there, free) = at_target.1 in
      let same : s ≡ f = some-injective _ _ (sym u.0 ∙ ap (get_elem? slots) e ∙ there) in
      ground (arith, rw same at u.1, free)

  pub stays : (i : ℕ) (s : InnerSlot) → Used slots i s → Used with_node i s
  stays i s u = (other_place i (ne_target i s u) ∙ u.0, u.1)

  pub was :
      (i : ℕ) (s : InnerSlot) → Used with_node i s → ((i ≡ target) × (s ≡ node)) ⊎ Used slots i s
  was i s u = elim (Bool-cases (i == target)) [
    | inl t ↦
        let q : i ≡ target = ground (arith, t) in
        inl (q, some-injective _ _ (sym u.0 ∙ ap (get_elem? with_node) q ∙ target-Used.0))
    | inr f ↦ inr (sym (other_place i (λ e. ground (arith, f))) ∙ u.0, u.1)
  ]

  before_target : (i : ℕ) (s : InnerSlot) → Used slots i s → i < target
  before_target i s u = elim (Bool-cases (ltb i target)) [
    | inl t ↦ ground (arith, t)
    | inr f ↦
        let le =
          start_slot_le a acc s.min_key node.min_key m.rising m.four (lt→le _ _ (above i s u)) in
        let (s', u') =
          (w.placed i s u).1 target (omega (arith, le, at_target.0)) (ground (arith, f)) in
        absurd (ne_target target s' u' refl)
  ]

  pub with_node-IsPlaced : IsPlaced a acc with_node
  with_node-IsPlaced = record {
    sorted = λ i j s t lt u v. elim (was i s u) [
      | inl (p, e) ↦ elim (was j t v) [
        | inl (q, e') ↦ absurd (omega (arith, lt, p, q))
        | inr v' ↦ absurd (omega (arith, lt, p, before_target j t v'))
      ]
      | inr u' ↦ elim (was j t v) [
        | inl (q, e') ↦ rw e' (above i s u')
        | inr v' ↦ w.sorted i j s t lt u' v'
      ]
    ];
    placed = λ i s u. elim (was i s u) [
      | inl (p, e) ↦
          rw (p, e)
            (
              at_target.0,
              λ r low high. elim (Bool-cases (r == target)) [
                | inl t ↦ let q : r ≡ target = ground (arith, t) in rw q (node, target-Used)
                | inr f ↦
                    let (s', u') = at_target.2 r low (ground (arith, f, high)) in
                    (s', stays r s' u')
              ],
            )
      | inr u' ↦
          let (low, filled) = w.placed i s u' in
          (low, λ r p q. let (s', v) = filled r p q in (s', stays r s' v))
    ];
  }

  pub with_node-IsModel : IsModel a acc with_node
  with_node-IsModel = record {
    rising = m.rising;
    four = m.four;
    blocks = length-set slots target node ∙ m.blocks;
  }
