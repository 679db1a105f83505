-- ===== src/PlinIndex/Filling.antt =====
-- The loop of the constructor of src/core/index/inner_node.h that places the slots.
use plin_cloud_edge_device_l.Common.{
  ℕ, zero, suc, ◌≡◌, refl, sym, ap, ◌∙◌, ◌⊎◌, inl, inr, true, false, List, [], ◌∷◌, some, length,
  get_elem?, set, arith, Option-cases, length-set,
}
use mathlib.Core.Path.{subst}
use mathlib.Core.Option.{some-injective}
use plin_cloud_edge_device_l.Double.{Double, double_lt}
use plin_cloud_edge_device_l.Plin.Predict.{Arith}
use plin_cloud_edge_device_l.PlinIndex.Slot.{InnerSlot}
use plin_cloud_edge_device_l.PlinIndex.Inner.{
  InnerNode, is_free, data_placement, place_all, start_slot,
}
use plin_cloud_edge_device_l.PlinIndex.Search.{Used, IsPlaced, IsModel, start_slot-lt}
use plin_cloud_edge_device_l.PlinIndex.Placement.{Target, IsDescribed, data_placement-some}
use plin_cloud_edge_device_l.PlinIndex.Constructed.{
  stays, was, target-Used, with_node-IsPlaced, with_node-IsModel,
}

-- What `place_all` makes of a node: the rows are in it, with what it had before, and nothing else.
pub record IsFilled (a : Arith) (acc : InnerSlot) (slots slots' : List InnerSlot)
    (rows : List (Double × InnerSlot)) : Type 0 where
  pub placed : IsPlaced a acc slots'
  pub size : length slots' ≡ length slots
  pub kept : (j : ℕ) (s : InnerSlot) → Used slots j s → Used slots' j s
  pub rows_in :
      (i : ℕ) (k : Double) (s : InnerSlot)
      → get_elem? rows i ≡ some (k, s)
      → (j : ℕ) × Used slots' j s
  pub from :
      (j : ℕ) (s : InnerSlot)
      → Used slots' j s
      → Used slots j s ⊎ ((i : ℕ) × (k : Double) × (get_elem? rows i ≡ some (k, s)))

-- Rows that a node can be built from: each key is that of its slot and marks no free one, and they go up.
abbrev pub IsRows : List (Double × InnerSlot) → Type 0
IsRows [] = Unit {0}
IsRows ((k, s) ∷ rows) =
    (k ≡ s.min_key)
    × (is_free s ≡ false)
    × ((i : ℕ) (j : Double) (t : InnerSlot)
        → get_elem? rows i ≡ some (j, t)
        → double_lt s.min_key t.min_key ≡ true)
    × IsRows rows

rows_in_cons :
    (slots : List InnerSlot) (k : Double) (s : InnerSlot) (rows : List (Double × InnerSlot))
    → ((j : ℕ) × Used slots j s)
    → ((i : ℕ) (k' : Double) (t : InnerSlot)
        → get_elem? rows i ≡ some (k', t)
        → (j : ℕ) × Used slots j t)
    → (i : ℕ) (k' : Double) (t : InnerSlot) → get_elem? ((k, s) ∷ rows) i ≡ some (k', t)
    → (j : ℕ) × Used slots j t
rows_in_cons slots k s rows (j, u) rest zero k' t e =
    let same : s ≡ t = ap (λ x. x.1) (some-injective _ _ e) in (j, rw (← same) u)
rows_in_cons slots k s rows here rest (suc i) k' t e = rest i k' t e

pub place_all_lem :
    (a : Arith) (acc : InnerSlot) (n n' : InnerNode) (rows : List (Double × InnerSlot))
    → IsModel a acc n.slots
    → IsDescribed acc n
    → IsPlaced a acc n.slots
    → IsRows rows
    → ((i j : ℕ) (k : Double) (s t : InnerSlot)
        → Used n.slots i s
        → get_elem? rows j ≡ some (k, t)
        → double_lt s.min_key t.min_key ≡ true)
    → place_all a n rows ≡ some n'
    → IsFilled a acc n.slots n'.slots rows
place_all_lem a acc n n' [] m d w r above h =
    let same : n ≡ n' = some-injective _ _ (unfold place_all in h) in
    let q : n.slots ≡ n'.slots = ap (λ x. x.slots) same in
    record {
      placed = subst (IsPlaced a acc) q w;
      size = ap length (sym q);
      kept = λ j s u. subst (λ x. Used x j s) q u;
      rows_in = λ i k s e. cc;
      from = λ j s u. inl (subst (λ x. Used x j s) (sym q) u);
    }
place_all_lem a acc n n' ((k, s) ∷ rows) m d w (key, used, up, r) above h =
    elim (Option-cases (data_placement a n k s)) [
      | inl e ↦ unfold place_all in cc (rw (e, place_all) at h)
      | inr (n1, e) ↦
          let bound = start_slot-lt a acc k m.four in
          let (target, t0, q) =
            data_placement-some a n n1 acc k s d (omega (arith, bound, m.blocks)) e in
          let t = subst (λ x. Target n.slots (start_slot a acc x) target) key t0 in
          let above_here =
            λ (i : ℕ) (s' : InnerSlot) (u : Used n.slots i s'). above i 0 k s' s u refl in
          let n2 = record n { slots = set n.slots target s } in
          let was_here = was a acc n.slots m w target s used t above_here in
          let rest : place_all a n2 rows ≡ some n' =
            subst (λ x. place_all a x rows ≡ some n') q
              (unfold place_all in rw (e, place_all) at h) in
          let f =
            place_all_lem a acc n2 n' rows
              (with_node-IsModel a acc n.slots m w target s used t above_here)
              (record { slope = d.slope; intercept = d.intercept; block_number = d.block_number })
              (with_node-IsPlaced a acc n.slots m w target s used t above_here) r
              (λ i j k' s' t' u e'. elim (was_here i s' u) [
                | inl (p, same) ↦ rw same (up j k' t' e')
                | inr u' ↦ above i (suc j) k' s' t' u' e'
              ])
              rest in
          record {
            placed = f.placed;
            size = f.size ∙ length-set n.slots target s;
            kept =
                λ j s' u. f.kept j s' (stays a acc n.slots m w target s used t above_here j s' u);
            rows_in =
                rows_in_cons n'.slots k s rows
                  (
                    target,
                    f.kept target s (target-Used a acc n.slots m w target s used t above_here),
                  )
                  f.rows_in;
            from = λ j s' u. elim (f.from j s' u) [
              | inl v ↦ elim (was_here j s' v) [
                | inl (p, same) ↦ inr (0, k, rw same refl)
                | inr v' ↦ inl v'
              ]
              | inr (i, k', e') ↦ inr (suc i, k', e')
            ];
          }
    ]
