-- ===== src/RangeMap/Siblings.antt =====
-- `RangeMap::siblings_of` and `edge_of` (src/common/range_map.cpp).
use plin_cloud_edge_device_l.Common.{
  ◌≡◌, ◌⊎◌, inl, inr, ◌≢◌, List, [], ◌∷◌, true, false, arith, Bool-cases, not, ◌&&◌, ◌↔◌,
}
use plin_cloud_edge_device_l.Common.Int.{ℤ, pos, ◌≤ℤ◌, ◌==ℤ◌, ltb_ℤ, ==ℤ-cases}
use plin_cloud_edge_device_l.RangeMap.{EndInfo, edge_of, siblings_loop, siblings_of}

-- `Some P xs`: an element of the list has `P`.
abbrev pub Some {ℓ} : {A : Type ℓ} → (A → Type 0) → List A → Type 0
Some P [] = ⊥
Some P (x ∷ xs) = P x ⊎ Some P xs

-- The end `e` is listed under `id`, on `edge`, and is not `self`.
abbrev pub Neighbour : ℤ → ℤ → ℤ → EndInfo → Type 0
Neighbour edge self id e = (e.id ≡ id) × (e.edge_id ≡ edge) × (e.id ≢ self)

sibling_cases :
    (e : EndInfo) (edge self : ℤ)
    → (((e.edge_id ==ℤ edge && not (e.id ==ℤ self)) ≡ true) × (e.edge_id ≡ edge) × (e.id ≢ self))
      ⊎ (((e.edge_id ==ℤ edge && not (e.id ==ℤ self)) ≡ false)
          × (e.edge_id ≡ edge → e.id ≢ self → ⊥))
sibling_cases e edge self = elim (==ℤ-cases e.edge_id edge) [
  | inr (p, n) ↦ inr (rw p, λ q _. n q)
  | inl (p, q) ↦ elim (==ℤ-cases e.id self) [
    | inr (r, n) ↦ inl (rw (p, r), q, n)
    | inl (r, s) ↦ inr (rw (p, r), λ _ n. n s)
  ]
]

siblings_loop_sound :
    (ends : List EndInfo) (edge self id : ℤ)
    → Some (λ s. s ≡ id) (siblings_loop ends edge self)
    → Some (Neighbour edge self id) ends
unfolding siblings_loop
siblings_loop_sound [] edge self id h = h
siblings_loop_sound (e ∷ ends) edge self id h = elim (sibling_cases e edge self) [
  | inl (t, p, n) ↦ elim (rw t at h) [
    | inl q ↦ inl (q, p, n)
    | inr r ↦ inr (siblings_loop_sound ends edge self id r)
  ]
  | inr (t, _) ↦ inr (siblings_loop_sound ends edge self id (rw t at h))
]

siblings_loop_complete :
    (ends : List EndInfo) (edge self id : ℤ)
    → Some (Neighbour edge self id) ends
    → Some (λ s. s ≡ id) (siblings_loop ends edge self)
unfolding siblings_loop
siblings_loop_complete [] edge self id h = h
siblings_loop_complete (e ∷ ends) edge self id (inl (q, p, n)) = elim (sibling_cases e edge self) [
  | inl (t, _, _) ↦ rw t (inl q)
  | inr (_, out) ↦ absurd (out p n)
]
siblings_loop_complete (e ∷ ends) edge self id (inr r) =
    let ih = siblings_loop_complete ends edge self id r in
    elim (sibling_cases e edge self) [ inl (t, _, _) ↦ rw t (inr ih) | inr (t, _) ↦ rw t ih ]

-- `siblings_of` lists exactly the other ends on the edge of `self`, and none if `self` has no edge.
pub siblings_of_iff :
    (ends : List EndInfo) (self id : ℤ)
    → Some (λ s. s ≡ id) (siblings_of ends self)
      ↔ ((pos 0 ≤ℤ edge_of ends self) × Some (Neighbour (edge_of ends self) self id) ends)
unfolding siblings_of
siblings_of_iff ends self id = elim (Bool-cases (ltb_ℤ (edge_of ends self) (pos 0))) [
  | inl t ↦ (λ h. absurd (rw t at h), λ h. absurd (ground arith))
  | inr t ↦ (
    λ h. (ground arith, siblings_loop_sound ends (edge_of ends self) self id (rw t at h)),
    λ h. rw t (siblings_loop_complete ends (edge_of ends self) self id h.1),
  )
]
