-- ===== src/PlinIndex/Removal.antt =====
-- Removal from a block (`LeafNode::remove` of src/core/index/leaf_node.h), and the slot that it leaves free.
use plin_cloud_edge_device_l.Common.{
  ℕ, ◌≡◌, refl, sym, ◌∙◌, ◌⊎◌, inl, inr, true, false, List, [], ◌∷◌, none, some, arith, All,
  Bool-cases, Option-cases,
}
use plin_cloud_edge_device_l.Double.{
  Double, is_nan, double_eq, double_eq_sym, double_eq_congr, double_eq_refl,
}
use plin_cloud_edge_device_l.PlinIndex.{free_flag}
use plin_cloud_edge_device_l.PlinIndex.Leaf.{
  DataSlot, find_slot, update_slot, insert_slot, remove_slot,
}

-- The key is in no slot.
abbrev pub Fresh : Double → List DataSlot → Type 0
Fresh key = All (λ s. double_eq s.key key ≡ false)

-- No key is in two slots.
abbrev pub IsDistinct : List DataSlot → Type 0
IsDistinct [] = Unit {0}
IsDistinct (s ∷ ss) = ((double_eq s.key free_flag ≡ true) ⊎ Fresh s.key ss) × IsDistinct ss

pub Fresh-find_slot : (k : Double) (ss : List DataSlot) → Fresh k ss → find_slot k ss ≡ none
unfolding find_slot
Fresh-find_slot k [] f = refl
Fresh-find_slot k (s ∷ ss) (n, f) = rw (double_eq_sym k s.key, n) (Fresh-find_slot k ss f)

pub find_slot-Fresh : (k : Double) (ss : List DataSlot) → find_slot k ss ≡ none → Fresh k ss
unfolding find_slot
find_slot-Fresh k [] h = tt
find_slot-Fresh k (s ∷ ss) h = elim (Bool-cases (double_eq k s.key)) [
  | inl t ↦ cc (rw t at h)
  | inr t ↦ (double_eq_sym s.key k ∙ t, find_slot-Fresh k ss (rw t at h))
]

Fresh-congr : (k j : Double) (ss : List DataSlot) → double_eq k j ≡ true → Fresh k ss → Fresh j ss
Fresh-congr k j [] h f = tt
Fresh-congr k j (s ∷ ss) h (n, f) = (
  double_eq_sym s.key j ∙ sym (double_eq_congr k j s.key h) ∙ double_eq_sym k s.key ∙ n,
  Fresh-congr k j ss h f,
)

pub remove_slot-cons :
    (k : Double) (s : DataSlot) (ss ss' : List DataSlot)
    → remove_slot k (s ∷ ss) ≡ some ss'
    → ((double_eq s.key k ≡ true) × (ss' ≡ record s { key = free_flag } ∷ ss))
      ⊎ ((rest : List DataSlot) × (double_eq s.key k ≡ false)
          × (remove_slot k ss ≡ some rest)
          × (ss' ≡ s ∷ rest))
unfolding remove_slot
remove_slot-cons k s ss ss' h = elim (Bool-cases (double_eq s.key k)) [
  | inl t ↦ inl (t, cc (rw t at h))
  | inr t ↦ elim (Option-cases (remove_slot k ss)) [
    | inl n ↦ cc (rw (t, n) at h)
    | inr (rest, n) ↦ inr (rest, t, n, cc (rw (t, n) at h))
  ]
]

pub remove_slot-Fresh :
    (k : Double) (ss ss' : List DataSlot)
    → double_eq k free_flag ≡ false
    → IsDistinct ss
    → remove_slot k ss ≡ some ss'
    → Fresh k ss'
remove_slot-Fresh k [] ss' f d h = unfold remove_slot in cc h
remove_slot-Fresh k (s ∷ ss) ss' f (one, d) h = elim (remove_slot-cons k s ss ss' h) [
  | inl (t, e) ↦ elim one [
    | inl free ↦ absurd (ground (arith, double_eq_congr s.key k free_flag t))
    | inr others ↦ rw e (double_eq_sym free_flag k ∙ f, Fresh-congr s.key k ss t others)
  ]
  | inr (rest, t, n, e) ↦ rw e (t, remove_slot-Fresh k ss rest f d n)
]

pub find_slot-remove_slot :
    (k j : Double) (ss ss' : List DataSlot)
    → double_eq j free_flag ≡ false
    → double_eq k j ≡ false
    → remove_slot k ss ≡ some ss'
    → find_slot j ss' ≡ find_slot j ss
unfolding find_slot
find_slot-remove_slot k j [] ss' f ne h = unfold remove_slot in cc h
find_slot-remove_slot k j (s ∷ ss) ss' f ne h = elim (remove_slot-cons k s ss ss' h) [
  | inl (t, e) ↦ rw e (ground (arith, double_eq_congr s.key k j t, double_eq_sym j s.key))
  | inr (rest, t, n, e) ↦ rw (e, find_slot-remove_slot k j ss rest f ne n) refl
]

pub remove_slot-none :
    (k : Double) (ss : List DataSlot) → remove_slot k ss ≡ none → find_slot k ss ≡ none
unfolding remove_slot find_slot
remove_slot-none k [] h = refl
remove_slot-none k (s ∷ ss) h = elim (Bool-cases (double_eq s.key k)) [
  | inl t ↦ cc (rw t at h)
  | inr t ↦ elim (Option-cases (remove_slot k ss)) [
    | inl n ↦ rw (double_eq_sym k s.key, t) (remove_slot-none k ss n)
    | inr (rest, n) ↦ cc (rw (t, n) at h)
  ]
]

pub remove_slot-insert_slot :
    (d k : Double) (v : ℕ) (ss ss' : List DataSlot)
    → remove_slot d ss ≡ some ss'
    → (filled : List DataSlot) × (insert_slot k v ss' ≡ some filled)
unfolding insert_slot
remove_slot-insert_slot d k v [] ss' h = unfold remove_slot in cc h
remove_slot-insert_slot d k v (s ∷ ss) ss' h = elim (remove_slot-cons d s ss ss' h) [
  | inl (t, e) ↦ (
    record { key = k; payload = v } ∷ ss,
    rw (e, double_eq_refl free_flag (unfold is_nan in refl)) refl,
  )
  | inr (rest, t, n, e) ↦
      let (filled, i) = remove_slot-insert_slot d k v ss rest n in
      elim (Bool-cases (double_eq s.key free_flag)) [
        | inl free ↦ (record { key = k; payload = v } ∷ rest, rw (e, free) refl)
        | inr used ↦ (s ∷ filled, rw (e, used, i) refl)
      ]
]

pub insert_slot-remove_slot :
    (k : Double) (v : ℕ) (ss ss' : List DataSlot)
    → is_nan k ≡ false
    → double_eq k free_flag ≡ false
    → Fresh k ss
    → insert_slot k v ss ≡ some ss'
    → (rest : List DataSlot) × (remove_slot k ss' ≡ some rest) × Fresh k rest
unfolding insert_slot remove_slot
insert_slot-remove_slot k v [] ss' number used f h = cc
insert_slot-remove_slot k v (s ∷ ss) ss' number used (n, f) h =
    elim (Bool-cases (double_eq s.key free_flag)) [
      | inl t ↦
          let e : ss' ≡ record { key = k; payload = v } ∷ ss = cc (rw t at h) in
          (
            record { key = free_flag; payload = v } ∷ ss,
            rw (e, double_eq_refl k number) refl,
            (double_eq_sym free_flag k ∙ used, f),
          )
      | inr t ↦ elim (Option-cases (insert_slot k v ss)) [
        | inl m ↦ cc (rw (t, m) at h)
        | inr (filled, m) ↦
            let (rest, r, fr) = insert_slot-remove_slot k v ss filled number used f m in
            let e : ss' ≡ s ∷ filled = cc (rw (t, m) at h) in (s ∷ rest, rw (e, n, r) refl, (n, fr))
      ]
    ]

pub update_slot-Fresh :
    (k : Double) (v : ℕ) (ss : List DataSlot) → Fresh k ss → update_slot k v ss ≡ none
unfolding update_slot
update_slot-Fresh k v [] f = refl
update_slot-Fresh k v (s ∷ ss) (n, f) = rw (n, update_slot-Fresh k v ss f) refl

pub remove_slot-some :
    (k : Double) (ss ss' : List DataSlot)
    → remove_slot k ss ≡ some ss'
    → (v : ℕ) × (find_slot k ss ≡ some v)
unfolding find_slot
remove_slot-some k [] ss' h = unfold remove_slot in cc h
remove_slot-some k (s ∷ ss) ss' h = elim (remove_slot-cons k s ss ss' h) [
  | inl (t, e) ↦ (s.payload, rw (double_eq_sym k s.key, t) refl)
  | inr (rest, t, n, e) ↦
      let (v, f) = remove_slot-some k ss rest n in (v, rw (double_eq_sym k s.key, t) f)
]

pub Fresh-remove_slot :
    (d k : Double) (ss ss' : List DataSlot)
    → double_eq k free_flag ≡ false
    → Fresh k ss
    → remove_slot d ss ≡ some ss'
    → Fresh k ss'
Fresh-remove_slot d k [] ss' f h r = unfold remove_slot in cc r
Fresh-remove_slot d k (s ∷ ss) ss' f (n, h) r = elim (remove_slot-cons d s ss ss' r) [
  | inl (t, e) ↦ rw e (double_eq_sym free_flag k ∙ f, h)
  | inr (rest, t, m, e) ↦ rw e (n, Fresh-remove_slot d k ss rest f h m)
]
