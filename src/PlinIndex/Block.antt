-- ===== src/PlinIndex/Block.antt =====
-- A block of a leaf as a map from keys to payloads: `LeafNode::upsert`, `remove` and `find` of
-- src/core/index/leaf_node.h on the block that they choose.
use plin_cloud_edge_device_l.Common.{
  ℕ, ◌≤◌, ◌≡◌, refl, sym, ◌∙◌, inl, inr, true, false, List, [], ◌∷◌, Option, none, some, arith,
  ◌==◌, if◌then◌else◌, Bool-cases, Option-cases,
}
use plin_cloud_edge_device_l.Double.{Double, is_nan, double_eq, double_eq_sym, double_eq_congr}
use plin_cloud_edge_device_l.PlinIndex.{free_flag}
use plin_cloud_edge_device_l.PlinIndex.Leaf.{
  OverflowTree, DataSlot, find_slot, update_slot, insert_slot, Block, tree_of, find_overflow,
  block_find, overflow_upsert, block_upsert,
}

find_slot-update_slot :
    (k j : Double) (v : ℕ) (ss ss' : List DataSlot)
    → update_slot k v ss ≡ some ss'
    → find_slot j ss' ≡ (if double_eq k j then some v else find_slot j ss)
unfolding find_slot update_slot
find_slot-update_slot k j v [] ss' h = cc
find_slot-update_slot k j v (s ∷ ss) ss' h = elim (Bool-cases (double_eq s.key k)) [
  | inl t ↦
      let e : record s { payload = v } ∷ ss ≡ ss' = cc (rw t at h) in
      rw (← e) (ground (arith, double_eq_congr s.key k j t, double_eq_sym j s.key))
  | inr t ↦ elim (Option-cases (update_slot k v ss)) [
    | inl n ↦ cc (rw (t, n) at h)
    | inr (rest, n) ↦
        let e : s ∷ rest ≡ ss' = cc (rw (t, n) at h) in
        let ih = find_slot-update_slot k j v ss rest n in
        rw (← e) (ground (arith, ih, double_eq_congr k j s.key, double_eq_sym k s.key, t))
  ]
]

find_slot-update_none :
    (k : Double) (v : ℕ) (ss : List DataSlot) → update_slot k v ss ≡ none → find_slot k ss ≡ none
unfolding find_slot update_slot
find_slot-update_none k v [] h = refl
find_slot-update_none k v (s ∷ ss) h = elim (Bool-cases (double_eq s.key k)) [
  | inl t ↦ cc (rw t at h)
  | inr t ↦ elim (Option-cases (update_slot k v ss)) [
    | inl n ↦ ground (arith, find_slot-update_none k v ss n, double_eq_sym k s.key)
    | inr (rest, n) ↦ cc (rw (t, n) at h)
  ]
]

pub find_slot-insert_slot :
    (k j : Double) (v : ℕ) (ss ss' : List DataSlot)
    → double_eq j free_flag ≡ false
    → find_slot k ss ≡ none
    → insert_slot k v ss ≡ some ss'
    → find_slot j ss' ≡ (if double_eq k j then some v else find_slot j ss)
unfolding find_slot insert_slot
find_slot-insert_slot k j v [] ss' f n h = cc
find_slot-insert_slot k j v (s ∷ ss) ss' f n h = elim (Bool-cases (double_eq s.key free_flag)) [
  | inl t ↦
      let e : record { key = k; payload = v } ∷ ss ≡ ss' = cc (rw t at h) in
      rw (← e) (ground (arith, double_eq_sym j k, double_eq_congr j s.key free_flag))
  | inr t ↦ elim (Option-cases (insert_slot k v ss)) [
    | inl m ↦ cc (rw (t, m) at h)
    | inr (rest, m) ↦
        let e : s ∷ rest ≡ ss' = cc (rw (t, m) at h) in
        rw (← e) (ground (arith, find_slot-insert_slot k j v ss rest f, double_eq_congr k j s.key))
  ]
]

pub find_slot_congr :
    (k j : Double) (ss : List DataSlot) → double_eq k j ≡ true → find_slot k ss ≡ find_slot j ss
unfolding find_slot
find_slot_congr k j [] h = refl
find_slot_congr k j (s ∷ ss) h =
    ground (arith, find_slot_congr k j ss h, double_eq_congr k j s.key h)

module _ (o : OverflowTree) where
  find_overflow_lem :
      (t : Option o.Tree) (k : Double) → find_overflow o t k ≡ o.find (tree_of o t) k
  find_overflow_lem none k = sym (o.find-empty k)
  find_overflow_lem (some t) k = refl

  abbrev pub either : Option ℕ → Option ℕ → Option ℕ
  either none q = q
  either (some v) q = some v

  pub block_find_lem :
      (b : Block o) (j : Double)
      → block_find o b j ≡ either (find_slot j b.slots) (find_overflow o b.overflow_tree j)
  unfolding block_find
  block_find_lem b j = elim (Option-cases (find_slot j b.slots)) [
    | inl e ↦ rw (e, block_find) refl
    | inr (v, e) ↦ rw (e, block_find) refl
  ]

  pub upserted_slots :
      (k j : Double) (v : ℕ) (b : Block o) (ss : List DataSlot)
      → find_slot j ss ≡ (if double_eq k j then some v else find_slot j b.slots)
      → block_find o (record b { slots = ss }) j
        ≡ (if double_eq k j then some v else block_find o b j)
  upserted_slots k j v b ss h =
      block_find_lem (record b { slots = ss }) j ∙ rw (h, block_find_lem b j) (ground arith)

  pub upserted_overflow :
      (k : Double) (v : ℕ) (b : Block o)
      → is_nan k ≡ false
      → (v == 0) ≡ false
      → find_slot k b.slots ≡ none
      → (flag : ℕ) × (b' : Block o) × (overflow_upsert o k v b ≡ some (flag, b'))
        × (flag ≤ 4)
        × ((j : Double) → block_find o b' j ≡ (if double_eq k j then some v else block_find o b j))
  unfolding overflow_upsert
  upserted_overflow k v b number payload absent =
      let (flag, t, u, which, law) = o.find-upsert (tree_of o b.overflow_tree) k v number payload in
      (
        flag,
        record b { overflow_tree = some t },
        rw (u, overflow_upsert) refl,
        elim which [ inl p ↦ omega (arith, p) | inr p ↦ omega (arith, p) ],
        λ j.
            block_find_lem _ j
            ∙ rw (law j, ← find_overflow_lem b.overflow_tree j, block_find_lem b j)
                (elim (Bool-cases (double_eq k j)) [
                  | inl t ↦ rw (t, ← find_slot_congr k j b.slots t, absent) refl
                  | inr t ↦ rw t refl
                ]),
      )

  -- An upsert into a block of a key that is no NaN with a payload other than 0 returns: 4 at most, and a
  -- block with the new payload under the key and what it had under every other key, for a search for a key
  -- other than that of a free slot.
  pub block_find-block_upsert :
      (k : Double) (v : ℕ) (b : Block o)
      → is_nan k ≡ false
      → (v == 0) ≡ false
      → (flag : ℕ) × (b' : Block o) × (block_upsert o k v b ≡ some (flag, b'))
        × (flag ≤ 4)
        × ((j : Double)
            → double_eq j free_flag ≡ false
            → block_find o b' j ≡ (if double_eq k j then some v else block_find o b j))
  unfolding block_upsert
  block_find-block_upsert k v b number payload = elim (Option-cases (update_slot k v b.slots)) [
    | inr (ss, e) ↦ (
      1,
      record b { slots = ss },
      rw (e, block_upsert) refl,
      omega arith,
      λ j used. upserted_slots k j v b ss (find_slot-update_slot k j v b.slots ss e),
    )
    | inl e ↦
        let absent = find_slot-update_none k v b.slots e in
        elim (Option-cases (insert_slot k v b.slots)) [
          | inr (ss, i) ↦ (
            2,
            record b { slots = ss },
            rw (e, block_upsert) (rw (i, block_upsert) refl),
            omega arith,
            λ j used.
                upserted_slots k j v b ss (find_slot-insert_slot k j v b.slots ss used absent i),
          )
          | inl i ↦
              let (flag, b', u, small, law) = upserted_overflow k v b number payload absent in
              (flag, b', rw (e, block_upsert) (rw (i, block_upsert) u), small, λ j used. law j)
        ]
  ]
