-- ===== src/PlinIndex/NewLeaf.antt =====
-- The constructor of `LeafNode` (src/core/index/leaf_node.h), and what a leaf finds after each row.
use plin_cloud_edge_device_l.Common.{
  ℕ, zero, suc, ◌+◌, ◌*◌, ◌%◌, ◌^◌, ◌≡◌, refl, sym, ap, ◌∙◌, ◌⊎◌, inl, inr, Bool, true, false, List,
  [], ◌∷◌, Option, none, some, arith, ◌==◌, if◌then◌else◌, Bool-cases, Option-cases, get_elem?, set,
  replicate, get_elem?-set_self, get_elem?-set_ne, lt-of_get_elem?,
}
use mathlib.Core.Option.{some-injective}
use plin_cloud_edge_device_l.Double.{Double, is_nan, double_eq, double_eq_refl, double_eq_sym}
use plin_cloud_edge_device_l.Plin.Predict.{Arith}
use plin_cloud_edge_device_l.PlinIndex.{free_flag}
use plin_cloud_edge_device_l.PlinIndex.Leaf.{
  OverflowTree, find_slot, insert_slot, Block, Leaf, leaf_predict_block, block_find,
  overflow_upsert,
}
use plin_cloud_edge_device_l.PlinIndex.Block.{
  block_find_lem, upserted_slots, upserted_overflow, find_slot-insert_slot,
}
use plin_cloud_edge_device_l.PlinIndex.Model.{Line, leaf_line}

module _ (a : Arith) (o : OverflowTree) where
  -- The first free slot of the block, or its tree; with it whether the tree has taken the row.
  unfoldable pub block_placement : Double → ℕ → Block o → Option (Bool × Block o)
  block_placement key payload b = elim (insert_slot key payload b.slots) [
    | some slots ↦ some (false, record b { slots = slots })
    | none ↦ elim (overflow_upsert o key payload b) [
      | none ↦ none
      | some (flag, b') ↦ some (true, b')
    ]
  ]

  abbrev pub own_block : Leaf o → Double → ℕ
  own_block l key = leaf_predict_block a key l.slope l.intercept l.block_number

  unfoldable pub data_placement : Leaf o → Double → ℕ → Option (Leaf o)
  data_placement l key payload = elim (get_elem? l.blocks (own_block l key)) [
    | none ↦ none
    | some b ↦ elim (block_placement key payload b) [
      | none ↦ none
      | some (overflowed, b') ↦ some (record l {
        blocks = set l.blocks (own_block l key) b';
        overflow_number =
            if overflowed then (l.overflow_number + 1) % 2 ^ 64 else l.overflow_number;
      })
    ]
  ]

  unfoldable pub place_rows : Leaf o → List (Double × ℕ) → Option (Leaf o)
  place_rows l [] = some l
  place_rows l ((key, payload) ∷ rows) = elim (data_placement l key payload) [
    | none ↦ none
    | some l' ↦ place_rows l' rows
  ]

  abbrev pub last_row_key : Double → List (Double × ℕ) → Double
  last_row_key key [] = key
  last_row_key key ((k, v) ∷ rows) = last_row_key k rows

  -- The members of the payloads are `garbage` before.
  abbrev pub empty_block : ℕ → Block o
  empty_block garbage = record {
    locked = 0;
    overflow_tree = none;
    slots = replicate 15 (record { key = free_flag; payload = garbage });
  }

  abbrev pub empty_leaf : ℕ → Line → ℕ → Double → Leaf o
  empty_leaf garbage line block_number first_key = record {
    slope = line.slope;
    intercept = line.intercept;
    block_number = block_number % 2 ^ 32;
    first_key = first_key;
    overflow_number = 0;
    number_to_split = a.overflow_limit (block_number * 15 % 2 ^ 64);
    locked = 0;
    abandoned = false;
    blocks = replicate (block_number % 2 ^ 32) (empty_block garbage);
  }

  -- The constructor, on the rows from `start_pos` on.
  unfoldable pub new_leaf : ℕ → ℕ → List (Double × ℕ) → ℕ → Line → Option (Leaf o)
  new_leaf garbage block_number [] start_pos line = none
  new_leaf garbage block_number ((first_key, payload) ∷ rows) start_pos line =
      let last = last_row_key first_key rows in
      let corrected = leaf_line a line (block_number % 2 ^ 32) start_pos first_key last in
      place_rows (empty_leaf garbage corrected block_number first_key) ((first_key, payload) ∷ rows)

  -- What a search without an accelerator reads in the leaf.
  abbrev pub at_block : Option (Block o) → Double → Option ℕ
  at_block none key = none
  at_block (some b) key = block_find o b key

  abbrev pub leaf_find : Leaf o → Double → Option ℕ
  leaf_find l key = at_block (get_elem? l.blocks (own_block l key)) key

  placed_block :
      (k : Double) (v : ℕ) (b : Block o)
      → is_nan k ≡ false
      → (v == 0) ≡ false
      → block_find o b k ≡ none
      → (flag : Bool) × (b' : Block o) × (block_placement k v b ≡ some (flag, b'))
        × ((j : Double)
            → double_eq j free_flag ≡ false
            → block_find o b' j ≡ (if double_eq k j then some v else block_find o b j))
  placed_block k v b number payload absent =
      let no_slot : find_slot k b.slots ≡ none = elim (Option-cases (find_slot k b.slots)) [
        | inl e ↦ e
        | inr (u, e) ↦ cc (rw e at (sym (block_find_lem o b k) ∙ absent))
      ] in
      elim (Option-cases (insert_slot k v b.slots)) [
        | inr (ss, e) ↦ (
          false,
          record b { slots = ss },
          unfold block_placement in rw (e, block_placement) refl,
          λ j used.
              upserted_slots o k j v b ss (find_slot-insert_slot k j v b.slots ss used no_slot e),
        )
        | inl e ↦
            let (flag, b', u, small, law) = upserted_overflow o k v b number payload no_slot in
            (
              true,
              b',
              unfold block_placement in rw (e, block_placement) (rw u refl),
              λ j used. law j,
            )
      ]

  leaf_find-data_placement :
      (l l' : Leaf o) (k j : Double) (v : ℕ)
      → is_nan k ≡ false
      → (v == 0) ≡ false
      → double_eq j free_flag ≡ false
      → (k ≡ j) ⊎ (double_eq k j ≡ false)
      → leaf_find l k ≡ none
      → data_placement l k v ≡ some l'
      → leaf_find l' j ≡ (if double_eq k j then some v else leaf_find l j)
  unfolding data_placement
  leaf_find-data_placement l l' k j v number payload used same absent h =
      elim (Option-cases (get_elem? l.blocks (own_block l k))) [
        | inl e ↦ cc (rw (e, data_placement) at h)
        | inr (b, e) ↦
            let no_block : block_find o b k ≡ none = (rw e at absent) in
            let (flag, b', placed, found) = placed_block k v b number payload no_block in
            let law = found j used in
            let q =
              some-injective _ _ (rw (placed, data_placement) at rw (e, data_placement) at h) in
            rw (← q) (elim (Bool-cases (own_block l j == own_block l k)) [
              | inl t ↦
                  let p : own_block l j ≡ own_block l k = ground (arith, t) in
                  rw
                    (
                      p,
                      get_elem?-set_self l.blocks (own_block l k) b'
                          (lt-of_get_elem? l.blocks (own_block l k) e),
                      e,
                    )
                    law
              | inr f ↦ elim same [
                | inl eq ↦ absurd (ground (arith, f, ap (own_block l) eq))
                | inr other ↦
                    let elsewhere : get_elem? (set l.blocks (own_block l k) b') (own_block l j)
                        ≡ get_elem? l.blocks (own_block l j) =
                      get_elem?-set_ne l.blocks b' (λ p. ground (arith, f, p)) in
                    rw (elsewhere, other) refl
              ]
            ])
      ]

  data_placement_step :
      (l l' : Leaf o) (k : Double) (v : ℕ) (rows : List (Double × ℕ))
      → place_rows l ((k, v) ∷ rows) ≡ some l'
      → (l1 : Leaf o) × (data_placement l k v ≡ some l1) × (place_rows l1 rows ≡ some l')
  unfolding place_rows
  data_placement_step l l' k v rows h = elim (Option-cases (data_placement l k v)) [
    | inl e ↦ cc (rw (e, place_rows) at h)
    | inr (l1, e) ↦ (l1, e, rw (e, place_rows) at h)
  ]

  -- Rows with numbers for keys, none of them that of a free slot or of another row, and payloads other
  -- than 0.
  abbrev pub IsLeafRows : List (Double × ℕ) → Type 0
  IsLeafRows [] = Unit {0}
  IsLeafRows ((k, v) ∷ rows) =
      (is_nan k ≡ false)
      × ((v == 0) ≡ false)
      × (double_eq k free_flag ≡ false)
      × ((i : ℕ) (j : Double) (u : ℕ) → get_elem? rows i ≡ some (j, u) → double_eq k j ≡ false)
      × IsLeafRows rows

  pub row_used :
      (rows : List (Double × ℕ))
      → IsLeafRows rows
      → (i : ℕ) (k : Double) (v : ℕ) → get_elem? rows i ≡ some (k, v)
      → double_eq k free_flag ≡ false
  row_used [] r i k v e = cc
  row_used ((k0, v0) ∷ rows) r zero k v e = rw (← ap (λ x. x.0) (some-injective _ _ e)) (r.2)
  row_used ((k0, v0) ∷ rows) r (suc i) k v e = row_used rows (r.4) i k v e

  pub leaf_find_kept :
      (rows : List (Double × ℕ)) (l l' : Leaf o) (j : Double)
      → IsLeafRows rows
      → ((i : ℕ) (k : Double) (v : ℕ) → get_elem? rows i ≡ some (k, v) → leaf_find l k ≡ none)
      → double_eq j free_flag ≡ false
      → ((i : ℕ) (k : Double) (v : ℕ) → get_elem? rows i ≡ some (k, v) → double_eq k j ≡ false)
      → place_rows l rows ≡ some l'
      → leaf_find l' j ≡ leaf_find l j
  leaf_find_kept [] l l' j r new used other h =
      let q : l ≡ l' = some-injective _ _ (unfold place_rows in h) in rw q refl
  leaf_find_kept ((k, v) ∷ rows) l l' j (number, payload, used_k, apart, r) new used other h =
      let (l1, e, h1) = data_placement_step l l' k v rows h in
      let absent = new 0 k v refl in
      leaf_find_kept rows l1 l' j r
        (λ i k' v' e'.
          leaf_find-data_placement l l1 k k' v number payload (row_used rows r i k' v' e')
            (inr (apart i k' v' e')) absent e
          ∙ rw (apart i k' v' e') (new (suc i) k' v' e'))
        used (λ i k' v' e'. other (suc i) k' v' e') h1
      ∙ leaf_find-data_placement l l1 k j v number payload used (inr (other 0 k v refl)) absent e
      ∙ rw (other 0 k v refl) refl

  placed_at :
      (rows : List (Double × ℕ)) (l : Leaf o) (k0 : Double) (v0 : ℕ)
      → leaf_find l k0 ≡ some v0
      → ((i : ℕ) (k : Double) (v : ℕ) → get_elem? rows i ≡ some (k, v) → leaf_find l k ≡ some v)
      → (i : ℕ) (k : Double) (v : ℕ) → get_elem? ((k0, v0) ∷ rows) i ≡ some (k, v)
      → leaf_find l k ≡ some v
  placed_at rows l k0 v0 first rest zero k v e =
      let q : (k0, v0) ≡ (k, v) = some-injective _ _ e in
      rw (← ap (λ x. x.0) q, ← ap (λ x. x.1) q) first
  placed_at rows l k0 v0 first rest (suc i) k v e = rest i k v e

  pub leaf_find_placed :
      (rows : List (Double × ℕ)) (l l' : Leaf o)
      → IsLeafRows rows
      → ((i : ℕ) (k : Double) (v : ℕ) → get_elem? rows i ≡ some (k, v) → leaf_find l k ≡ none)
      → place_rows l rows ≡ some l'
      → (i : ℕ) (k : Double) (v : ℕ) → get_elem? rows i ≡ some (k, v)
      → leaf_find l' k ≡ some v
  leaf_find_placed [] l l' r new h i k v e = cc
  leaf_find_placed ((k0, v0) ∷ rows) l l' (number, payload, used, apart, r) new h i k v e =
      let (l1, e1, h1) = data_placement_step l l' k0 v0 rows h in
      let absent = new 0 k0 v0 refl in
      let new1 = λ (i' : ℕ) (k' : Double) (v' : ℕ) (e' : get_elem? rows i' ≡ some (k', v')).
        leaf_find-data_placement l l1 k0 k' v0 number payload (row_used rows r i' k' v' e')
          (inr (apart i' k' v' e')) absent e1
        ∙ rw (apart i' k' v' e') (new (suc i') k' v' e') in
      let first : leaf_find l' k0 ≡ some v0 =
        leaf_find_kept rows l1 l' k0 r new1 used
          (λ i' k' v' e'. double_eq_sym k' k0 ∙ apart i' k' v' e') h1
        ∙ leaf_find-data_placement l l1 k0 k0 v0 number payload used (inl refl) absent e1
        ∙ rw (double_eq_refl k0 number) refl in
      placed_at rows l' k0 v0 first (leaf_find_placed rows l1 l' r new1 h1) i k v e

  free_slots :
      (n garbage : ℕ) (j : Double)
      → double_eq j free_flag ≡ false
      → find_slot j (replicate n (record { key = free_flag; payload = garbage })) ≡ none
  unfolding find_slot
  free_slots zero garbage j used = refl
  free_slots (suc n) garbage j used = rw used (free_slots n garbage j used)

  pub empty_find :
      (n i garbage : ℕ) (j : Double)
      → double_eq j free_flag ≡ false
      → at_block (get_elem? (replicate n (empty_block garbage)) i) j ≡ none
  empty_find zero i garbage j used = refl
  empty_find (suc n) zero garbage j used =
      block_find_lem o (empty_block garbage) j ∙ rw (free_slots 15 garbage j used) refl
  empty_find (suc n) (suc i) garbage j used = empty_find n i garbage j used
