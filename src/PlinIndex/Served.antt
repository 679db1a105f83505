-- ===== src/PlinIndex/Served.antt =====
-- `PlinIndex::find` after `PlinIndex::upsert` (src/core/index/plin_index.h), in the leaves and the buffers.
use plin_cloud_edge_device_l.Common.{
  ℕ, zero, suc, ◌≡◌, refl, sym, ap, ◌∙◌, ◌⊎◌, inl, inr, true, false, List, [], ◌∷◌, ◌++◌, Option,
  some, arith, ◌==◌, ◌<◌, if◌then◌else◌, Bool-cases, Option-cases, length, take, drop, get_elem?,
  ◌%◌, ◌||◌, lt-of_get_elem?, ◌>>=◌,
}
use mathlib.Core.Option.{some-injective}
use plin_cloud_edge_device_l.Double.{Double, is_nan, double_eq, double_eq_refl}
use plin_cloud_edge_device_l.Plin.Predict.{Arith}
use plin_cloud_edge_device_l.PlinIndex.{free_flag}
use plin_cloud_edge_device_l.PlinIndex.Slot
use plin_cloud_edge_device_l.PlinIndex.Slot.{InnerSlot}
use plin_cloud_edge_device_l.PlinIndex.Leaf.{OverflowTree, Leaf}
use plin_cloud_edge_device_l.PlinIndex.Chain
use plin_cloud_edge_device_l.PlinIndex.Chain.{Changed}
use plin_cloud_edge_device_l.PlinIndex.Upsert.{upsert-Upserted}
use plin_cloud_edge_device_l.PlinIndex.FindUpsert
use plin_cloud_edge_device_l.PlinIndex.Others.{
  SameChain, chain_drop, chain_take, find_same, upsert-SameChain,
}
use plin_cloud_edge_device_l.PlinIndex.Index.{
  LearnedIndex, accelerator_for, with_leaves, find_at, find_inside, upsert_at, upsert_inside,
}

module _ (a : Arith) (o : OverflowTree) where
  -- What an upsert into the leaves has done.
  abbrev Stored : LearnedIndex o → Double → ℕ → LearnedIndex o → Type 0
  Stored ix k v ix' =
      (acc : InnerSlot) × (c : Changed o) × (accelerator_for a o ix k ≡ some acc)
      × (acc.ptr < length ix.leaves)
      × (Chain.upsert a o (drop acc.ptr ix.leaves) k v (some acc) ≡ some c)
      × ((c.ret == 7) ≡ false)
      × (ix' ≡ with_leaves a o ix acc.ptr c.leaves)

  upsert_at-Stored :
      (ix ix' : LearnedIndex o) (k : Double) (v ret : ℕ) (split : Option ℕ) (acc : InnerSlot)
      → accelerator_for a o ix k ≡ some acc
      → upsert_at a o ix k v acc ≡ some (ret, split, ix')
      → Stored ix k v ix'
  unfolding upsert_at
  upsert_at-Stored ix ix' k v ret split acc e h =
      elim (Option-cases (get_elem? ix.leaves acc.ptr)) [
        | inl n ↦ cc (rw (n, ◌>>=◌) at h)
        | inr (leaf, n) ↦
            let h1 = (rw (n, ◌>>=◌) at h) in
            elim (Bool-cases (leaf.locked % 2 == 1 || ix.rebuilding)) [
              | inl t ↦ cc (rw t at h1)
              | inr f ↦
                  elim (Option-cases (Chain.upsert a o (drop acc.ptr ix.leaves) k v (some acc))) [
                    | inl m ↦ cc (rw (f, m, ◌>>=◌) at h1)
                    | inr (c, m) ↦
                        let h2 = (rw (f, m, ◌>>=◌) at h1) in
                        elim (Bool-cases (c.ret == 7)) [
                          | inl t ↦ cc (rw t at h2)
                          | inr done ↦
                              let q = some-injective _ _ (rw done at h2) in
                              (
                                acc,
                                c,
                                e,
                                lt-of_get_elem? ix.leaves acc.ptr n,
                                m,
                                done,
                                sym (ap (λ x. x.2) q),
                              )
                        ]
                  ]
            ]
      ]

  upsert_inside-Stored :
      (ix ix' : LearnedIndex o) (k : Double) (v ret : ℕ) (split : Option ℕ)
      → upsert_inside a o ix k v ≡ some (ret, split, ix')
      → Stored ix k v ix'
  unfolding upsert_inside
  upsert_inside-Stored ix ix' k v ret split h = elim (Option-cases (accelerator_for a o ix k)) [
    | inl e ↦ cc (rw (e, upsert_inside) at h)
    | inr (acc, e) ↦ upsert_at-Stored ix ix' k v ret split acc e (rw (e, upsert_inside) at h)
  ]

  drop-take_append : (n : ℕ) (xs ys : List (Leaf o)) → n < length xs → drop n (take n xs ++ ys) ≡ ys
  drop-take_append zero xs ys h = refl
  drop-take_append (suc n) [] ys h = absurd (omega (arith, h))
  drop-take_append (suc n) (x ∷ xs) ys h = drop-take_append n xs ys (omega (arith, h))

  find_inside_at :
      (ix : LearnedIndex o) (acc : InnerSlot) (j : Double) (p : ℕ)
      → accelerator_for a o ix j ≡ some acc
      → find_inside a o ix j p ≡ find_at a o ix j p acc
  find_inside_at ix acc j p e = unfold find_inside in rw (e, find_inside) refl

  -- The search for another key finds what it did before, wherever it starts.
  find_inside_other :
      (ix : LearnedIndex o) (ptr : ℕ) (leaves : List (Leaf o)) (j : Double) (p : ℕ)
      → SameChain a o j (drop ptr ix.leaves) leaves
      → find_inside a o (with_leaves a o ix ptr leaves) j p ≡ find_inside a o ix j p
  find_inside_other ix ptr leaves j p same = elim (Option-cases (accelerator_for a o ix j)) [
    | inl e ↦ unfold find_inside in rw (e, find_inside) refl
    | inr (acc, e) ↦
        find_inside_at (with_leaves a o ix ptr leaves) acc j p e
        ∙ unfold find_at in
          rw
            (find_same a o j (drop acc.ptr ix.leaves) (drop acc.ptr (take ptr ix.leaves ++ leaves))
              p (some acc)
              (chain_drop a o j acc.ptr ix.leaves (take ptr ix.leaves ++ leaves)
                (chain_take a o j ptr ix.leaves leaves same)))
            (sym (find_inside_at ix acc j p e))
  ]

  readable :
      (ls : List (Leaf o)) (k : Double) (v : ℕ) (acc : InnerSlot) (c : Changed o)
      → Chain.upsert a o ls k v (some acc) ≡ some c
      → (c.ret == 7) ≡ false
      → Slot.check_read_lock acc ≡ true
  unfolding Chain.may_read
  readable [] k v acc c u done = unfold Chain.upsert in cc u
  readable (l ∷ next) k v acc c u done = (upsert-Upserted a o (some acc) l next k v c u done).0

  find_inside_own :
      (ix : LearnedIndex o) (acc : InnerSlot) (c : Changed o) (k : Double) (v p : ℕ)
      → is_nan k ≡ false
      → (v == 0) ≡ false
      → double_eq k free_flag ≡ false
      → accelerator_for a o ix k ≡ some acc
      → acc.ptr < length ix.leaves
      → Chain.upsert a o (drop acc.ptr ix.leaves) k v (some acc) ≡ some c
      → (c.ret == 7) ≡ false
      → find_inside a o (with_leaves a o ix acc.ptr c.leaves) k p ≡ some (true, v)
  unfolding find_at
  find_inside_own ix acc c k v p number payload used e lt u done =
      let law =
        FindUpsert.find-upsert a o (drop acc.ptr ix.leaves) k k v p (some acc) c number payload used
          (inl refl) u done in
      find_inside_at (with_leaves a o ix acc.ptr c.leaves) acc k p e
      ∙ rw
          (
            readable (drop acc.ptr ix.leaves) k v acc c u done,
            drop-take_append acc.ptr ix.leaves c.leaves lt,
            law,
            double_eq_refl k number,
          )
          refl

  pub inside-find_inside :
      (ix ix' : LearnedIndex o) (k j : Double) (v p ret : ℕ) (split : Option ℕ)
      → is_nan k ≡ false
      → (v == 0) ≡ false
      → double_eq j free_flag ≡ false
      → (k ≡ j) ⊎ (double_eq k j ≡ false)
      → upsert_inside a o ix k v ≡ some (ret, split, ix')
      → (leaves : List (Leaf o)) × (ptr : ℕ) × (ix' ≡ with_leaves a o ix ptr leaves)
        × (find_inside a o ix' j p
            ≡ (if double_eq k j then some (true, v) else find_inside a o ix j p))
  inside-find_inside ix ix' k j v p ret split number payload used same h =
      let (acc, c, e, lt, u, done, q) = upsert_inside-Stored ix ix' k v ret split h in
      (
        c.leaves,
        acc.ptr,
        q,
        rw q (elim same [
          | inl eq ↦
              rw (← eq, double_eq_refl k number)
                (find_inside_own ix acc c k v p number payload (rw (sym eq) at used) e lt u done)
          | inr other ↦ rw other (
              find_inside_other ix acc.ptr c.leaves j p (
                upsert-SameChain a o j (drop acc.ptr ix.leaves) k v (some acc) c number payload used
                  other u done))
        ]),
      )
