-- ===== src/PlinIndex/Others.antt =====
-- What an upsert into the leaves (src/core/index/leaf_node.h) leaves as it was for the other keys, from
-- wherever the search for one starts.
use plin_cloud_edge_device_l.Common.{
  ℕ, zero, suc, ◌≡◌, refl, ◌∙◌, inl, inr, false, List, [], ◌∷◌, ◌++◌, Option, none, some, ◌==◌,
  Bool-cases, take, drop,
}
use plin_cloud_edge_device_l.Double.{Double, is_nan, double_eq}
use plin_cloud_edge_device_l.Plin.Predict.{Arith}
use plin_cloud_edge_device_l.PlinIndex.{free_flag}
use plin_cloud_edge_device_l.PlinIndex.Slot.{InnerSlot}
use plin_cloud_edge_device_l.PlinIndex.Leaf.{OverflowTree, Leaf}
use plin_cloud_edge_device_l.PlinIndex.Chain.{
  chosen_block, passes_on, may_read, find_here, find, Changed, upsert,
}
use plin_cloud_edge_device_l.PlinIndex.Upsert.{
  SameModel, same_block, same_passes_on, same_may_read, passes_on_head, upsert-Upserted,
}
use plin_cloud_edge_device_l.PlinIndex.FindUpsert.{find_here_written, find_step}

module _ (a : Arith) (o : OverflowTree) (j : Double) where
  -- For the key, the leaves are the same.
  abbrev pub SameFor : Leaf o → Leaf o → Type 0
  SameFor l l' =
      SameModel a o l l' × ((block p : ℕ) → find_here a o l' block j p ≡ find_here a o l block j p)

  abbrev pub SameChain : List (Leaf o) → List (Leaf o) → Type 0
  SameChain [] [] = Unit {0}
  SameChain [] (l' ∷ c') = ⊥
  SameChain (l ∷ c) [] = ⊥
  SameChain (l ∷ c) (l' ∷ c') = SameFor l l' × SameChain c c'

  same_refl : (l : Leaf o) → SameFor l l
  same_refl l = (
    record { slope = refl; intercept = refl; block_number = refl; first_key = refl; locked = refl },
    λ block p. refl,
  )

  chain_refl : (c : List (Leaf o)) → SameChain c c
  chain_refl [] = tt
  chain_refl (l ∷ c) = (same_refl l, chain_refl c)

  pub chain_drop :
      (n : ℕ) (c c' : List (Leaf o)) → SameChain c c' → SameChain (drop n c) (drop n c')
  chain_drop zero c c' h = h
  chain_drop (suc n) [] [] h = tt
  chain_drop (suc n) [] (l' ∷ c') h = elim h [ ]
  chain_drop (suc n) (l ∷ c) [] h = elim h [ ]
  chain_drop (suc n) (l ∷ c) (l' ∷ c') (s, h) = chain_drop n c c' h

  pub chain_take :
      (n : ℕ) (c r : List (Leaf o)) → SameChain (drop n c) r → SameChain c (take n c ++ r)
  chain_take zero c r h = h
  chain_take (suc n) [] r h = h
  chain_take (suc n) (l ∷ c) r h = (same_refl l, chain_take n c r h)

  chain_passes_on :
      (acc : Option InnerSlot) (l : Leaf o) (c c' : List (Leaf o))
      → SameChain c c'
      → passes_on a o acc l c' j ≡ passes_on a o acc l c j
  chain_passes_on acc l [] [] h = refl
  chain_passes_on acc l [] (n' ∷ c') h = elim h [ ]
  chain_passes_on acc l (n ∷ c) [] h = elim h [ ]
  chain_passes_on acc l (n ∷ c) (n' ∷ c') (s, h) =
      passes_on_head a o acc l n n' c c' j s.0.first_key

  -- The search sees what is the same for its key.
  pub find_same :
      (c c' : List (Leaf o)) (p : ℕ) (acc : Option InnerSlot)
      → SameChain c c'
      → find a o c' j p acc ≡ find a o c j p acc
  find_same [] [] p acc h = refl
  find_same [] (l' ∷ c') p acc h = elim h [ ]
  find_same (l ∷ c) [] p acc h = elim h [ ]
  find_same (l ∷ c) (l' ∷ c') p acc ((m, here), h) = elim (Bool-cases (may_read a o acc l)) [
    | inr f ↦ unfold find in rw (same_may_read a o acc l l' m, f) refl
    | inl t ↦
        find_step a o acc l' c' j p (same_may_read a o acc l l' m ∙ t)
        ∙ rw
            (
              chain_passes_on acc l' c c' h,
              same_passes_on a o acc l l' c j m,
              same_block a o acc l l' j m,
              here (chosen_block a o acc l j) p,
              find_same c c' p none h,
              find_step a o acc l c j p t,
            )
            refl
  ]

  pub upsert-SameChain :
      (c : List (Leaf o)) (k : Double) (v : ℕ) (acc : Option InnerSlot) (r : Changed o)
      → is_nan k ≡ false
      → (v == 0) ≡ false
      → double_eq j free_flag ≡ false
      → double_eq k j ≡ false
      → upsert a o c k v acc ≡ some r
      → (r.ret == 7) ≡ false
      → SameChain c r.leaves
  upsert-SameChain [] k v acc r number payload used other e done = unfold upsert in cc e
  upsert-SameChain (l ∷ next) k v acc r number payload used other e done =
      let (readable, there) = upsert-Upserted a o acc l next k v r e done in
      elim there [
        | inl (c, pk, u, done', es) ↦
            rw es (same_refl l, upsert-SameChain next k v none c number payload used other u done')
        | inr (pk, w) ↦
            let (b, b', flag, l', at_block, free, u, m, bs, es) = w in
            rw es (
              (
                m,
                λ block p.
                    find_here_written a o l l' (chosen_block a o acc l k) block b b' flag k j v p
                      number payload used (inr other) at_block free u bs
                    ∙ rw other refl,
              ),
              chain_refl next,
            )
      ]
