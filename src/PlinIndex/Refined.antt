-- ===== src/PlinIndex/Refined.antt =====
-- `PlinIndex::find` and `PlinIndex::upsert` (src/core/index/plin_index.h) as the operations of a map from
-- keys to payloads, on an index that no other thread has a lock of.
use plin_cloud_edge_device_l.Common.{
  ℕ, ◌^◌, ◌<◌, ◌≡◌, refl, ap, ◌∙◌, ◌⊎◌, inl, inr, true, false, List, [], ◌∷◌, Option, some, arith,
  All, ◌==◌, if◌then◌else◌, Bool-cases, ◌>>=◌,
}
use plin_cloud_edge_device_l.Double.{Double, is_nan, rank, double_eq}
use plin_cloud_edge_device_l.Plin.Predict.{Arith}
use plin_cloud_edge_device_l.PlinIndex.{free_flag}
use plin_cloud_edge_device_l.PlinIndex.Leaf.{OverflowTree}
use plin_cloud_edge_device_l.PlinIndex.Ready.{IsReady, upsert-Kept, find_total}
use plin_cloud_edge_device_l.PlinIndex.Ends.{find-upsert_lem}
use plin_cloud_edge_device_l.PlinIndex.Index.{LearnedIndex, found_or, find, upsert}

-- A key that the index can keep: a double of one pattern only, and not that of a free slot.
pub record IsKey (k : Double) : Type 0 where
  pub number : is_nan k ≡ false
  pub pattern : k < 2 ^ 64
  pub positive_zero : (k == 2 ^ 63) ≡ false
  pub used : double_eq k free_flag ≡ false

same_or_other : (k j : Double) → IsKey k → IsKey j → (k ≡ j) ⊎ (double_eq k j ≡ false)
unfolding double_eq rank is_nan
same_or_other k j p q = elim (Bool-cases (k == j)) [
  | inl t ↦ inl (ground (arith, t))
  | inr f ↦ inr (
      ground (arith, f, p.number, p.pattern, p.positive_zero, q.number, q.pattern, q.positive_zero))
]

-- A map from keys to payloads, where a copy of a key is the key.
abbrev pub Contents : Type 0
Contents = Double → Option ℕ

unfoldable pub put : Contents → Double → ℕ → Contents
put m k v j = if double_eq k j then some v else m j

unfoldable pub put_all : Contents → List (Double × ℕ) → Contents
put_all m [] = m
put_all m ((k, v) ∷ ops) = put_all (put m k v) ops

module _ (a : Arith) (o : OverflowTree) where
  -- One upsert after the other.
  unfoldable pub run_upserts : LearnedIndex o → List (Double × ℕ) → Option (LearnedIndex o)
  run_upserts ix [] = some ix
  run_upserts ix ((k, v) ∷ ops) = do (ret, split, ix') ← upsert a o ix k v; run_upserts ix' ops

  -- A search for any key that the index can keep finds its payload in the map, and leaves the payload of
  -- the caller where the map has none.
  abbrev pub Represents : LearnedIndex o → Contents → Type 0
  Represents ix m = (j : Double) → IsKey j → (p : ℕ) → find a o ix j p ≡ some (found_or a o p (m j))

  -- An upsert that the map follows: of a key that is not an end of the leaves, with a payload other than 0.
  abbrev pub IsPut : LearnedIndex o → Double × ℕ → Type 0
  IsPut ix (k, v) =
      IsKey k
      × ((v == 0) ≡ false)
      × (double_eq k ix.min_key ≡ false)
      × (double_eq k ix.max_key ≡ false)

  found_put :
      (m : Contents) (k j : Double) (v p : ℕ)
      → (if double_eq k j then some (true, v) else some (found_or a o p (m j)))
        ≡ some (found_or a o p (put m k v j))
  unfolding put
  found_put m k j v p = elim (Bool-cases (double_eq k j)) [ inl t ↦ rw t refl | inr f ↦ rw f refl ]

  upsert-put :
      (ix ix' : LearnedIndex o) (m : Contents) (k : Double) (v ret : ℕ) (split : Option ℕ)
      → IsPut ix (k, v)
      → Represents ix m
      → upsert a o ix k v ≡ some (ret, split, ix')
      → Represents ix' (put m k v)
  upsert-put ix ix' m k v ret split (key, payload, not_min, not_max) rep e j is p =
      find-upsert_lem a o ix ix' k j v p ret split key.number payload is.used
        (same_or_other k j key is) not_min not_max e
      ∙ ap (λ r. if double_eq k j then some (true, v) else r) (rep j is p)
      ∙ found_put m k j v p

  -- A ready index represents some map.
  pub represented : (ix : LearnedIndex o) → IsReady a o ix → (m : Contents) × Represents ix m
  represented ix w = (λ j. (find_total a o ix j w).0, λ j is p. (find_total a o ix j w).1 p)

  same_ends :
      (ix ix' : LearnedIndex o) (ops : List (Double × ℕ))
      → ix'.min_key ≡ ix.min_key
      → ix'.max_key ≡ ix.max_key
      → All (IsPut ix) ops
      → All (IsPut ix') ops
  same_ends ix ix' [] p q h = tt
  same_ends ix ix' (op ∷ ops) p q h =
      ((h.0.0, h.0.1, rw p h.0.2, rw q h.0.3), same_ends ix ix' ops p q h.1)

  -- On a ready index (no other thread has a lock of it, and no rebuild has begun) that represents a map, a
  -- sequence of upserts returns; the index is then ready again and represents the map after the same
  -- sequence of puts. No payload of the sequence is 0, and no key is a NaN, -0, the key of a free slot,
  -- 2 ^ 64 or more as a bit pattern, or the least or the greatest key of the leaves.
  pub run_upserts-put_all :
      (ix : LearnedIndex o) (m : Contents) (ops : List (Double × ℕ))
      → IsReady a o ix
      → Represents ix m
      → All (IsPut ix) ops
      → (ix' : LearnedIndex o) × (run_upserts ix ops ≡ some ix')
        × IsReady a o ix'
        × Represents ix' (put_all m ops)
  unfolding run_upserts put_all
  run_upserts-put_all ix m [] w rep h = (ix, refl, w, rep)
  run_upserts-put_all ix m ((k, v) ∷ ops) w rep h =
      let (ret, split, ix1, e, w1, p, q) = upsert-Kept a o ix k v h.0.0.number h.0.1 w in
      let (ix', r, w', rep') =
        run_upserts-put_all ix1 (put m k v) ops w1 (upsert-put ix ix1 m k v ret split h.0 rep e)
          (same_ends ix ix1 ops p q h.1) in
      (ix', rw (e, run_upserts) r, w', rep')
