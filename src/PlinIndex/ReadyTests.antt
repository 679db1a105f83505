-- ===== src/PlinIndex/ReadyTests.antt =====
-- An index of two leaves that no one has a lock of, and the theorems on it.
use plin_cloud_edge_device_l.Common.{
  ℕ, zero, suc, ◌≡◌, refl, sym, ap, ◌<◌, true, false, List, [], ◌∷◌, Option, some, arith, All,
  get_elem?,
}
use mathlib.Core.Option.{some-injective}
use plin_cloud_edge_device_l.Double.{Double, is_nan, rank, double_eq, double_le}
use plin_cloud_edge_device_l.Plin.Tests.{small}
use plin_cloud_edge_device_l.PlinIndex.Slot
use plin_cloud_edge_device_l.PlinIndex.Slot.{InnerSlot}
use plin_cloud_edge_device_l.PlinIndex.Leaf.{Block, is_locked}
use plin_cloud_edge_device_l.PlinIndex.Index
use plin_cloud_edge_device_l.PlinIndex.Index.{LearnedIndex, inside, accelerator_for}
use plin_cloud_edge_device_l.PlinIndex.Returns.{IsReadyLeaf}
use plin_cloud_edge_device_l.PlinIndex.Ready.{IsReady}
use plin_cloud_edge_device_l.PlinIndex.Refined.{
  IsKey, Contents, put_all, run_upserts, Represents, IsPut, represented, run_upserts-put_all,
}
use plin_cloud_edge_device_l.PlinIndex.Btrees.{btrees}
use plin_cloud_edge_device_l.PlinIndex.Tests.{vacant, leaf_at, leaves, root_slot, index_of}

abbrev pub start : LearnedIndex btrees
start = index_of leaves

three_vacant :
    (i : ℕ) (b : Block btrees)
    → get_elem? (vacant ∷ vacant ∷ vacant ∷ []) i ≡ some b
    → is_locked btrees b ≡ false
three_vacant zero b e = ap (is_locked btrees) (sym (some-injective _ _ e))
three_vacant (suc zero) b e = ap (is_locked btrees) (sym (some-injective _ _ e))
three_vacant (suc (suc zero)) b e = ap (is_locked btrees) (sym (some-injective _ _ e))
three_vacant (suc (suc (suc i))) b e = cc

leaf-IsReadyLeaf :
    (first : Double) → IsReadyLeaf btrees (leaf_at first (vacant ∷ vacant ∷ vacant ∷ []))
leaf-IsReadyLeaf first = record {
  abandoned = refl;
  locked = refl;
  three = omega arith;
  small = omega arith;
  blocks = refl;
  unlocked = three_vacant;
}

above_least : (k : Double) → inside small btrees start k ≡ true → double_le 0 k ≡ true
above_least k h = ground (arith, h)

one_root : (k : Double) → double_le 0 k ≡ true → Index.roots_below k (root_slot ∷ []) ≡ 1
unfolding Index.roots_below
one_root k h = rw h refl

routed :
    (k : Double)
    → inside small btrees start k ≡ true
    → accelerator_for small btrees start k ≡ some root_slot
unfolding Index.choose Index.get_parent Index.roots_below Slot.is_inner
routed k h = rw (one_root k (above_least k h), Index.choose, Index.get_parent) refl

pub start-IsReady : IsReady small btrees start
start-IsReady = record {
  leaves = (leaf-IsReadyLeaf 0, (leaf-IsReadyLeaf 320, tt));
  rebuilding = refl;
  routes = λ k h. (
    root_slot,
    routed k h,
    unfold Slot.block_number in refl,
    unfold Slot.check_read_lock in refl,
    unfold Slot.check_write_lock in refl,
  );
}

-- What the index holds at first.
abbrev pub held : Contents
held = (represented small btrees start start-IsReady).0

-- Two puts into a leaf, one of them again, and one into the right buffer.
abbrev ops : List (Double × ℕ)
ops = (10, 4) ∷ (330, 5) ∷ (10, 6) ∷ (500, 7) ∷ []

pub below_thousand-IsKey : (k : Double) → k < 1000 → IsKey k
unfolding is_nan double_eq rank
below_thousand-IsKey k h = record {
  number = ground (arith, h);
  pattern = ground (arith, h);
  positive_zero = ground (arith, h);
  used = ground (arith, h);
}

ops-IsPut : All (IsPut small btrees start) ops
unfolding double_eq is_nan rank
ops-IsPut = (
  (below_thousand-IsKey 10 (omega arith), refl, refl, refl),
  (
    (below_thousand-IsKey 330 (omega arith), refl, refl, refl),
    (
      (below_thousand-IsKey 10 (omega arith), refl, refl, refl),
      ((below_thousand-IsKey 500 (omega arith), refl, refl, refl), tt),
    ),
  ),
)

run_upserts-put_all_example :
    (ix' : LearnedIndex btrees) × (run_upserts small btrees start ops ≡ some ix')
    × IsReady small btrees ix'
    × Represents small btrees ix' (put_all held ops)
run_upserts-put_all_example =
    run_upserts-put_all small btrees start held ops start-IsReady
      (represented small btrees start start-IsReady).1 ops-IsPut
