-- ===== src/Store.antt =====
-- The containers of other projects that an End uses, behind their documented behaviour: the map of
-- libcuckoo (src/end/hot_cache.h) and the B+ tree map of tlx (`LocalStore` of src/end/end_node.cpp).
-- Keys are compared as doubles, so that -0 and +0 are one key, and no entry is found under a NaN.
pub mod Tests
use plin_cloud_edge_device_l.Common.{
  ℕ, suc, ◌≡◌, Bool, true, false, List, [], ◌∷◌, Option, none, some, if◌then◌else◌,
}
use plin_cloud_edge_device_l.Double.{Double, is_nan, double_eq}
use mathlib.Core.Option.{get_or}

-- `libcuckoo::cuckoohash_map<double, uint64_t>`.
pub record CuckooMap : Type 1 where
  pub Map : Type 0
  pub empty : Map
  pub find : Map → Double → Option ℕ
  pub insert_or_assign : Map → Double → ℕ → Map
  pub find-empty : (k : Double) → find empty k ≡ none
  pub find-insert_or_assign :
      (m : Map) (k j : Double) (v : ℕ)
      → find (insert_or_assign m k v) j ≡ (if double_eq k j then some v else find m j)

-- `tlx::btree_map<double, uint64_t>`: `insert` keeps the entry that is there. With a NaN among the keys
-- the order of the tree is no order, so nothing is said then.
pub record BtreeMap : Type 1 where
  pub Map : Type 0
  pub empty : Map
  pub find : Map → Double → Option ℕ
  pub insert : Map → Double → ℕ → Map
  pub find-empty : (k : Double) → find empty k ≡ none
  pub find-insert :
      (m : Map) (k j : Double) (v : ℕ)
      → is_nan k ≡ false
      → is_nan j ≡ false
      → find (insert m k v) j ≡ (if double_eq k j then some (get_or (find m k) v) else find m j)

-- `HotCache::batch_upsert` of src/end/hot_cache.h.
module _ (c : CuckooMap) where
  unfoldable pub batch_upsert : c.Map → List (Double × ℕ) → c.Map
  batch_upsert m [] = m
  batch_upsert m ((k, v) ∷ kv) = batch_upsert (c.insert_or_assign m k v) kv

-- The loop of `load_range` of src/end/end_node.cpp over the rows of the file, and `loaded`.
module _ (t : BtreeMap) where
  unfoldable pub load_range : (Double → Bool) → List (Double × ℕ) → t.Map × ℕ → t.Map × ℕ
  load_range within [] s = s
  load_range within ((k, p) ∷ rows) (m, n) =
      load_range within rows (if within k then (t.insert m k p, suc n) else (m, n))
