-- ===== src/Store/Tests.antt =====
-- Maps as lists of entries, the newest first.
use plin_cloud_edge_device_l.Common.{
  ℕ, ◌≡◌, refl, List, [], ◌∷◌, Option, none, some, if◌then◌else◌, ◌==◌,
}
use plin_cloud_edge_device_l.Double.{Double, double_eq, is_nan, rank}
use mathlib.Core.Option.{get_or}
use plin_cloud_edge_device_l.Store.{CuckooMap, BtreeMap, batch_upsert, load_range}

abbrev entry : List (Double × ℕ) → Double → Option ℕ
entry [] j = none
entry ((k, v) ∷ m) j = if double_eq k j then some v else entry m j

abbrev pub list_cuckoo : CuckooMap
list_cuckoo = record {
  Map = List (Double × ℕ);
  empty = [];
  find = entry;
  insert_or_assign = λ m k v. (k, v) ∷ m;
  find-empty = λ k. refl;
  find-insert_or_assign = λ m k j v. refl;
}

abbrev pub list_btree : BtreeMap
list_btree = record {
  Map = List (Double × ℕ);
  empty = [];
  find = entry;
  insert = λ m k v. (k, get_or (entry m k) v) ∷ m;
  find-empty = λ k. refl;
  find-insert = λ m k j v p q. refl;
}

test-batch_upsert :
    list_cuckoo.find (batch_upsert list_cuckoo [] ((3, 30) ∷ (4, 40) ∷ (3, 31) ∷ [])) 3 ≡ some 31
unfolding batch_upsert double_eq is_nan rank
test-batch_upsert = refl

test-load_range :
    load_range list_btree (λ k. k == 3) ((3, 30) ∷ (4, 40) ∷ (3, 31) ∷ []) ([], 0)
    ≡ ((3, 30) ∷ (3, 30) ∷ [], 2)
unfolding load_range double_eq is_nan rank
test-load_range = refl
