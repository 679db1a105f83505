-- ===== src/Btree/Tests.antt =====
-- A leaf that one more record makes full, and a tree of two leaves.
use plin_cloud_edge_device_l.Common.{ℕ, ◌≡◌, refl, [], ◌∷◌, some, arith, if◌then◌else◌}
use plin_cloud_edge_device_l.Double.{is_nan, rank, double_eq}
use plin_cloud_edge_device_l.Btree.{Records, BtreePlus, get_data, upsert, find, range_query}
use plin_cloud_edge_device_l.Btree.Lookup.{find_record, put_sorted, is_none}
use plin_cloud_edge_device_l.Btree.Sorted.{IsBtree, within_ranks, range_query-get_data}
use plin_cloud_edge_device_l.Btree.Upsert.{upsert-put_sorted, find-upsert_tree}

-- Twelve records.
abbrev dozen : Records
dozen =
    (10, 1)
    ∷ (20, 2)
    ∷ (30, 3)
    ∷ (40, 4)
    ∷ (50, 5)
    ∷ (60, 6)
    ∷ (70, 7)
    ∷ (80, 8)
    ∷ (90, 9)
    ∷ (100, 10)
    ∷ (110, 11)
    ∷ (120, 12)
    ∷ []

abbrev one_leaf : BtreePlus
one_leaf = record { height = 0; root = dozen }

one_leaf-IsBtree : IsBtree one_leaf
unfolding is_nan rank
one_leaf-IsBtree = (
  (
    refl,
    omega arith,
    refl,
    (
      refl,
      omega arith,
      refl,
      (
        refl,
        omega arith,
        refl,
        (
          refl,
          omega arith,
          refl,
          (
            refl,
            omega arith,
            refl,
            (
              refl,
              omega arith,
              refl,
              (
                refl,
                omega arith,
                refl,
                (
                  refl,
                  omega arith,
                  refl,
                  (
                    refl,
                    omega arith,
                    refl,
                    (
                      refl,
                      omega arith,
                      refl,
                      (refl, omega arith, refl, (refl, omega arith, refl, omega arith)),
                    ),
                  ),
                ),
              ),
            ),
          ),
        ),
      ),
    ),
  ),
  omega arith,
)

upsert-put_sorted_example :
    (t' : BtreePlus) × (upsert one_leaf 55 7
      ≡ some (if is_none (find_record (get_data one_leaf) 55) then 4 else 3, t'))
    × IsBtree t'
    × (get_data t' ≡ put_sorted (get_data one_leaf) 55 7)
upsert-put_sorted_example =
    upsert-put_sorted one_leaf 55 7 one_leaf-IsBtree (unfold is_nan in refl) refl

abbrev two_leaves : BtreePlus
two_leaves = record {
  height = 1;
  root = (10, (10, 1) ∷ (20, 2) ∷ []) ∷ (30, (30, 3) ∷ (40, 4) ∷ []) ∷ [];
}

two_leaves-IsBtree : IsBtree two_leaves
unfolding is_nan rank
two_leaves-IsBtree = (
  (
    refl,
    omega arith,
    ((refl, omega arith, refl, (refl, omega arith, refl, omega arith)), omega arith),
    ((refl, omega arith, refl, (refl, omega arith, refl, omega arith)), omega arith),
  ),
  omega arith,
)

find-upsert_tree_example :
    (ret : ℕ) × (t' : BtreePlus) × (upsert two_leaves 25 9 ≡ some (ret, t'))
    × (find t' 30 ≡ (if double_eq 25 30 then some (some 9) else find two_leaves 30))
find-upsert_tree_example =
    find-upsert_tree two_leaves 25 30 9 two_leaves-IsBtree (unfold is_nan in refl)
      (unfold is_nan in refl) refl

range_query-get_data_example :
    range_query two_leaves 15 35 ≡ within_ranks (rank 15) (rank 35) (get_data two_leaves)
range_query-get_data_example =
    range_query-get_data two_leaves 15 35 two_leaves-IsBtree (unfold is_nan in refl)
      (unfold is_nan in refl)
