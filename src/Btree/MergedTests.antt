-- ===== src/Btree/MergedTests.antt =====
-- Two leaves of seven records.
use plin_cloud_edge_device_l.Common.{◌≡◌, refl, true, [], ◌∷◌, none, some, arith}
use plin_cloud_edge_device_l.Double.{is_nan, rank, double_lt, double_eq}
use plin_cloud_edge_device_l.Btree.{Records, BtreePlus, upsert, get_data}
use plin_cloud_edge_device_l.Btree.Lookup.{find_record}
use plin_cloud_edge_device_l.Btree.Sorted.{IsBtree}
use plin_cloud_edge_device_l.Btree.Deletion.{delete_entry}
use plin_cloud_edge_device_l.Btree.Merged.{without_key, two_leaves, upsert-delete_entry}

abbrev first_leaf : Records
first_leaf = (10, 1) ∷ (20, 2) ∷ (30, 3) ∷ (40, 4) ∷ (50, 5) ∷ (60, 6) ∷ (70, 7) ∷ []

abbrev second_leaf : Records
second_leaf = (80, 8) ∷ (90, 9) ∷ (100, 10) ∷ (110, 11) ∷ (120, 12) ∷ (130, 13) ∷ (140, 14) ∷ []

two_leaves-IsBtree : IsBtree (two_leaves 10 first_leaf 80 second_leaf)
unfolding is_nan rank
two_leaves-IsBtree = (
  (
    refl,
    omega arith,
    (
      (
        refl,
        omega arith,
        refl,
        (
          refl,
          omega arith,
          refl,
          (
            refl,
            omega arith,
            refl,
            (
              refl,
              omega arith,
              refl,
              (
                refl,
                omega arith,
                refl,
                (refl, omega arith, refl, (refl, omega arith, refl, omega arith)),
              ),
            ),
          ),
        ),
      ),
      omega arith,
    ),
    (
      (
        refl,
        omega arith,
        refl,
        (
          refl,
          omega arith,
          refl,
          (
            refl,
            omega arith,
            refl,
            (
              refl,
              omega arith,
              refl,
              (
                refl,
                omega arith,
                refl,
                (refl, omega arith, refl, (refl, omega arith, refl, omega arith)),
              ),
            ),
          ),
        ),
      ),
      omega arith,
    ),
  ),
  omega arith,
)

upsert-delete_entry_example :
    (t' : BtreePlus) × (delete_entry (two_leaves 10 first_leaf 80 second_leaf) 30 ≡ some (true, t'))
    × (get_data t' ≡ without_key (get_data (two_leaves 10 first_leaf 80 second_leaf)) 30)
    × (upsert t' 55 1 ≡ none)
upsert-delete_entry_example =
    upsert-delete_entry 10 80 30 55 first_leaf second_leaf 1 two_leaves-IsBtree refl refl
      (unfold is_nan in refl) (unfold is_nan in refl) (unfold double_lt is_nan rank in refl)
      (unfold find_record double_eq is_nan rank in refl)
      (unfold find_record without_key double_eq is_nan rank in refl)
