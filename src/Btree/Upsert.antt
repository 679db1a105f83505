-- ===== src/Btree/Upsert.antt =====
-- `btree_plus::upsert` (src/core/index/b_plus.h) on a tree in order: its records are those of the tree with
-- one put in its place.
use plin_cloud_edge_device_l.Common.{
  ℕ, zero, suc, ◌^◌, ◌≤◌, ◌<◌, ◌≡◌, refl, sym, ap, ◌∙◌, false, inl, inr, ◌++◌, Option, none, some,
  arith, ◌==◌, if◌then◌else◌, Bool-cases, append-nil,
}
use plin_cloud_edge_device_l.Double.{Double, is_nan, rank, double_eq}
use plin_cloud_edge_device_l.Btree.{
  Page, Records, BtreePlus, Grown, page_data, get_data, split_if_full, upsert_page, new_root,
  upsert, find,
}
use plin_cloud_edge_device_l.Btree.Lookup.{
  find_record, put_sorted, is_none, insert_in_node-put_sorted, put_sorted-Rising, length-put_sorted,
  length-put_sorted_same,
}
use plin_cloud_edge_device_l.Btree.Append.{find_record-put_sorted}
use plin_cloud_edge_device_l.Btree.Sorted.{
  Sorted, IsBtree, Sorted-Rising, rank_lt, focused, focused_child, find-get_data,
}
use plin_cloud_edge_device_l.Btree.Parent.{Puts, parent_Puts}
use plin_cloud_edge_device_l.Btree.Split.{Siblings, grown_data, split_if_full-Siblings}

leaf_Puts :
    (lo hi : ℕ) (rs : Records) (k : Double) (v : ℕ)
    → is_nan k ≡ false
    → (v == 0) ≡ false
    → lo ≤ rank k
    → rank k < hi
    → Sorted zero lo hi rs
    → (g : Grown zero) × (upsert_page zero rs k v ≡ some g) × Puts zero lo hi rs k v g
unfolding upsert_page page_data
leaf_Puts lo hi rs k v number payload above below (w, small) =
    let inserted = insert_in_node-put_sorted lo hi rs k v number w small in
    let rising = put_sorted-Rising lo hi rs k v number payload above below w in
    elim (Bool-cases (is_none (find_record rs k))) [
      | inl t ↦
          let (ret, siblings, same) =
            split_if_full-Siblings zero lo hi 4 (put_sorted rs k v) rising
              (omega (arith, small, length-put_sorted rs k v)) in
          (
            split_if_full zero 4 (put_sorted rs k v),
            rw (inserted, t, upsert_page) refl,
            (rw t ret, siblings, same),
          )
      | inr f ↦ (
        record { ret = 3; node = put_sorted rs k v; sibling = none },
        rw (inserted, f, upsert_page) refl,
        (
          rw f refl,
          (rising, omega (arith, small, length-put_sorted_same lo hi rs k v number w f)),
          refl,
        ),
      )
    ]

upsert_page-Puts :
    (n lo hi : ℕ) (rs : Page n) (k : Double) (v : ℕ)
    → is_nan k ≡ false
    → (v == 0) ≡ false
    → lo ≤ rank k
    → rank k < hi
    → Sorted n lo hi rs
    → (g : Grown n) × (upsert_page n rs k v ≡ some g) × Puts n lo hi rs k v g
unfolding upsert_page
upsert_page-Puts zero lo hi rs k v number payload above below w =
    leaf_Puts lo hi rs k v number payload above below w
upsert_page-Puts (suc n) lo hi rs k v number payload above below w =
    let x = focused n lo hi rs k number above below w in
    let (g, e, puts) =
      upsert_page-Puts n x.from x.to x.child k v number payload x.above x.below x.inner in
    let (g', e', puts') = parent_Puts n lo hi rs k v x number w.1 g.ret g.node g.sibling puts in
    (g', rw (focused_child n lo hi rs k x, upsert_page) (rw e e'), puts')

root_data :
    (n ret : ℕ) (node : Page n) (sibling : Option (Double × Page n))
    → Siblings n 0 (2 ^ 64) node sibling
    → let t = new_root n (record { ret = ret; node = node; sibling = sibling }) in
      IsBtree t × (get_data t ≡ grown_data n node sibling)
unfolding new_root get_data
root_data n ret node none w = (w, refl)
root_data n ret node (some (s, p)) (nan, l, r) = (
  ((nan, omega arith, l, r), omega arith),
  unfold page_data in ap (λ d. page_data n node ++ d) (append-nil (page_data n p)),
)

-- An upsert of a key that is no NaN, with a payload other than 0, into a tree in order: it returns 4 for a
-- new key and 3 for one that is there, the tree is in order again, with no page full, and its records are
-- the old ones with the new one put in its place, or with the new payload.
pub upsert-put_sorted :
    (t : BtreePlus) (k : Double) (v : ℕ)
    → IsBtree t
    → is_nan k ≡ false
    → (v == 0) ≡ false
    → (t' : BtreePlus) × (upsert t k v
        ≡ some (if is_none (find_record (get_data t) k) then 4 else 3, t'))
      × IsBtree t'
      × (get_data t' ≡ put_sorted (get_data t) k v)
unfolding upsert
upsert-put_sorted t k v w number payload =
    let (g, e, (ret, siblings, same)) =
      upsert_page-Puts t.height 0 (2 ^ 64) t.root k v number payload (omega arith)
        (rank_lt k number) w in
    let data_of : get_data t ≡ page_data t.height t.root = unfold get_data in refl in
    let (ordered, d) = root_data t.height g.ret g.node g.sibling siblings in
    (
      new_root t.height g,
      rw (e, upsert, data_of) (ap (λ r. some (r, new_root t.height g)) ret),
      ordered,
      d ∙ same ∙ ap (λ r. put_sorted r k v) (sym data_of),
    )

-- A search after an upsert, of keys that are no NaN: it finds the new payload under the key, and under other
-- keys what it found before.
pub find-upsert_tree :
    (t : BtreePlus) (k j : Double) (v : ℕ)
    → IsBtree t
    → is_nan k ≡ false
    → is_nan j ≡ false
    → (v == 0) ≡ false
    → (ret : ℕ) × (t' : BtreePlus) × (upsert t k v ≡ some (ret, t'))
      × (find t' j ≡ (if double_eq k j then some (some v) else find t j))
find-upsert_tree t k j v w number other payload =
    let (t', e, ordered, same) = upsert-put_sorted t k v w number payload in
    (
      _,
      t',
      e,
      find-get_data t' j ordered other
          ∙ ap (λ r. some (find_record r j)) same
          ∙ ap some (
              find_record-put_sorted 0 (2 ^ 64) (get_data t) k j v number other
                (unfold get_data in Sorted-Rising t.height 0 (2 ^ 64) t.root w))
          ∙ elim (Bool-cases (double_eq k j)) [
            | inl q ↦ rw q refl
            | inr q ↦ rw q (sym (find-get_data t j w other))
          ],
    )
