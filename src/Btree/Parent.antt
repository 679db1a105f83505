-- ===== src/Btree/Parent.antt =====
-- An inner page of src/core/index/b_plus.h after an insertion into one of its children: `insert_into_parent`.
use plin_cloud_edge_device_l.Common.{
  ℕ, suc, ◌+◌, ◌<◌, ◌≡◌, refl, sym, ap, ◌∙◌, true, false, List, [], ◌∷◌, ◌++◌, Option, none, some,
  arith, ltb, lt→ltb, length-set, if◌then◌else◌, length, set, append_assoc, length-append,
}
use plin_cloud_edge_device_l.Double.{Double, is_nan, rank}
use plin_cloud_edge_device_l.Btree.{
  cardinality, Page, Grown, all_data, page_data, child_rank, insert_pair, insert_into_parent,
  split_if_full,
}
use plin_cloud_edge_device_l.Btree.Lookup.{Rising_le, find_record, put_sorted, is_none}
use plin_cloud_edge_device_l.Btree.Append.{
  put_sorted-behind, put_sorted-before, find_record-behind, find_record-before,
}
use plin_cloud_edge_device_l.Btree.Bounded.{Focus}
use plin_cloud_edge_device_l.Btree.Sorted.{Sorted, Sorted-Rising, all_data-append, focused_data}
use plin_cloud_edge_device_l.Btree.Split.{Core, Siblings, grown_data, split_if_full-Siblings}

set-middle :
    {A : Type 0} (before : List A) (a b : A) (behind : List A)
    → set (before ++ (a ∷ behind)) (length before) b ≡ before ++ (b ∷ behind)
set-middle [] a b behind = refl
set-middle (x ∷ before) a b behind = ap (◌∷◌ x) (set-middle before a b behind)

insert_pair-middle :
    {A : Type 0} (before : List A) (a b : A) (behind : List A)
    → insert_pair (before ++ (a ∷ behind)) (suc (length before)) b ≡ before ++ (a ∷ b ∷ behind)
unfolding insert_pair
insert_pair-middle [] a b behind = refl
insert_pair-middle (x ∷ before) a b behind = ap (◌∷◌ x) (insert_pair-middle before a b behind)

page_data-append :
    (n : ℕ) (xs ys : Page (suc n))
    → page_data (suc n) (xs ++ ys) ≡ all_data (page_data n) xs ++ all_data (page_data n) ys
unfolding page_data
page_data-append n xs ys = all_data-append (page_data n) xs ys

-- What an insertion of a record makes of a page in order.
abbrev pub Puts : (n lo hi : ℕ) → Page n → Double → ℕ → Grown n → Type 0
Puts n lo hi rs k v g =
    (g.ret ≡ (if is_none (find_record (page_data n rs) k) then 4 else 3))
    × Siblings n lo hi g.node g.sibling
    × (grown_data n g.node g.sibling ≡ put_sorted (page_data n rs) k v)

module _ (n lo hi : ℕ) (rs : Page (suc n)) (k : Double) (v : ℕ)
    (x : Focus (Sorted n) (page_data n) (Sorted-Rising n) lo hi rs k) (number : is_nan k ≡ false)
    (small : length rs < cardinality) where
  length_whole : suc (length x.before + length x.behind) < cardinality
  length_whole =
      omega (arith, small, ap length x.whole, length-append x.before ((x.key, x.child) ∷ x.behind))

  -- The records of the page, with the new one in those of the child.
  child_put :
      put_sorted (page_data (suc n) rs) k v
      ≡ all_data (page_data n) x.before
        ++ (put_sorted (page_data n x.child) k v ++ all_data (page_data n) x.behind)
  child_put =
      ap (λ r. put_sorted r k v) (focused_data n lo hi rs k x)
      ∙ put_sorted-behind lo x.from (all_data (page_data n) x.before) _ k v number x.data_before
          x.above
      ∙ ap (λ r. all_data (page_data n) x.before ++ r)
          (put_sorted-before x.to hi (page_data n x.child) (all_data (page_data n) x.behind) k v
            number x.data_behind x.below)

  child_lookup : find_record (page_data (suc n) rs) k ≡ find_record (page_data n x.child) k
  child_lookup =
      ap (λ r. find_record r k) (focused_data n lo hi rs k x)
      ∙ find_record-behind lo x.from (all_data (page_data n) x.before) _ k number x.data_before
          x.above
      ∙ find_record-before x.to hi (page_data n x.child) (all_data (page_data n) x.behind) k number
          x.data_behind x.below

  father :
      (node : Page n)
      → set rs (child_rank rs k) (x.key, node) ≡ x.before ++ ((x.key, node) ∷ x.behind)
  father node = rw (x.place, x.whole) (set-middle x.before (x.key, x.child) (x.key, node) x.behind)

  pub parent_Puts :
      (ret : ℕ) (node : Page n) (sibling : Option (Double × Page n))
      → Puts n x.from x.to x.child k v (record { ret = ret; node = node; sibling = sibling })
      → (g : Grown (suc n)) × (insert_into_parent n rs
            (child_rank rs k)
            x.key
            (record { ret = ret; node = node; sibling = sibling })
          ≡ some g)
        × Puts (suc n) lo hi rs k v g
  unfolding insert_into_parent
  parent_Puts ret node none (r, w, same) =
      let front = all_data (page_data n) x.before in
      let back = all_data (page_data n) x.behind in
      (
        record { ret = ret; node = x.before ++ ((x.key, node) ∷ x.behind); sibling = none },
        rw (father node) refl,
        (
          r ∙ ap (λ o. if is_none o then 4 else 3) (sym child_lookup),
          (
            x.rebuild node [] w,
            omega (arith, length_whole, length-append x.before ((x.key, node) ∷ x.behind)),
          ),
          page_data-append n x.before ((x.key, node) ∷ x.behind)
              ∙ ap (λ r. front ++ (r ++ back)) same
              ∙ sym child_put,
        ),
      )
  parent_Puts ret node (some (s, p)) (r, (nan, wl, wr), same) =
      let front = all_data (page_data n) x.before in
      let back = all_data (page_data n) x.behind in
      let parts = x.before ++ ((x.key, node) ∷ (s, p) ∷ x.behind) in
      let ordered : Core (suc n) lo hi parts = x.rebuild node ((s, p) ∷ []) (
        nan,
        Rising_le x.from (rank s) (page_data n node) (Sorted-Rising n x.from (rank s) node wl),
        wl,
        wr,
      ) in
      let q : insert_pair (set rs (child_rank rs k) (x.key, node)) (suc (child_rank rs k)) (s, p)
          ≡ parts =
        rw (father node, x.place) (insert_pair-middle x.before (x.key, node) (s, p) x.behind) in
      let (ret', siblings, data') =
        split_if_full-Siblings (suc n) lo hi ret parts ordered (
          omega
            (arith, length_whole, length-append x.before ((x.key, node) ∷ (s, p) ∷ x.behind))) in
      let room : ltb (length (set rs (child_rank rs k) (x.key, node))) cardinality ≡ true =
        lt→ltb _ cardinality
          (omega (arith, small, length-set rs (child_rank rs k) (x.key, node))) in
      (
        split_if_full (suc n) ret parts,
        rw (room, q) refl,
        (
          ret' ∙ r ∙ ap (λ o. if is_none o then 4 else 3) (sym child_lookup),
          siblings,
          data'
              ∙ page_data-append n x.before ((x.key, node) ∷ (s, p) ∷ x.behind)
              ∙ ap (λ r. front ++ r) (sym (append_assoc (page_data n node) (page_data n p) back))
              ∙ ap (λ r. front ++ (r ++ back)) same
              ∙ sym child_put,
        ),
      )
