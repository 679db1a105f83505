-- ===== src/End/Lookup/Warm.antt =====
-- What a lookup leaves in the hot cache (`EndNode::lookup` of src/end/end_node.cpp).
use plin_cloud_edge_device_l.Common.{
  ℕ, ◌≡◌, refl, sym, ap, ◌∙◌, inl, inr, Bool, true, false, ◌&&◌, some, arith, Bool-cases,
  Option-cases,
}
use plin_cloud_edge_device_l.Common.Int.{ℤ, pos, leb_ℤ, ◌==ℤ◌}
use plin_cloud_edge_device_l.Double.{Double, is_nan, double_eq_refl}
use plin_cloud_edge_device_l.RangeMap.{locate_end, same_edge}
use plin_cloud_edge_device_l.Plin.Predict.{Arith}
use plin_cloud_edge_device_l.Store.{CuckooMap, BtreeMap}
use plin_cloud_edge_device_l.End.{Node, State, ◌>>=◌}
use plin_cloud_edge_device_l.End.Fetch.{cross_edge_fetch}
use plin_cloud_edge_device_l.End.Lookup.{
  LookupResult, hot_cache, finish, warm, count, remote_stage, network_stages, remote_stages, lookup,
}

module _ (a : Arith) (c : CuckooMap) (t : BtreeMap) where
  find-insert_self :
      (m : c.Map) (k : Double) (v : ℕ)
      → is_nan k ≡ false
      → c.find (c.insert_or_assign m k v) k ≡ some v
  find-insert_self m k v number =
      c.find-insert_or_assign m k k v ∙ rw (double_eq_refl k number) refl

  remote_stage_warms :
      (edge : Bool) (k : Double) (s s' : State c) (r : LookupResult)
      → is_nan k ≡ false
      → remote_stage a c t edge k s ≡ some (r, s')
      → r.found ≡ true
      → c.find s'.hot_cache k ≡ some r.payload
  unfolding remote_stage finish warm
  remote_stage_warms false k s s' r number e f = ground arith
  remote_stage_warms true k s s' r number e f = elim (Option-cases (cross_edge_fetch c k 0 s)) [
    | inl h ↦ cc (rw (h, ◌>>=◌) at e)
    | inr ((v, u), h) ↦
        let e' = (rw (h, ◌>>=◌) at e) in
        let kept = find-insert_self u.hot_cache k v.out number in
        elim (Bool-cases v.success) [
          | inl ok ↦ cc (rw ok at e', kept)
          | inr bad ↦ cc (rw bad at e', f)
        ]
  ]

  remote_stages_hit :
      (n : Node t) (tgt : ℤ) (k : Double) (s : State c) (v : ℕ)
      → c.find s.hot_cache k ≡ some v
      → remote_stages a c t n tgt k s
        ≡ some (
          record { found = true; payload = v; stage = hot_cache },
          record s { stats = count hot_cache s.stats },
        )
  unfolding finish remote_stages count
  remote_stages_hit n tgt k s v h = rw (h, remote_stages) refl

  network_stages_far :
      (n : Node t) (tgt : ℤ) (k : Double)
      → same_edge n.rm tgt n.id ≡ false
      → network_stages a c t n tgt k ≡ remote_stage a c t (leb_ℤ (pos 0) tgt && n.edge) k
  unfolding network_stages
  network_stages_far n tgt k far = elim (Bool-cases (leb_ℤ (pos 0) tgt)) [
    | inl p ↦ rw (p, far) refl
    | inr p ↦ rw p refl
  ]

  remote_stages_warm :
      (n : Node t) (tgt : ℤ) (k : Double) (s s' : State c) (r : LookupResult)
      → is_nan k ≡ false
      → same_edge n.rm tgt n.id ≡ false
      → remote_stages a c t n tgt k s ≡ some (r, s')
      → r.found ≡ true
      → c.find s'.hot_cache k ≡ some r.payload
  unfolding finish remote_stages
  remote_stages_warm n tgt k s s' r number far e f = elim (Option-cases (c.find s.hot_cache k)) [
    | inl h ↦
        remote_stage_warms (leb_ℤ (pos 0) tgt && n.edge) k s s' r number
          (ap (λ m. m s) (sym (network_stages_far n tgt k far)) ∙ (rw (h, remote_stages) at e)) f
    | inr (v, h) ↦ cc (rw (h, remote_stages) at e, h)
  ]

  -- A lookup that finds the key of an End on another edge, or of no known edge, leaves its payload in the
  -- hot cache: the next lookup of the key has the same payload from there, sends nothing, and changes
  -- nothing but one counter.
  pub lookup_again :
      (n : Node t) (k : Double) (s s' : State c) (r : LookupResult)
      → is_nan k ≡ false
      → (locate_end n.rm k ==ℤ n.id) ≡ false
      → same_edge n.rm (locate_end n.rm k) n.id ≡ false
      → lookup a c t n k s ≡ some (r, s')
      → r.found ≡ true
      → lookup a c t n k s'
        ≡ some (
          record { found = true; payload = r.payload; stage = hot_cache },
          record s' { stats = count hot_cache s'.stats },
        )
  unfolding lookup
  lookup_again n k s s' r number own edge e f =
      let kept = remote_stages_warm n (locate_end n.rm k) k s s' r number edge (rw own at e) f in
      rw own (remote_stages_hit n (locate_end n.rm k) k s' r.payload kept)
