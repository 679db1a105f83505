-- ===== src/End/Lookup/Stages.antt =====
-- Every lookup of src/end/end_node.cpp is counted once.
use plin_cloud_edge_device_l.Common.{
  ℕ, ◌+◌, ◌≤◌, ◌≡◌, ap, ◌∙◌, inl, inr, Bool, true, false, ◌&&◌, List, [], ◌∷◌, Option, some, arith,
  length, Option-cases, if◌then◌else◌,
}
use plin_cloud_edge_device_l.Common.Int.{ℤ, pos, leb_ℤ, ◌==ℤ◌}
use plin_cloud_edge_device_l.Double.{Double}
use plin_cloud_edge_device_l.RangeMap.{locate_end, same_edge}
use plin_cloud_edge_device_l.Plin.Predict.{Arith}
use plin_cloud_edge_device_l.Store.{CuckooMap, BtreeMap}
use plin_cloud_edge_device_l.End.{Node, State, Stats, M, ◌>>=◌}
use plin_cloud_edge_device_l.End.Fetch.{cross_edge_fetch, request_param_push}
use plin_cloud_edge_device_l.End.Fetch.Keeps.{
  KeepsStats, >>=-KeepsStats, unit-KeepsStats, edge_fetch-KeepsStats, cross_edge_fetch-KeepsStats,
  request_param_push-KeepsStats,
}
use plin_cloud_edge_device_l.End.Lookup.{
  LookupResult, LookupStage, local, hot_cache, edge_plin, cross_edge, local_result, finish, warm,
  refresh, predicted_slot, fetch_from_edge, sibling_stage, remote_stage, network_stages,
  remote_stages, lookup, run_benchmark, Bench, count, count_result, count_stage,
}

abbrev pub total : Stats → ℕ
total t = t.hit_local + t.hit_hot + t.hit_edge + t.miss_cross

module _ (a : Arith) (c : CuckooMap) (t : BtreeMap) where
  -- A run that returns has counted once.
  abbrev pub CountsOnce {ℓ} : {A : Type ℓ} → (State c → Option (A × State c)) → Type ℓ
  CountsOnce {A} m =
      (s s' : State c) (x : A) → m s ≡ some (x, s') → total s'.stats ≡ total s.stats + 1

  >>=-CountsOnce :
      {A B : Type 0} (m : M c A) (f : A → M c B)
      → KeepsStats c m
      → ((x : A) → CountsOnce (f x))
      → CountsOnce (m >>= f)
  >>=-CountsOnce m f k l s s' b e = elim (Option-cases (m s)) [
    | inl n ↦ cc (rw (n, ◌>>=◌) at e)
    | inr ((x, u), n) ↦ l x u s' b (rw (n, ◌>>=◌) at e) ∙ ap (λ y. total y + 1) (k s u x n)
  ]

  finish-CountsOnce : (stage : LookupStage) (r : LookupResult) → CountsOnce (finish a c t stage r)
  unfolding finish count
  finish-CountsOnce stage r s s' x e = ground arith

  warm-KeepsStats : (b : Bool) (k : Double) (v : ℕ) → KeepsStats c (warm a c t b k v)
  unfolding warm
  warm-KeepsStats b k v s s' x e = ground arith

  refresh-KeepsStats : (b : Bool) → KeepsStats c (refresh a c t b)
  unfolding refresh
  refresh-KeepsStats true =
      >>=-KeepsStats c (request_param_push c) _ (request_param_push-KeepsStats c)
        (λ _. unit-KeepsStats c tt)
  refresh-KeepsStats false = unit-KeepsStats c tt

  fetch_from_edge-KeepsStats : (k : Double) → KeepsStats c (fetch_from_edge a c t k)
  unfolding fetch_from_edge
  fetch_from_edge-KeepsStats k =
      >>=-KeepsStats c (predicted_slot a c t k) _ slot-KeepsStats
        (λ slot s s' x e. ground (arith, edge_fetch-KeepsStats c k slot 0 s s' x))
    where
      slot-KeepsStats : KeepsStats c (predicted_slot a c t k)
      slot-KeepsStats s s' x e = unfold predicted_slot in ground arith

  sibling_stage-CountsOnce : (edge : Bool) (k : Double) → CountsOnce (sibling_stage a c t edge k)
  unfolding sibling_stage
  sibling_stage-CountsOnce false k = finish-CountsOnce edge_plin _
  sibling_stage-CountsOnce true k =
      >>=-CountsOnce (fetch_from_edge a c t k) _ (fetch_from_edge-KeepsStats k) λ v.
        >>=-CountsOnce (warm a c t v.success k v.out) _ (warm-KeepsStats v.success k v.out) λ _.
          >>=-CountsOnce (refresh a c t v.stale) _ (refresh-KeepsStats v.stale)
            λ _. finish-CountsOnce edge_plin _

  remote_stage-CountsOnce : (edge : Bool) (k : Double) → CountsOnce (remote_stage a c t edge k)
  unfolding remote_stage
  remote_stage-CountsOnce false k = finish-CountsOnce cross_edge _
  remote_stage-CountsOnce true k =
      >>=-CountsOnce (cross_edge_fetch c k 0) _ (cross_edge_fetch-KeepsStats c k 0) λ v.
        >>=-CountsOnce (warm a c t v.success k v.out) _ (warm-KeepsStats v.success k v.out)
          λ _. finish-CountsOnce cross_edge _

  network_stages-CountsOnce :
      (n : Node t) (tgt : ℤ) (k : Double) → CountsOnce (network_stages a c t n tgt k)
  unfolding network_stages
  network_stages-CountsOnce n tgt k = branch (leb_ℤ (pos 0) tgt && same_edge n.rm tgt n.id)
    where
      branch :
          (b : Bool)
          → CountsOnce (
              if b
              then sibling_stage a c t n.edge k
              else remote_stage a c t (leb_ℤ (pos 0) tgt && n.edge) k)
      branch true = sibling_stage-CountsOnce n.edge k
      branch false = remote_stage-CountsOnce (leb_ℤ (pos 0) tgt && n.edge) k

  remote_stages-CountsOnce :
      (n : Node t) (tgt : ℤ) (k : Double) → CountsOnce (remote_stages a c t n tgt k)
  unfolding remote_stages
  remote_stages-CountsOnce n tgt k s s' x e = elim (Option-cases (c.find s.hot_cache k)) [
    | inl h ↦ network_stages-CountsOnce n tgt k s s' x (rw (h, remote_stages) at e)
    | inr (v, h) ↦ finish-CountsOnce hot_cache _ s s' x (rw (h, remote_stages) at e)
  ]

  -- A lookup that returns has raised exactly one of the four counters, by one, on each of its branches
  -- and whatever the Edge sends in between.
  lookup-CountsOnce : (n : Node t) (k : Double) → CountsOnce (lookup a c t n k)
  unfolding lookup
  lookup-CountsOnce n k = branch (locate_end n.rm k ==ℤ n.id)
    where
      branch :
          (b : Bool)
          → CountsOnce (
              if b
              then finish a c t local (local_result a c t (t.find n.store k))
              else remote_stages a c t n (locate_end n.rm k) k)
      branch true = finish-CountsOnce local _
      branch false = remote_stages-CountsOnce n (locate_end n.rm k) k

  abbrev pub queries : Bench → ℕ
  queries b = b.stage1 + b.stage2 + b.stage3 + b.stage4

  count_result_lem :
      (r : LookupResult) (b : Bench)
      → (queries (count_result r b) ≡ queries b + 1)
        × ((count_result r b).found ≡ (if r.found then b.found + 1 else b.found))
  unfolding count_result count_stage
  count_result_lem r b = ground arith

  -- The report of a benchmark that returns accounts for each key once: the results by stage add up to
  -- the number of keys, as do the counters of the node, and no more results are found than keys asked.
  pub run_benchmark_lem :
      (n : Node t) (keys : List Double) (b b' : Bench) (s s' : State c)
      → run_benchmark a c t n keys b s ≡ some (b', s')
      → (queries b' ≡ queries b + length keys)
        × (total s'.stats ≡ total s.stats + length keys)
        × (b'.found ≤ b.found + length keys)
  unfolding run_benchmark
  run_benchmark_lem n [] b b' s s' e = ground arith
  run_benchmark_lem n (k ∷ keys) b b' s s' e = elim (Option-cases (lookup a c t n k s)) [
    | inl h ↦ cc (rw (h, run_benchmark) at e)
    | inr ((r, u), h) ↦
        let ih = run_benchmark_lem n keys (count_result r b) b' u s' (rw (h, run_benchmark) at e) in
        ground (arith, ih, lookup-CountsOnce n k s u r h, count_result_lem r b)
  ]
