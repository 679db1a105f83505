-- ===== src/End/Fetch/Response.antt =====
-- `read_fetch_response` of src/end/end_node.cpp: the response among the control frames.
use plin_cloud_edge_device_l.Common.{
  ◌≡◌, ◌∙◌, ◌⊎◌, inl, inr, false, List, [], ◌∷◌, ◌++◌, map, Option, none, some, Option-cases,
}
use plin_cloud_edge_device_l.Proto.{
  Frame, plin_param_push, hot_update, rdma_snapshot_info, edge_fetch_resp,
}
use plin_cloud_edge_device_l.Store.{CuckooMap}
use plin_cloud_edge_device_l.End.{State, M}
use plin_cloud_edge_device_l.End.Control.{apply_edge_control_frame}
use plin_cloud_edge_device_l.End.Fetch.{Fetched, decode_response, with_incoming, response_loop}

abbrev pub IsControl : Frame → Type 0
IsControl f = (f.kind ≡ plin_param_push) ⊎ ((f.kind ≡ hot_update) ⊎ (f.kind ≡ rdma_snapshot_info))

abbrev pub Controls : List Frame → Type 0
Controls [] = Unit {0}
Controls (f ∷ fs) = IsControl f × Controls fs

module _ (c : CuckooMap) where
  -- The control frames applied in order.
  abbrev pub apply_all : List Frame → M c (Unit {0})
  apply_all [] s = some (tt, s)
  apply_all (f ∷ fs) s = elim (apply_edge_control_frame c f s) [
    | none ↦ none
    | some (_, s') ↦ apply_all fs s'
  ]

  response_loop-control :
      (f : Frame) (fs : List (Option Frame)) (v : Fetched) (s s' : State c)
      → IsControl f
      → apply_edge_control_frame c f s ≡ some (tt, s')
      → response_loop c (some f ∷ fs) v s ≡ response_loop c fs v s'
  unfolding response_loop
  response_loop-control f fs v s s' (inl e) h = rw (e, response_loop) (rw h)
  response_loop-control f fs v s s' (inr (inl e)) h = rw (e, response_loop) (rw h)
  response_loop-control f fs v s s' (inr (inr e)) h = rw (e, response_loop) (rw h)

  response_loop-ends :
      (f : Frame) (fs : List (Option Frame)) (v : Fetched) (s : State c)
      → IsControl f
      → apply_edge_control_frame c f s ≡ none
      → response_loop c (some f ∷ fs) v s ≡ none
  unfolding response_loop
  response_loop-ends f fs v s (inl e) h = rw (e, response_loop) (rw h)
  response_loop-ends f fs v s (inr (inl e)) h = rw (e, response_loop) (rw h)
  response_loop-ends f fs v s (inr (inr e)) h = rw (e, response_loop) (rw h)

  response_loop-response :
      (f : Frame) (fs : List (Option Frame)) (v : Fetched) (s : State c)
      → f.kind ≡ edge_fetch_resp
      → response_loop c (some f ∷ fs) v s ≡ some (decode_response f.body v, with_incoming c s fs)
  unfolding response_loop
  response_loop-response f fs v s e = rw (e, response_loop)

  abbrev pub after_controls :
      Option (Unit {0} × State c) → Fetched → List (Option Frame) → Option (Fetched × State c)
  after_controls none v fs = none
  after_controls (some (_, s)) v fs = some (v, with_incoming c s fs)

  -- Control frames that arrive before the response are applied in the order of their arrival and do not
  -- change what the fetch returns: the response, with the frames behind it left for later calls. If one
  -- of them ends the process, the fetch does not return.
  pub response_loop-apply_all :
      (fs : List Frame) (resp : Frame) (rest : List (Option Frame)) (v : Fetched) (s : State c)
      → Controls fs
      → resp.kind ≡ edge_fetch_resp
      → response_loop c (map some fs ++ (some resp ∷ rest)) v s
        ≡ after_controls (apply_all fs s) (decode_response resp.body v) rest
  response_loop-apply_all [] resp rest v s cs e = response_loop-response resp rest v s e
  response_loop-apply_all (f ∷ fs) resp rest v s (c0, cs) e =
      elim (Option-cases (apply_edge_control_frame c f s)) [
        | inl h ↦
            rw (h, apply_all) (response_loop-ends f (map some fs ++ (some resp ∷ rest)) v s c0 h)
        | inr ((u, t), h) ↦
            rw (h, apply_all)
              (response_loop-control f (map some fs ++ (some resp ∷ rest)) v s t c0 h
                ∙ response_loop-apply_all fs resp rest v t cs e)
      ]

  -- If the connection ends after control frames alone, they have been applied, and the fetch fails and
  -- keeps `out` and `stale`.
  pub response_loop_fails :
      (fs : List Frame) (v : Fetched) (s s' : State c)
      → Controls fs
      → apply_all fs s ≡ some (tt, s')
      → response_loop c (map some fs) v s
        ≡ some (record v { success = false }, with_incoming c s' [])
  response_loop_fails [] v s s' cs e = unfold response_loop in cc e
  response_loop_fails (f ∷ fs) v s s' (c0, cs) e =
      elim (Option-cases (apply_edge_control_frame c f s)) [
        | inl h ↦ cc (rw (h, apply_all) at e)
        | inr ((u, t), h) ↦
            response_loop-control f (map some fs) v s t c0 h
            ∙ response_loop_fails fs v t s' cs (rw (h, apply_all) at e)
      ]
