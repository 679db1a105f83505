-- ===== src/End/Fetch/Keeps.antt =====
-- The exchanges of an End with its Edge (src/end/end_node.cpp) leave the counters of its lookups alone.
use plin_cloud_edge_device_l.Common.{
  ℕ, ◌≡◌, ◌∙◌, inl, inr, Bool, true, false, List, [], ◌∷◌, Option, none, some, arith, Option-cases,
  if◌then◌else◌,
}
use plin_cloud_edge_device_l.Common.Int.{ℤ}
use plin_cloud_edge_device_l.Double.{Double}
use plin_cloud_edge_device_l.Proto.{Frame}
use plin_cloud_edge_device_l.Store.{CuckooMap}
use plin_cloud_edge_device_l.End.{State, M, ◌>>=◌, write_frame}
use plin_cloud_edge_device_l.End.Control.{apply_param_push, apply_edge_control_frame}
use plin_cloud_edge_device_l.End.Fetch.{
  Fetched, response_loop, read_fetch_response, exchange, edge_fetch, cross_edge_fetch,
  fresh_request_id, next_frame, is_param_push, apply_second, apply_push, request_param_push,
}

module _ (c : CuckooMap) where
  -- A run that returns leaves the counters as they were.
  abbrev pub KeepsStats {ℓ} : {A : Type ℓ} → (State c → Option (A × State c)) → Type ℓ
  KeepsStats {A} m = (s s' : State c) (a : A) → m s ≡ some (a, s') → s'.stats ≡ s.stats

  pub >>=-KeepsStats :
      {A B : Type 0} (m : M c A) (f : A → M c B)
      → KeepsStats m
      → ((a : A) → KeepsStats (f a))
      → KeepsStats (m >>= f)
  >>=-KeepsStats m f k l s s' b e = elim (Option-cases (m s)) [
    | inl n ↦ cc (rw (n, ◌>>=◌) at e)
    | inr ((a, t), n) ↦ l a t s' b (rw (n, ◌>>=◌) at e) ∙ k s t a n
  ]

  pub apply_edge_control_frame-KeepsStats : (f : Frame) → KeepsStats (apply_edge_control_frame c f)
  unfolding apply_edge_control_frame apply_param_push
  apply_edge_control_frame-KeepsStats f s s' a e = ground arith

  pub unit-KeepsStats : {A : Type 0} (a : A) → KeepsStats {A = A} (λ s. some (a, s))
  unit-KeepsStats a s s' b e = ground arith

  pub write_frame-KeepsStats : (f : Frame) → KeepsStats (write_frame c f)
  unfolding write_frame
  write_frame-KeepsStats f s s' b e = ground arith

  pub response_loop-KeepsStats :
      (fs : List (Option Frame)) (v : Fetched) → KeepsStats (response_loop c fs v)
  unfolding response_loop
  response_loop-KeepsStats [] v s s' a e = ground arith
  response_loop-KeepsStats (none ∷ fs) v s s' a e = ground arith
  response_loop-KeepsStats (some f ∷ fs) v s s' a e =
      elim (Option-cases (apply_edge_control_frame c f s)) [
        | inl n ↦ ground arith
        | inr ((u, t), n) ↦ ground (
          arith,
          response_loop-KeepsStats fs v t s' a,
          apply_edge_control_frame-KeepsStats f s t u n,
        )
      ]

  pub read_fetch_response-KeepsStats : (v : Fetched) → KeepsStats (read_fetch_response c v)
  unfolding read_fetch_response
  read_fetch_response-KeepsStats v s = response_loop-KeepsStats s.conn.incoming v s

  pub exchange-KeepsStats : (req : Frame) (v : Fetched) → KeepsStats (exchange c req v)
  unfolding exchange
  exchange-KeepsStats req v =
      >>=-KeepsStats (write_frame c req) _ (write_frame-KeepsStats req) (after v)
    where
      after :
          (v : Fetched) (sent : Bool)
          → KeepsStats (
              if sent
              then read_fetch_response c v
              else (λ s. some (record v { success = false }, s)))
      after v true = read_fetch_response-KeepsStats v
      after v false = unit-KeepsStats (record v { success = false })

  pub edge_fetch-KeepsStats :
      (k : Double) (slot : ℤ) (out : ℕ) → KeepsStats (edge_fetch c k slot out)
  unfolding edge_fetch
  edge_fetch-KeepsStats k slot out = exchange-KeepsStats _ _

  pub cross_edge_fetch-KeepsStats : (k : Double) (out : ℕ) → KeepsStats (cross_edge_fetch c k out)
  unfolding cross_edge_fetch fresh_request_id
  cross_edge_fetch-KeepsStats k out =
      >>=-KeepsStats (fresh_request_id c) _ (λ s s' a e. ground arith)
        (λ id. exchange-KeepsStats _ _)

  pub next_frame-KeepsStats : KeepsStats (next_frame c)
  unfolding next_frame
  next_frame-KeepsStats s s' a e = ground arith

  pub apply_second-KeepsStats : KeepsStats (apply_second c)
  unfolding apply_second
  apply_second-KeepsStats = >>=-KeepsStats (next_frame c) _ next_frame-KeepsStats after
    where
      after :
          (f : Option Frame)
          → KeepsStats (elim f [
            | none ↦ (λ s. some (true, s))
            | some f' ↦ apply_edge_control_frame c f' >>= (λ _ s. some (true, s))
          ])
      after none = unit-KeepsStats true
      after (some f) =
          >>=-KeepsStats (apply_edge_control_frame c f) _ (apply_edge_control_frame-KeepsStats f)
            (λ _. unit-KeepsStats true)

  pub apply_push-KeepsStats : (f : Frame) → KeepsStats (apply_push c f)
  unfolding apply_push
  apply_push-KeepsStats f = branch (is_param_push f.kind)
    where
      branch :
          (b : Bool)
          → KeepsStats (
              if b
              then (apply_edge_control_frame c f >>= (λ _. apply_second c))
              else (λ s. some (false, s)))
      branch true =
          >>=-KeepsStats (apply_edge_control_frame c f) _ (apply_edge_control_frame-KeepsStats f)
            (λ _. apply_second-KeepsStats)
      branch false = unit-KeepsStats false

  pub request_param_push-KeepsStats : KeepsStats (request_param_push c)
  unfolding request_param_push
  request_param_push-KeepsStats =
      >>=-KeepsStats (write_frame c _) _ (write_frame-KeepsStats _)
        (λ sent. >>=-KeepsStats _ _ (reading sent) answered)
    where
      reading : (sent : Bool) → KeepsStats (if sent then next_frame c else (λ s. some (none, s)))
      reading true = next_frame-KeepsStats
      reading false = unit-KeepsStats none

      answered :
          (r : Option Frame)
          → KeepsStats (elim r [ none ↦ (λ s. some (false, s)) | some f ↦ apply_push c f ])
      answered none = unit-KeepsStats false
      answered (some f) = apply_push-KeepsStats f
