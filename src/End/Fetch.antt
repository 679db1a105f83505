-- ===== src/End/Fetch.antt =====
-- The exchanges of an End with its Edge: `read_fetch_response`, `edge_fetch`, `cross_edge_fetch`,
-- `send_end_heartbeat`, `request_param_push` and the loops that apply control frames
-- (src/end/end_node.cpp).
pub mod Response
pub mod Keeps
use plin_cloud_edge_device_l.Common.{
  ℕ, zero, suc, ◌+◌, ◌%◌, ◌^◌, ◌≡◌, refl, Bool, true, false, not, ◌&&◌, List, [], ◌∷◌, ◌++◌, Option,
  none, some, ltb, ◌==◌, if◌then◌else◌, length,
}
use plin_cloud_edge_device_l.Common.Int.{ℤ}
use plin_cloud_edge_device_l.Double.{Double}
use plin_cloud_edge_device_l.Bytes.{le_bytes, load_le, append_u32, append_u64}
use plin_cloud_edge_device_l.Proto.{
  Frame, MsgType, plin_param_push, hot_update, rdma_snapshot_info, edge_fetch_req, edge_fetch_resp,
  cross_edge_req, heartbeat,
}
use plin_cloud_edge_device_l.Plin.Predict.{loaded}
use plin_cloud_edge_device_l.Store.{CuckooMap}
use plin_cloud_edge_device_l.End.{State, Conn, M, ◌>>=◌, write_frame, i32_bits}
use plin_cloud_edge_device_l.End.Control.{apply_edge_control_frame}

-- What a fetch leaves in its result and in the variables `out` and `param_stale` of its caller.
pub record Fetched : Type 0 where
  pub success : Bool
  pub out : ℕ
  pub stale : Bool

-- An EDGE_FETCH_RESP: status, payload, and the flag that the parameters are stale.
unfoldable pub decode_response : List ℕ → Fetched → Fetched
decode_response body v = if ltb (length body) 9 then record v { success = false } else record {
  success = load_le 1 body 0 == 0;
  out = load_le 8 body 1;
  stale = ltb 9 (length body) && not (load_le 1 body 9 == 0);
}

unfoldable pub is_param_push : MsgType → Bool
is_param_push plin_param_push = true
is_param_push _ = false

module _ (c : CuckooMap) where
  abbrev with_incoming : State c → List (Option Frame) → State c
  with_incoming s fs = record s { conn = record s.conn { incoming = fs } }

  -- The loop over the frames that arrive.
  unfoldable pub response_loop : List (Option Frame) → Fetched → M c Fetched
  response_loop [] v s = some (record v { success = false }, with_incoming s [])
  response_loop (none ∷ fs) v s = some (record v { success = false }, with_incoming s fs)
  response_loop (some f ∷ fs) v s =
      let again : Option (Fetched × State c) = elim (apply_edge_control_frame c f s) [
        | none ↦ none
        | some (_, s') ↦ response_loop fs v s'
      ] in
      elim f.kind [
        | edge_fetch_resp ↦ some (decode_response f.body v, with_incoming s fs)
        | plin_param_push ↦ again
        | hot_update ↦ again
        | rdma_snapshot_info ↦ again
        | _ ↦ some (record v { success = false }, with_incoming s fs)
      ]

  unfoldable pub read_fetch_response : Fetched → M c Fetched
  read_fetch_response v s = response_loop s.conn.incoming v s

  -- The exchange after the request has been built, the same in both fetches.
  unfoldable pub exchange : Frame → Fetched → M c Fetched
  exchange req v = do
    sent ← write_frame c req
    if sent then read_fetch_response v else (λ s. some (record v { success = false }, s))

  unfoldable pub edge_fetch : Double → ℤ → ℕ → M c Fetched
  edge_fetch key predicted_slot out =
      exchange
        (record {
          kind = edge_fetch_req;
          body = le_bytes 8 key ++ le_bytes 4 (i32_bits predicted_slot);
        })
        (record { success = false; out = out; stale = false })

  -- `next_request_id.fetch_add(1)`.
  unfoldable pub fresh_request_id : M c ℕ
  fresh_request_id s =
      some (s.next_request_id, record s { next_request_id = (s.next_request_id + 1) % 2 ^ 64 })

  unfoldable pub cross_edge_fetch : Double → ℕ → M c Fetched
  cross_edge_fetch key out = do
    id ← fresh_request_id
    exchange (record { kind = cross_edge_req; body = append_u64 [] id ++ le_bytes 8 key })
        (record { success = false; out = out; stale = false })

  unfoldable pub send_end_heartbeat : ℤ → M c Bool
  send_end_heartbeat end_id =
      write_frame c (record { kind = heartbeat; body = append_u32 [] (i32_bits end_id) })

  -- `edge.read_frame(out)`: the next result, `none` for false.
  unfoldable pub next_frame : M c (Option Frame)
  next_frame s = elim s.conn.incoming [
    | [] ↦ some (none, s)
    | f ∷ fs ↦ some (f, with_incoming s fs)
  ]

  -- The frame that may follow a push within 50 ms, the Edge's snapshot.
  unfoldable pub apply_second : M c Bool
  apply_second = do
    f ← next_frame
    elim f [
      | none ↦ (λ s. some (true, s))
      | some f' ↦ do _ ← apply_edge_control_frame c f'; (λ s. some (true, s))
    ]

  unfoldable pub apply_push : Frame → M c Bool
  apply_push resp =
      if is_param_push resp.kind
      then (do _ ← apply_edge_control_frame c resp; apply_second)
      else (λ s. some (false, s))

  unfoldable pub request_param_push : M c Bool
  request_param_push = do
    sent ← write_frame c (record { kind = plin_param_push; body = [] })
    resp ← (if sent then next_frame else (λ s. some (none, s)))
    elim resp [ none ↦ (λ s. some (false, s)) | some f ↦ apply_push f ]

  -- `edge_receiver`: every frame until the connection ends.
  unfoldable pub edge_receiver : List (Option Frame) → M c (Unit {0})
  edge_receiver [] s = some (tt, with_incoming s [])
  edge_receiver (none ∷ fs) s = some (tt, with_incoming s fs)
  edge_receiver (some f ∷ fs) s = elim (apply_edge_control_frame c f s) [
    | none ↦ none
    | some (_, s') ↦ edge_receiver fs s'
  ]

  -- The first loop of `wait_initial_plin_push`: `rounds` calls of `read_frame` fit before the deadline.
  unfoldable pub wait_loop : ℕ → M c (Unit {0})
  wait_loop zero s = some (tt, s)
  wait_loop (suc rounds) s =
      let turn : Option (Unit {0} × State c) = elim (next_frame s) [
        | none ↦ none
        | some (none, s') ↦ wait_loop rounds s'
        | some (some f, s') ↦ elim (apply_edge_control_frame c f s') [
          | none ↦ none
          | some (_, s'') ↦ wait_loop rounds s''
        ]
      ] in
      if loaded s.plin_cache then some (tt, s) else turn

  -- The second loop: frames that come within 25 ms each, up to one that is no snapshot.
  unfoldable pub settle_loop : List (Option Frame) → M c (Unit {0})
  settle_loop [] s = some (tt, with_incoming s [])
  settle_loop (none ∷ fs) s = some (tt, with_incoming s fs)
  settle_loop (some f ∷ fs) s = elim (apply_edge_control_frame c f s) [
    | none ↦ none
    | some (_, s') ↦ elim f.kind [
      | rdma_snapshot_info ↦ settle_loop fs s'
      | _ ↦ some (tt, with_incoming s' fs)
    ]
  ]

  unfoldable pub wait_initial_plin_push : ℕ → M c Bool
  wait_initial_plin_push rounds = do
    _ ← wait_loop rounds
    _ ← (λ s. settle_loop s.conn.incoming s)
    (λ s. some (loaded s.plin_cache, s))

  -- `drain_edge_control_frames`: `rounds` calls of `read_frame` fit before the deadline.
  unfoldable pub drain_edge_control_frames : ℕ → M c (Unit {0})
  drain_edge_control_frames zero s = some (tt, s)
  drain_edge_control_frames (suc rounds) s = elim (next_frame s) [
    | none ↦ none
    | some (none, s') ↦ drain_edge_control_frames rounds s'
    | some (some f, s') ↦ elim f.kind [
      | plin_param_push ↦ elim (apply_edge_control_frame c f s') [
        | none ↦ none
        | some (_, t) ↦ drain_edge_control_frames rounds t
      ]
      | hot_update ↦ elim (apply_edge_control_frame c f s') [
        | none ↦ none
        | some (_, t) ↦ drain_edge_control_frames rounds t
      ]
      | rdma_snapshot_info ↦ elim (apply_edge_control_frame c f s') [
        | none ↦ none
        | some (_, t) ↦ drain_edge_control_frames rounds t
      ]
      | _ ↦ drain_edge_control_frames rounds s'
    ]
  ]
