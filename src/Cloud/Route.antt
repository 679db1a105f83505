-- ===== src/Cloud/Route.antt =====
-- Connections and the routing between Edges: `register_edge`, `forward_to_edge`,
-- `handle_cross_edge_req`, `handle_connection` of src/cloud/cloud_server.cpp.
use plin_cloud_edge_device_l.Common.{
  ℕ, Bool, true, false, ◌||◌, [], Option, none, some, if◌then◌else◌,
}
use plin_cloud_edge_device_l.Common.Int.{ℤ, pos, ltb_ℤ}
use plin_cloud_edge_device_l.Double.{Double}
use plin_cloud_edge_device_l.Bytes.{append_u32, read_u32, read_double}
use plin_cloud_edge_device_l.Proto.{
  Frame, heartbeat, heartbeat_ack, cross_edge_req, error, not_found,
}
use plin_cloud_edge_device_l.RangeMap.{locate_end, edge_of}
use plin_cloud_edge_device_l.End.{i32_bits}
use plin_cloud_edge_device_l.Edge.{make_fetch_resp, int_of_u32}
use plin_cloud_edge_device_l.Cloud.{Data, Server, write, read, edge_conn, assign}

unfoldable pub register_edge : ℤ → ℕ → Server → Server
register_edge edge_id fd s =
    (write fd (record { kind = heartbeat_ack; body = append_u32 [] (i32_bits edge_id) })
      (record s { edges = assign edge_id fd s.edges })).1

-- The answer of the Edge, `none` where the result is false.
unfoldable pub forward_to_edge : ℤ → Frame → Server → Option Frame × Server
forward_to_edge edge_id req s = elim (edge_conn edge_id s.edges) [
  | none ↦ (none, s)
  | some fd ↦ let (ok, s') = write fd req s in if ok then read s' else (none, s')
]

unfoldable pub reply : ℕ → Frame → Server → Server
reply fd f s = (write fd f s).1

unfoldable pub forwarded : ℕ → Option Frame × Server → Server
forwarded fd (none, s) = reply fd (make_fetch_resp error 0) s
forwarded fd (some resp, s) = reply fd resp s

unfoldable pub route : Data → ℕ → Frame → Double → Server → Server
route d fd req key s =
    let target_end = locate_end d.rm key in
    let target_edge = edge_of d.rm target_end in
    if ltb_ℤ target_end (pos 0) || ltb_ℤ target_edge (pos 0)
    then reply fd (make_fetch_resp not_found 0) s
    else forwarded fd (forward_to_edge target_edge req s)

unfoldable pub handle_cross_edge_req : Data → ℕ → Frame → Server → Server
handle_cross_edge_req d fd req s = elim (read_double req.body 8) [
  | none ↦ reply fd (make_fetch_resp error 0) s
  | some key ↦ route d fd req key s
]

-- The first frame of a connection, `none` if it cannot be read. The result is whether the socket is
-- closed: that of an Edge stays open.
unfoldable pub handle_connection : Data → ℕ → Option Frame → Server → Bool × Server
handle_connection d fd none s = (true, s)
handle_connection d fd (some first) s = elim first.kind [
  | heartbeat ↦ elim (read_u32 first.body 0) [
    | none ↦ (true, s)
    | some edge_id ↦ (false, register_edge (int_of_u32 edge_id) fd s)
  ]
  | cross_edge_req ↦ (true, handle_cross_edge_req d fd first s)
  | _ ↦ (true, s)
]
