-- ===== src/Cloud.antt =====
-- src/cloud/cloud_server.cpp: the Cloud. Handlers run on the state that the threads of the Cloud share
-- and return the new state; a socket is a number, the descriptor.
pub mod Route
pub mod Hot
pub mod Ranking
pub mod Routing
pub mod Updates
mod Tests
use plin_cloud_edge_device_l.Common.{
  ℕ, Bool, true, false, List, [], ◌∷◌, ◌++◌, Option, none, some, if◌then◌else◌,
}
use plin_cloud_edge_device_l.Common.Int.{ℤ, ◌==ℤ◌}
use plin_cloud_edge_device_l.Double.{Double}
use plin_cloud_edge_device_l.Proto.{Frame}
use plin_cloud_edge_device_l.RangeMap.{EndInfo}

-- What the Cloud has loaded: the topology, and the rows of the data file in order.
pub record Data : Type 0 where
  pub rm : List EndInfo
  pub keys : List Double
  pub payloads : List ℕ

-- The sockets of the Edges that have registered; the frames that have been written to a socket; the
-- results of the next calls of `write_frame`, and those of `read_frame`, where `none` is false.
pub record Server : Type 0 where
  pub edges : List (ℤ × ℕ)
  pub sent : List (ℕ × Frame)
  pub writes : List Bool
  pub replies : List (Option Frame)

unfoldable pub write : ℕ → Frame → Server → Bool × Server
write fd f s = elim s.writes [
  | [] ↦ (false, s)
  | false ∷ ws ↦ (false, record s { writes = ws })
  | true ∷ ws ↦ (true, record s { writes = ws; sent = s.sent ++ ((fd, f) ∷ []) })
]

unfoldable pub read : Server → Option Frame × Server
read s = elim s.replies [ [] ↦ (none, s) | r ∷ rs ↦ (r, record s { replies = rs }) ]

-- `edge_conn(edge_id)`.
unfoldable pub edge_conn : ℤ → List (ℤ × ℕ) → Option ℕ
edge_conn edge_id [] = none
edge_conn edge_id ((i, fd) ∷ edges) = if i ==ℤ edge_id then some fd else edge_conn edge_id edges

-- `edges_[edge_id] = conn`.
unfoldable pub assign : ℤ → ℕ → List (ℤ × ℕ) → List (ℤ × ℕ)
assign edge_id fd [] = (edge_id, fd) ∷ []
assign edge_id fd ((i, c) ∷ edges) =
    let rest = assign edge_id fd edges in
    if i ==ℤ edge_id then (edge_id, fd) ∷ edges else (i, c) ∷ rest
